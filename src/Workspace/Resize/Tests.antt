-- ===== src/Workspace/Resize/Tests.antt =====
-- The resize dialog at a workspace of one core, over whole numbers.
use ha_cluster.Base.{
  List, Value, [], false, if◌then◌else◌, ltb, refl, show, some, true, ℕ, ◌*◌, ◌/◌, ◌==◌, ◌∷◌, ◌≡◌,
  ◌⊎◌,
}
use ha_cluster.Workspace.Resize.Laws.{IsAllowed, confirm_sends_previewed, resize_request}
use ha_cluster.Workspace.Resize.{
  Numbers, may_confirm, on_confirm, on_custom_mem, on_open_change, on_preview_submit, preview_step,
}
use ha_cluster.Workspace.Resize.Use.{
  Event, at_size, confirms, edits_mem, first_use, handle, handle_all, opens, polled, seen, submits,
}
use ha_cluster.Session.Fetch.{api, attempt, authorized_fetch}
use ha_cluster.Session.World.{ApiError, done, fetch, thrown}
use ha_cluster.Workspace.Plan.{
  PlanItem, classify_resize_preview, gib, resize_preview_valid, workspace_spec,
}
use ha_cluster.Session.Handler.{told}
use ha_cluster.Workspace.{Workspace}
use ha_cluster.Workspace.Sample.{js, session, workspace}

abbrev whole : Numbers
whole = record {
  Double = ℕ;
  read = λ s. if s == "1" then 1 else if s == "2" then 2 else 0;
  is_finite = λ d. true;
  lt = ltb;
  is_positive = λ d. ltb 0 d;
  quotient = λ a b. a / b;
  scaled = λ d k. d * k;
  format_spec_number = show;
}

abbrev one_core : Workspace
one_core = record (workspace "running") {
  cpu_milli = some 1000;
  mem_bytes = some gib;
  disk_bytes = some gib;
}

-- The first confirmation meets a network that fails; then the workspace is loaded anew.
abbrev more_memory : List (Event whole js (λ s. s))
more_memory = opens true ∷ edits_mem "2" ∷ submits ∷ confirms session ∷ polled one_core ∷ []

reached : (handle_all whole js (λ s. s) more_memory (first_use one_core)).dialog.step ≡ preview_step
unfolding handle_all show on_preview_submit on_custom_mem on_open_change handle at_size on_confirm
    may_confirm workspace_spec resize_preview_valid classify_resize_preview api authorized_fetch
    attempt fetch
reached = refl

confirm_sends_previewed_example :
    let u = handle_all whole js (λ s. s) more_memory (first_use one_core) in
    let ((d', told_page), w') = on_confirm js (λ s. s) u.ws u.dialog session in
    let r = resize_request js (λ s. s) u.ws in
    (on_confirm js (λ s. s) u.ws u.dialog session ≡ ((u.dialog, []), session))
    ⊎ ((t : PlanItem) × (u.dialog.target ≡ some t)
        × IsAllowed (seen u) t
        × (w' ≡ (r t session).1)
        × (((v : Value) × ((r t session).0 ≡ done v) × (d'.open_ ≡ false))
            ⊎ ((e : ApiError) × ((r t session).0 ≡ thrown e)
                × (d'.open_ ≡ u.dialog.open_)
                × (d'.err ≡ told (λ s. s) e))))
confirm_sends_previewed_example =
    confirm_sends_previewed whole js (λ s. s) one_core more_memory session
