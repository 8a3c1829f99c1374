-- ===== src/Workspace/Resize/Use.antt =====
-- A use of the resize dialog, event by event: what its handlers do in whatever order they are called,
-- while the workspace is loaded anew and confirmations fail or succeed.
use ha_cluster.Base.{Bool, Exists, List, String, [], none, some, ◌∷◌, ◌≡◌}
use ha_cluster.Workspace.Resize.{
  Dialog, Numbers, fill_from_plan, first_dialog, on_back, on_confirm, on_custom_cpu, on_custom_disk,
  on_custom_mem, on_disk_blur, on_open_change, on_preview_submit, plans_loaded,
}
use ha_cluster.Session.World.{Json, World}
use ha_cluster.Workspace.{Workspace}
use ha_cluster.Workspace.Plan.{PlanItem, workspace_spec}

-- The dialog in use: its workspace as it was loaded last, and as it was loaded before.
pub record Use : Type 0 where
  pub dialog : Dialog
  pub ws : Workspace
  pub earlier : List Workspace

abbrev pub first_use : Workspace → Use
first_use ws = record { dialog = first_dialog; ws = ws; earlier = [] }

abbrev pub seen : Use → List Workspace
seen u = u.ws ∷ u.earlier

-- The workspace had this size at some time of the use.
abbrev pub HadSize : List Workspace → PlanItem → Type 0
HadSize ws spec = Exists (λ w. workspace_spec w ≡ some spec) ws

module _ (n : Numbers) (js : Json) (lower : String → String) where
  -- What a user or a reply does to the dialog. A confirmation meets the world that it is made in.
  pub data Event : Type 0 where
    plans_arrive : List PlanItem → Event
    polled : Workspace → Event
    opens : Bool → Event
    chooses edits_cpu edits_mem edits_disk : String → Event
    leaves_disk submits goes_back : Event
    confirms : World → Event

  -- An event of the dialog itself, which is not shown while the size is not known.
  unfoldable pub at_size : (PlanItem → Dialog → Dialog) → Use → Use
  at_size f u = elim (workspace_spec u.ws) [
    | none ↦ u
    | some spec ↦ record u { dialog = f spec u.dialog }
  ]

  unfoldable pub handle : Event → Use → Use
  unfolding at_size
  handle (plans_arrive ps) u = record u { dialog = plans_loaded n ps u.dialog }
  handle (polled ws) u = record u { ws = ws; earlier = u.ws ∷ u.earlier }
  handle (opens next) u = at_size (λ spec d. on_open_change n spec next d) u
  handle (chooses name) u = at_size (λ spec d. fill_from_plan n spec name d) u
  handle (edits_cpu v) u = at_size (λ spec d. on_custom_cpu n spec v d) u
  handle (edits_mem v) u = at_size (λ spec d. on_custom_mem n spec v d) u
  handle (edits_disk v) u = at_size (λ spec d. on_custom_disk n spec v d) u
  handle leaves_disk u = at_size (λ spec d. on_disk_blur n spec d) u
  handle submits u = at_size (λ spec d. on_preview_submit n spec d) u
  handle goes_back u = at_size (λ spec d. on_back n spec d) u
  handle (confirms w) u = record u { dialog = (on_confirm js lower u.ws u.dialog w).0.0 }

  unfoldable pub handle_all : List Event → Use → Use
  unfolding handle
  handle_all [] u = u
  handle_all (e ∷ es) u = handle_all es (handle e u)
