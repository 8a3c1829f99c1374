-- ===== src/Workspace/Resize/Laws.antt =====
-- Laws of the resize dialog.
use ha_cluster.Base.{
  Bool-cases, List, Option-cases, String, Value, [], arith, false, here, inl, inr, is_null, ltb,
  none, refl, some, there, true, ◌++◌, ◌∙◌, ◌∷◌, ◌≡◌, ◌≤◌, ◌⊎◌,
}
use ha_cluster.Workspace.Plan.{
  PlanItem, classify_resize_preview, resize_preview_valid, workspace_spec,
}
use ha_cluster.Workspace.Resize.{
  Dialog, Numbers, fill_from_plan, is_shrunk, may_confirm, on_back, on_confirm, on_custom_cpu,
  on_custom_disk, on_custom_mem, on_disk_blur, on_open_change, on_preview_submit, parse_target,
  plans_loaded, sizes,
}
use ha_cluster.Session.World.{ApiError, Json, M, World, done, thrown}
use ha_cluster.Workspace.Resize.Use.{
  Event, HadSize, Use, at_size, chooses, confirms, edits_cpu, edits_disk, edits_mem, first_use,
  goes_back, handle, handle_all, leaves_disk, opens, plans_arrive, polled, seen, submits,
}
use ha_cluster.Session.Fetch.{api}
use ha_cluster.Workspace.{Workspace}
use ha_cluster.Session.Handler.{Result-cases, told, with_body}

abbrev pub resize_request : Json → (String → String) → Workspace → PlanItem → M Value
resize_request js lower ws t =
    api js ("/workspaces/" ++ (ws.id ++ "/resize")) (with_body js "POST" (sizes js lower ws t))

module _ (n : Numbers) (js : Json) (lower : String → String) where
  -- A preview compares the target with a size that the workspace had, and the target's disk is not
  -- smaller.
  pub data IsPreviewed (ws : List Workspace) (d : Dialog) : Type 0 where
    not_yet : d.target ≡ none → d.preview ≡ none → IsPreviewed ws d
    of_target :
        (spec t : PlanItem)
        → HadSize ws spec
        → d.target ≡ some t
        → d.preview ≡ some (classify_resize_preview spec t)
        → spec.disk_bytes ≤ t.disk_bytes
        → IsPreviewed ws d

  IsPreviewed-keeps :
      (ws : List Workspace) (d d' : Dialog)
      → d'.target ≡ d.target
      → d'.preview ≡ d.preview
      → IsPreviewed ws d
      → IsPreviewed ws d'
  IsPreviewed-keeps ws d d' t p (not_yet a b) = not_yet (t ∙ a) (p ∙ b)
  IsPreviewed-keeps ws d d' t p (of_target spec x h a b c) = of_target spec x h (t ∙ a) (p ∙ b) c

  IsPreviewed-later :
      (ws : List Workspace) (w : Workspace) (d : Dialog) → IsPreviewed ws d → IsPreviewed (w ∷ ws) d
  IsPreviewed-later ws w d (not_yet a b) = not_yet a b
  IsPreviewed-later ws w d (of_target spec x h a b c) = of_target spec x (there h) a b c

  submit-IsPreviewed :
      (ws : List Workspace) (spec : PlanItem) (d : Dialog)
      → HadSize ws spec
      → IsPreviewed ws d
      → IsPreviewed ws (on_preview_submit n spec d)
  unfolding on_preview_submit
  submit-IsPreviewed ws spec d had v =
      let kept =
        λ (t : (on_preview_submit n spec d).target ≡ d.target)
            (p : (on_preview_submit n spec d).preview ≡ d.preview).
          IsPreviewed-keeps ws d (on_preview_submit n spec d) t p v in
      elim (Bool-cases (is_shrunk n spec d.disk_gi)) [
        | inl e ↦ kept (ground arith) (ground arith)
        | inr e ↦ elim (Option-cases (parse_target n d.cpu_cores d.mem_gi d.disk_gi)) [
          | inl f ↦ kept (ground arith) (ground arith)
          | inr (next, f) ↦ elim (Bool-cases (ltb next.disk_bytes spec.disk_bytes)) [
            | inl g ↦ kept (ground arith) (ground arith)
            | inr g ↦ of_target spec next had (ground arith) (ground arith) (ground arith)
          ]
        ]
      ]

  -- What a handler must do for a size that the workspace had.
  abbrev Keeps : (PlanItem → Dialog → Dialog) → Type 0
  Keeps f =
      (ws : List Workspace) (spec : PlanItem) (d : Dialog)
      → HadSize ws spec
      → IsPreviewed ws d
      → IsPreviewed ws (f spec d)

  at_size-IsPreviewed :
      (f : PlanItem → Dialog → Dialog)
      → Keeps f
      → (u : Use) → IsPreviewed (seen u) u.dialog
      → let u' = at_size n js lower f u in IsPreviewed (seen u') u'.dialog
  unfolding at_size
  at_size-IsPreviewed f keeps u v = elim (Option-cases (workspace_spec u.ws)) [
    | inl e ↦ rw (at_size, e) v
    | inr (spec, e) ↦ rw (at_size, e) (keeps (seen u) spec u.dialog (here e) v)
  ]

  confirm-keeps :
      (ws : Workspace) (d : Dialog) (w : World)
      → let d' = (on_confirm js lower ws d w).0.0 in
        (d'.target ≡ d.target) × (d'.preview ≡ d.preview)
  unfolding on_confirm
  confirm-keeps ws d w = elim (Option-cases (may_confirm js lower ws d)) [
    | inl e ↦ (ground arith, ground arith)
    | inr (t, e) ↦ elim (Result-cases (resize_request js lower ws t w).0) [
      | inr (x, f) ↦ (ground arith, ground arith)
      | inl (v, f) ↦ elim (Bool-cases (is_null v)) [
        | inl m ↦ (ground arith, ground arith)
        | inr m ↦ (ground arith, ground arith)
      ]
    ]
  ]

  handle-IsPreviewed :
      (e : Event n js lower) (u : Use)
      → IsPreviewed (seen u) u.dialog
      → let u' = handle n js lower e u in IsPreviewed (seen u') u'.dialog
  unfolding handle plans_loaded on_open_change fill_from_plan on_custom_cpu on_custom_mem
      on_custom_disk on_disk_blur on_back
  handle-IsPreviewed (plans_arrive []) u v = v
  handle-IsPreviewed (plans_arrive (p ∷ ps)) u v =
      IsPreviewed-keeps (seen u) u.dialog (record u.dialog { plans = p ∷ ps }) refl refl v
  handle-IsPreviewed (polled ws) u v = IsPreviewed-later (seen u) ws u.dialog v
  handle-IsPreviewed (opens true) u v =
      at_size-IsPreviewed (λ spec d. on_open_change n spec true d)
        (λ ws spec d had x. not_yet refl refl) u v
  handle-IsPreviewed (opens false) u v =
      at_size-IsPreviewed _
        (λ ws spec d had. IsPreviewed-keeps ws d (on_open_change n spec false d) refl refl) u v
  handle-IsPreviewed (chooses name) u v =
      at_size-IsPreviewed _
        (λ ws spec d had.
          IsPreviewed-keeps ws d (fill_from_plan n spec name d) (ground arith) (ground arith))
        u v
  handle-IsPreviewed (edits_cpu x) u v =
      at_size-IsPreviewed _
        (λ ws spec d had. IsPreviewed-keeps ws d (on_custom_cpu n spec x d) refl refl) u v
  handle-IsPreviewed (edits_mem x) u v =
      at_size-IsPreviewed _
        (λ ws spec d had. IsPreviewed-keeps ws d (on_custom_mem n spec x d) refl refl) u v
  handle-IsPreviewed (edits_disk x) u v =
      at_size-IsPreviewed _
        (λ ws spec d had. IsPreviewed-keeps ws d (on_custom_disk n spec x d) refl refl) u v
  handle-IsPreviewed leaves_disk u v =
      at_size-IsPreviewed _
        (λ ws spec d had.
          IsPreviewed-keeps ws d (on_disk_blur n spec d) (ground arith) (ground arith))
        u v
  handle-IsPreviewed submits u v =
      at_size-IsPreviewed (λ spec d. on_preview_submit n spec d) submit-IsPreviewed u v
  handle-IsPreviewed goes_back u v =
      at_size-IsPreviewed _ (λ ws spec d had. IsPreviewed-keeps ws d (on_back n spec d) refl refl) u
        v
  handle-IsPreviewed (confirms w) u v =
      let (t, p) = confirm-keeps u.ws u.dialog w in
      IsPreviewed-keeps (seen u) u.dialog (on_confirm js lower u.ws u.dialog w).0.0 t p v

  handle_all-IsPreviewed :
      (es : List (Event n js lower)) (u : Use)
      → IsPreviewed (seen u) u.dialog
      → let u' = handle_all n js lower es u in IsPreviewed (seen u') u'.dialog
  unfolding handle_all
  handle_all-IsPreviewed [] u v = v
  handle_all-IsPreviewed (e ∷ es) u v =
      handle_all-IsPreviewed es (handle n js lower e u) (handle-IsPreviewed e u v)

  -- Whatever happens to the dialog from its first state on, a preview that it shows is the
  -- comparison of the target with a size that the workspace had, and the target never has a
  -- smaller disk than that.
  pub preview_is_of_target :
      (es : List (Event n js lower)) (ws : Workspace)
      → let u = handle_all n js lower es (first_use ws) in IsPreviewed (seen u) u.dialog
  preview_is_of_target es ws = handle_all-IsPreviewed es (first_use ws) (not_yet refl refl)

-- The target is one that a preview allowed: against a size that the workspace had.
abbrev pub IsAllowed : List Workspace → PlanItem → Type 0
IsAllowed ws t =
    (spec : PlanItem) × HadSize ws spec
    × (resize_preview_valid (classify_resize_preview spec t).kind ≡ true)
    × (spec.disk_bytes ≤ t.disk_bytes)

may_confirm-cases :
    (n : Numbers) (js : Json) (lower : String → String) (ws : Workspace) (d : Dialog)
    → (had : List Workspace) → IsPreviewed n js lower had d
    → (may_confirm js lower ws d ≡ none)
      ⊎ ((t : PlanItem) × (may_confirm js lower ws d ≡ some t)
          × (d.target ≡ some t)
          × IsAllowed had t)
unfolding may_confirm
may_confirm-cases n js lower ws d had (not_yet a b) = elim (Option-cases (workspace_spec ws)) [
  | inl e ↦ inl (ground arith)
  | inr (spec, e) ↦ inl (ground arith)
]
may_confirm-cases n js lower ws d had (of_target spec t h a b c) =
    elim (Option-cases (workspace_spec ws)) [
      | inl e ↦ inl (ground arith)
      | inr (now, e) ↦
          elim (Bool-cases (resize_preview_valid (classify_resize_preview spec t).kind)) [
            | inr f ↦ inl (ground arith)
            | inl f ↦ inr (t, ground arith, a, (spec, h, f, c))
          ]
    ]

-- A confirmation after any use of the dialog, in which the workspace may be loaded anew and earlier
-- confirmations may have been made, either asks the server for nothing, and leaves the dialog as it
-- is, or sends the target of the last preview: that differs in one direction only from a size that
-- the workspace had during the use, and its disk is not smaller than that size's. An answer closes
-- the dialog; where the request fails the dialog stays as open as it was and tells the error.
pub confirm_sends_previewed :
    (n : Numbers) (js : Json) (lower : String → String) (ws : Workspace)
    → (es : List (Event n js lower)) (w : World)
    → let u = handle_all n js lower es (first_use ws) in
      let ((d', told_page), w') = on_confirm js lower u.ws u.dialog w in
      (on_confirm js lower u.ws u.dialog w ≡ ((u.dialog, []), w))
      ⊎ ((t : PlanItem) × (u.dialog.target ≡ some t)
          × IsAllowed (seen u) t
          × (w' ≡ (resize_request js lower u.ws t w).1)
          × (((v : Value) × ((resize_request js lower u.ws t w).0 ≡ done v) × (d'.open_ ≡ false))
              ⊎ ((e : ApiError) × ((resize_request js lower u.ws t w).0 ≡ thrown e)
                  × (d'.open_ ≡ u.dialog.open_)
                  × (d'.err ≡ told lower e))))
unfolding on_confirm
confirm_sends_previewed n js lower ws es w =
    let u = handle_all n js lower es (first_use ws) in
    elim (may_confirm-cases n js lower u.ws u.dialog (seen u)
      (preview_is_of_target n js lower es ws)) [
        | inl e ↦ inl (ground (arith, e))
        | inr (t, m, a, b) ↦ elim (Result-cases (resize_request js lower u.ws t w).0) [
          | inl (v, e) ↦ inr (t, a, b, ground (arith, m, e), inl (v, e, ground (arith, m, e)))
          | inr (e, g) ↦ inr (
            t,
            a,
            b,
            ground (arith, m, g),
            inr (e, g, ground (arith, m, g), ground (arith, m, g)),
          )
        ]
      ]
