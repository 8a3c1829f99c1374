-- ===== src/Workspace/Create/Laws.antt =====
-- Laws of the form that opens a workspace.
use ha_cluster.Base.{
  Bool, Bool-cases, List, Option, String, Value, arith, false, inl, inr, true, truthy, ◌+◌, ◌∷◌,
  ◌≡◌, ◌⊎◌,
}
use ha_cluster.Session.World.{ApiError, Json, World, done, thrown}
use ha_cluster.Session.Handler.{Result-cases, told}
use ha_cluster.Format.{CapacityPreview}
use ha_cluster.Project.Purpose.{purpose_missing}
use ha_cluster.Workspace.Create.{
  Form, ProjectOption, blocked_message, capacity_blocked, create_workspace, effective_project_id,
  form_project, no_project_message, no_purpose_message, on_submit, purpose_of,
}

module _ (js : Json) (lower : String → String) where
  -- A submit asks the server exactly when a project is chosen, its purpose is filled in and no
  -- capacity is known to be missing. Refused, it changes nothing but the message, in the form and on
  -- the page. Granted, it closes the form, empties the name and reloads the list; failed, it leaves
  -- the form as open as it was, with the error.
  pub on_submit-cases :
      (projects : List ProjectOption) (capacity : Option CapacityPreview) (f : Form) (w : World)
      → let (f', w') = on_submit js lower projects capacity f w in
        let purpose = purpose_of (form_project projects f) in
        (((truthy (effective_project_id f) ≡ false)
            ⊎ (purpose_missing lower purpose ≡ true)
            ⊎ (capacity_blocked capacity ≡ true))
          × (w' ≡ w)
          × ((msg : String) × (more : Bool) × (f'
                ≡ record f { form_err = msg; page_errors = (msg, more) ∷ f.page_errors })))
        ⊎ ((truthy (effective_project_id f) ≡ true)
            × (purpose_missing lower purpose ≡ false)
            × (capacity_blocked capacity ≡ false)
            × (w' ≡ (create_workspace js lower f w).1)
            × (((v : Value) × ((create_workspace js lower f w).0 ≡ done v)
                  × (f'.open_ ≡ false)
                  × (f'.name ≡ "")
                  × (f'.created ≡ f.created + 1))
                ⊎ ((e : ApiError) × ((create_workspace js lower f w).0 ≡ thrown e)
                    × (f'.open_ ≡ f.open_)
                    × (f'.name ≡ f.name)
                    × (f'.created ≡ f.created)
                    × (f'.form_err ≡ told lower e))))
  unfolding on_submit
  on_submit-cases projects capacity f w = elim (Bool-cases (truthy (effective_project_id f))) [
    | inr a ↦ inl (inl a, ground arith, (no_project_message, false, ground arith))
    | inl a ↦ elim (Bool-cases (purpose_missing lower (purpose_of (form_project projects f)))) [
      | inl b ↦ inl (inr (inl b), ground arith, (no_purpose_message, false, ground arith))
      | inr b ↦ elim (Bool-cases (capacity_blocked capacity)) [
        | inl c ↦ inl (inr (inr c), ground arith, (blocked_message capacity, true, ground arith))
        | inr c ↦ elim (Result-cases (create_workspace js lower f w).0) [
          | inl (v, e) ↦
              inr (a, b, c, ground arith, inl (v, e, ground arith, ground arith, ground arith))
          | inr (e, g) ↦ inr (
            a,
            b,
            c,
            ground arith,
            inr (e, g, ground arith, ground arith, ground arith, ground arith),
          )
        ]
      ]
    ]
  ]
