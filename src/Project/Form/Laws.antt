-- ===== src/Project/Form/Laws.antt =====
-- Laws of the project dialog.
use ha_cluster.Base.{
  Bool-cases, List, String, [], arith, eq_refl, false, inl, inr, none, refl, some, true, truthy,
  ◌==◌, ◌∷◌, ◌≡◌, ◌⊎◌,
}
use ha_cluster.Project.Name.{is_valid_project_name}
use ha_cluster.Project.Slug.{is_valid_slug, suggest_slug_from_name}
use ha_cluster.Project.Purpose.{is_valid_purpose}
use ha_cluster.Project.Form.{
  Draft, Submission, bad_name, bad_purpose, bad_slug, handle_submit, no_name, normalized,
  on_name_change, refusal,
}

module _ (lower : String → String) where
  -- What a project must be like for the dialog to hand it over.
  pub record IsAcceptable (s : Submission) : Type 0 where
    pub has_name : truthy s.name ≡ true
    pub name_valid : is_valid_project_name s.name ≡ true
    pub slug_valid : is_valid_slug s.slug ≡ true
    pub purpose_valid : is_valid_purpose lower s.purpose s.name s.slug ≡ true

  refusal-cases :
      (s : Submission)
      → (IsAcceptable s × (refusal lower s ≡ none))
        ⊎ ((¬ IsAcceptable s)
            × ((msg : String) × (refusal lower s ≡ some msg) × (truthy msg ≡ true)))
  unfolding refusal
  refusal-cases s = elim (Bool-cases (truthy s.name)) [
    | inr a ↦ inr ((λ h. cc (h.has_name, a)), (no_name, rw a refl, refl))
    | inl a ↦ elim (Bool-cases (is_valid_project_name s.name)) [
      | inr b ↦ inr ((λ h. cc (h.name_valid, b)), (bad_name, rw (a, b) refl, refl))
      | inl b ↦ elim (Bool-cases (is_valid_slug s.slug)) [
        | inr c ↦ inr ((λ h. cc (h.slug_valid, c)), (bad_slug, rw (a, b, c) refl, refl))
        | inl c ↦ elim (Bool-cases (is_valid_purpose lower s.purpose s.name s.slug)) [
          | inr d ↦ inr ((λ h. cc (h.purpose_valid, d)), (bad_purpose, rw (a, b, c, d) refl, refl))
          | inl d ↦ inl (
            record { has_name = a; name_valid = b; slug_valid = c; purpose_valid = d },
            rw (a, b, c, d) refl,
          )
        ]
      ]
    ]
  ]

  -- A submit hands over a project exactly if the normalised fields are acceptable, and then those
  -- very fields, without an error. Otherwise an error stands in the dialog; the typed texts stay.
  pub handle_submit-cases :
      (f : Draft)
      → let (f', out) = handle_submit lower f in
        (f'.name ≡ f.name)
        × (f'.slug ≡ f.slug)
        × (f'.purpose ≡ f.purpose)
        × ((IsAcceptable (normalized lower f)
              × (out ≡ some (normalized lower f))
              × (f'.local_err ≡ ""))
            ⊎ ((¬ IsAcceptable (normalized lower f)) × (out ≡ none) × (truthy f'.local_err ≡ true)))
  unfolding handle_submit
  handle_submit-cases f = elim (refusal-cases (normalized lower f)) [
    | inl (a, e) ↦ (ground arith, ground arith, ground arith, inl (a, ground arith, ground arith))
    | inr (n, (m, e, t)) ↦
        (ground arith, ground arith, ground arith, inr (n, ground arith, ground arith))
  ]

  unfoldable pub type_names : List String → Draft → Draft
  type_names [] f = f
  type_names (v ∷ vs) f = type_names vs (on_name_change lower v f)

  abbrev pub Follows : Draft → Type 0
  Follows f = (truthy f.slug ≡ false) ⊎ (f.slug ≡ suggest_slug_from_name lower f.name)

  on_name_change-Follows : (v : String) (f : Draft) → Follows f → Follows (on_name_change lower v f)
  unfolding on_name_change
  on_name_change-Follows v f (inl e) = inr (ground arith)
  on_name_change-Follows v f (inr e) =
      let h : (f.slug == suggest_slug_from_name lower f.name) ≡ true = rw e (eq_refl _) in
      inr (ground (arith, h))

  -- While the slug is empty or the suggestion for the name, any typing in the name field keeps it
  -- so.
  pub type_names-Follows : (vs : List String) (f : Draft) → Follows f → Follows (type_names vs f)
  unfolding type_names
  type_names-Follows [] f h = h
  type_names-Follows (v ∷ vs) f h =
      type_names-Follows vs (on_name_change lower v f) (on_name_change-Follows v f h)
