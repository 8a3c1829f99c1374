-- ===== src/Workspace/Ingress/Laws.antt =====
-- Laws of publishing a domain.
use ha_cluster.Base.{
  Bool, Bool-cases, Option-cases, String, Value, arith, false, inl, inr, refl, true, ◌++◌, ◌∷◌, ◌≡◌,
  ◌⊎◌,
}
use ha_cluster.Session.World.{ApiError, Json, World, done, thrown}
use ha_cluster.Session.Handler.{Result-cases, success, told}
use ha_cluster.Session.Fetch.{api, get_init}
use ha_cluster.Workspace.Ingress.{
  Machine, asks_second, closed_form, granted_message, ingress_request, lacks_purpose, load_ingress,
  purpose_message, reset_ingress_form, submit_failed, submit_ingress,
}

module _ (js : Json) (lower : String → String) (number : String → Value) (id : String) where
  abbrev Cleared : Machine → Type 0
  Cleared s = (s.domain ≡ "") × (s.prefix ≡ "") × (s.ingress_open ≡ false)

  load_ingress-Cleared :
      (s : Machine) (w : World) → Cleared s → Cleared (load_ingress js lower number id s w).0
  unfolding load_ingress
  load_ingress-Cleared s w (a, b, c) =
      elim (Result-cases (api js ("/workspaces/" ++ (id ++ "/ingress")) get_init w).0) [
        | inl (v, e) ↦ (ground arith, ground arith, ground arith)
        | inr (e, f) ↦ (ground arith, ground arith, ground arith)
      ]

  closed_form-Cleared : (s : Machine) → Cleared (closed_form js lower number id s)
  unfolding reset_ingress_form
  closed_form-Cleared s = (refl, refl, refl)

  -- A submit without a project's purpose sends nothing and says so. A refused request keeps the
  -- typed domain and prefix and leaves the dialog as open as it was: where the server wants the
  -- second port confirmed, the question is opened without an error, else the error is shown. A
  -- granted one clears the domain and the prefix and closes the dialog.
  pub submit_ingress-cases :
      (confirm : Bool) (s : Machine) (w : World)
      → let (s', w') = submit_ingress js lower number id confirm s w in
        let r = ingress_request js lower number id confirm s w in
        ((lacks_purpose lower s ≡ true) × (s' ≡ record s { form_err = purpose_message }) × (w' ≡ w))
        ⊎ ((lacks_purpose lower s ≡ false)
            × (((e : ApiError) × (r.0 ≡ thrown e)
                  × (w' ≡ r.1)
                  × (s'.domain ≡ s.domain)
                  × (s'.prefix ≡ s.prefix)
                  × (s'.ingress_open ≡ s.ingress_open)
                  × (((asks_second js lower number id e ≡ true)
                        × (s'.second_open ≡ true)
                        × (s'.form_err ≡ ""))
                      ⊎ ((asks_second js lower number id e ≡ false)
                          × (s'.second_open ≡ s.second_open)
                          × (s'.form_err ≡ told lower e))))
                ⊎ ((v : Value) × (r.0 ≡ done v)
                    × (s'.domain ≡ "")
                    × (s'.prefix ≡ "")
                    × (s'.ingress_open ≡ false))))
  unfolding submit_ingress submit_failed
  submit_ingress-cases confirm s w = elim (Bool-cases (lacks_purpose lower s)) [
    | inl p ↦ inl (p, ground arith, ground arith)
    | inr p ↦ elim (Result-cases (ingress_request js lower number id confirm s w).0) [
      | inr (e, f) ↦ elim (Bool-cases (asks_second js lower number id e)) [
        | inl q ↦ inr (
          p,
          inl (
            e,
            f,
            ground arith,
            ground arith,
            ground arith,
            ground arith,
            inl (q, ground arith, ground arith),
          ),
        )
        | inr q ↦ inr (
          p,
          inl (
            e,
            f,
            ground arith,
            ground arith,
            ground arith,
            ground arith,
            inr (q, ground arith, ground arith),
          ),
        )
      ]
      | inl (v, f) ↦
          let k = closed_form-Cleared s in
          elim (Option-cases (granted_message js lower number id s v)) [
            | inl g ↦
                inr
                  (p, inr (v, f, ground (arith, f, k), ground (arith, f, k), ground (arith, f, k)))
            | inr (msg, g) ↦
                let t : Machine = record (closed_form js lower number id s) {
                  toasts = success msg ∷ (closed_form js lower number id s).toasts;
                } in
                let (a, b, c) =
                  load_ingress-Cleared t (ingress_request js lower number id confirm s w).1 k in
                inr
                  (p, inr (v, f, ground (arith, f, a), ground (arith, f, b), ground (arith, f, c)))
          ]
    ]
  ]
