-- ===== src/Directory/Members/Laws.antt =====
-- Laws of the members of a project.
use ha_cluster.Base.{
  Bool-cases, Option-cases, String, Value, [], arith, false, get, inl, inr, is_null, none, refl,
  some, to_bool, true, truthy, ◌++◌, ◌==◌, ◌≡◌, ◌⊎◌,
}
use ha_cluster.Directory.Members.{
  Members, change_then_load, confirm_remove, load, loaded, members_path, members_request, names_in,
  owner_message, remove, rows_of,
}
use ha_cluster.Session.World.{ApiError, Json, Result, World, done, thrown}
use ha_cluster.Session.Fetch.{api, get_init}
use ha_cluster.Session.Auth.{type_error}
use ha_cluster.Session.Handler.{Result-cases, told, without_body}

module _ (js : Json) (lower : String → String) (project_id : String) where
  -- The reply to `/users` cannot be gone through.
  pub HasBadNames : Result Value → Type 0
  HasBadNames users =
      (u : Value) × (users ≡ done u)
      × (to_bool (get u "data") ≡ true)
      × (names_in (get u "data") ≡ none)

  loaded_rows :
      (v : Value) (users : Result Value) (p : Members)
      → is_null v ≡ false
      → let p' = loaded js lower project_id (done v) users p in
        ((p'.rows ≡ rows_of (get v "data")) × (p'.err ≡ p.err))
        ⊎ (HasBadNames users × (p'.rows ≡ []) × (p'.err ≡ told lower type_error))
  unfolding loaded HasBadNames
  loaded_rows v (thrown e) p n = inl (ground arith, ground arith)
  loaded_rows v (done u) p n = elim (Bool-cases (to_bool (get u "data"))) [
    | inr f ↦ inl (ground arith, ground arith)
    | inl t ↦ elim (Option-cases (names_in (get u "data"))) [
      | inl e ↦ inr ((u, refl, t, e), ground arith, ground arith)
      | inr (names, e) ↦ inl (ground arith, ground arith)
    ]
  ]

  -- After a load of the members of a project, the rows are those of this answer, or there are none
  -- and an error is shown: never the rows of an earlier load. A request for the names that fails
  -- hides no members; an answer to it that cannot be gone through does.
  pub load-cases :
      (p : Members) (w : World)
      → truthy project_id ≡ true
      → let p' = (load js lower project_id p w).0 in
        let first = members_request js lower project_id w in
        ((v : Value) × (first.0 ≡ done v)
          × (is_null v ≡ false)
          × (p'.rows ≡ rows_of (get v "data"))
          × (p'.err ≡ ""))
        ⊎ ((e : ApiError) × ((first.0 ≡ thrown e)
              ⊎ ((v : Value) × (first.0 ≡ done v)
                  × ((is_null v ≡ true) ⊎ HasBadNames (api js "/users" get_init first.1).0)
                  × (e ≡ type_error)))
            × (p'.rows ≡ [])
            × (p'.err ≡ told lower e))
  unfolding load loaded
  load-cases p w h =
      let first = members_request js lower project_id w in
      let users = (api js "/users" get_init first.1).0 in
      let cleared = record p { err = "" } in
      elim (Result-cases (members_request js lower project_id w).0) [
        | inr (e, f) ↦ inr (e, inl f, ground arith, ground arith)
        | inl (v, f) ↦ elim (Bool-cases (is_null v)) [
          | inl n ↦ inr (type_error, inr (v, f, inl n, refl), ground arith, ground arith)
          | inr n ↦ elim (loaded_rows v users cleared n) [
            | inl (k, q) ↦ inl (v, f, n, ground (arith, f, k), ground (arith, f, q))
            | inr (bad, k, q) ↦
                inr (
                  type_error,
                  inr (v, f, inr bad, refl),
                  ground (arith, f, k),
                  ground (arith, f, q),
                )
          ]
        ]
      ]

  -- The removal of a member with an identifier, asked for while no other removal is and confirmed,
  -- asks the server to delete that member, and then loads the members again or shows the error,
  -- unless the member is the owner: then nothing is sent and the refusal is shown.
  pub remove_then_confirm :
      (user_id role : String) (p : Members) (w : World)
      → p.remove_id ≡ none
      → truthy user_id ≡ true
      → let asked = remove user_id role p in
        let (p', w') = confirm_remove js lower project_id asked w in
        let r =
          api js
            (members_path js lower project_id ("/members/" ++ user_id))
            (without_body "DELETE")
            w in
        ((role == "owner") ≡ true × (w' ≡ w) × (p'.err ≡ owner_message))
        ⊎ (((role == "owner") ≡ false)
            × (asked.remove_id ≡ some user_id)
            × (((e : ApiError) × (r.0 ≡ thrown e)
                  × (w' ≡ r.1)
                  × (p'.remove_id ≡ none)
                  × (p'.err ≡ told lower e))
                ⊎ ((v : Value) × (r.0 ≡ done v)
                    × ((p', w')
                        ≡ load js lower project_id
                            (record asked { remove_id = none; err = "" })
                            r.1))))
  unfolding confirm_remove remove change_then_load
  remove_then_confirm user_id role p w h t = elim (Bool-cases (role == "owner")) [
    | inl o ↦ inl (o, ground arith, ground arith)
    | inr o ↦
        let path = members_path js lower project_id ("/members/" ++ user_id) in
        elim (Result-cases (api js path (without_body "DELETE") w).0) [
          | inl (v, e) ↦ inr (o, ground arith, inr (v, e, ground (arith, e)))
          | inr (e, g) ↦ inr (o, ground arith, inl (e, g, ground arith, ground arith, ground arith))
        ]
  ]
