-- ===== src/Project/Page/Laws.antt =====
-- Laws of the list of projects.
use ha_cluster.Base.{
  Bool-cases, List, String, ap, arith, eq_iff, false, inl, inr, none, some, true, truthy, ◌+◌, ◌==◌,
  ◌≡◌, ◌⊎◌,
}
use ha_cluster.Session.World.{ApiError, Json, World, done, thrown}
use ha_cluster.Session.Handler.{Result-cases, told}
use ha_cluster.Session.Provider.{delete_one}
use ha_cluster.Store.{Store, read_current_project, write_current_project}
use ha_cluster.Project.Page.{Page, confirm_remove, forget_project}

empty_differs : (id : String) → truthy id ≡ true → ("" == id) ≡ false
empty_differs id h = elim (Bool-cases ("" == id)) [
  | inl e ↦ absurd (cc (ap truthy ((eq_iff "" id).0 e), h))
  | inr e ↦ e
]

-- A forgotten project is not the current one any more.
pub forget_project-read :
    (id : String) (s : Store)
    → truthy id ≡ true
    → (read_current_project (forget_project id s) == id) ≡ false
unfolding forget_project read_current_project write_current_project
forget_project-read id s h = elim (Bool-cases (read_current_project s == id)) [
  | inr e ↦ ground arith
  | inl e ↦ elim (Bool-cases s.available) [
    | inl a ↦ ground (arith, empty_differs id h)
    | inr a ↦ ground (arith, empty_differs id h)
  ]
]

module _ (js : Json) (encode : List (String × String) → String)
    (upper lower : String → String) where
  -- A confirmed removal of a project with an identifier closes the question and asks the server
  -- to delete that project. Once it is deleted, the browser's current project is another or
  -- none and the list is loaded again; where the request fails the current project stays,
  -- nothing is loaded, and the error is shown.
  pub confirm_remove-cases :
      (p : Page) (id : String) (w : World)
      → p.remove_target ≡ some id
      → truthy id ≡ true
      → let (p', w') = confirm_remove js encode upper lower p w in
        let r = delete_one js encode upper "projects" id w in
        (p'.remove_target ≡ none)
        × (w' ≡ r.1)
        × (((v : String) × (r.0 ≡ done v)
              × ((read_current_project p'.store == id) ≡ false)
              × (p'.refetches ≡ p.refetches + 1))
            ⊎ ((e : ApiError) × (r.0 ≡ thrown e)
                × (p'.store ≡ p.store)
                × (p'.refetches ≡ p.refetches)
                × (p'.list_err ≡ told lower e)))
  unfolding confirm_remove
  confirm_remove-cases p id w h t =
      elim (Result-cases (delete_one js encode upper "projects" id w).0) [
        | inl (v, e) ↦ (
          ground arith,
          ground arith,
          inl (v, e, ground (arith, forget_project-read id p.store t), ground arith),
        )
        | inr (e, g) ↦
            (ground arith, ground arith, inr (e, g, ground arith, ground arith, ground arith))
      ]
