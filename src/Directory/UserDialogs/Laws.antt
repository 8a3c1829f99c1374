-- ===== src/Directory/UserDialogs/Laws.antt =====
-- Laws of the dialogs on one user.
use ha_cluster.Base.{String, Value, arith, false, inl, inr, some, suc, ◌∷◌, ◌≡◌, ◌⊎◌}
use ha_cluster.Session.World.{ApiError, Json, World, done, thrown}
use ha_cluster.Session.Handler.{Result-cases, failure, success, told}
use ha_cluster.Directory.UserDialogs.{
  Configure, PlatformUser, Question, confirm_status, status_message, status_request, toggle_status,
}

module _ (js : Json) (lower : String → String) where
  -- The two places that suspend or restore a user, the configuration and the question, send the same
  -- request, and tell the same message and ask for one reload when it succeeds; a failure asks for
  -- none.
  pub status_agrees :
      (u : PlatformUser) (c : Configure) (q : Question) (w : World)
      → let (c', w1) = toggle_status js lower (some u) c w in
        let (q', w2) = confirm_status js lower (some u) q w in
        let r = (status_request js lower u w).0 in
        (w1 ≡ w2)
        × (((v : Value) × (r ≡ done v)
              × (c'.toasts ≡ success (status_message js lower u) ∷ c.toasts)
              × (q'.toasts ≡ success (status_message js lower u) ∷ q.toasts)
              × (c'.changes ≡ suc c.changes)
              × (q'.changes ≡ suc q.changes)
              × (q'.open_ ≡ false))
            ⊎ ((e : ApiError) × (r ≡ thrown e)
                × (c'.err ≡ told lower e)
                × (q'.toasts ≡ failure (told lower e) ∷ q.toasts)
                × (c'.changes ≡ c.changes)
                × (q'.changes ≡ q.changes)
                × (q'.open_ ≡ q.open_)))
  unfolding toggle_status confirm_status
  status_agrees u c q w = elim (Result-cases (status_request js lower u w).0) [
    | inl (v, e) ↦ (
      ground arith,
      inl (v, e, ground arith, ground arith, ground arith, ground arith, ground arith),
    )
    | inr (e, f) ↦ (
      ground arith,
      inr (e, f, ground arith, ground arith, ground arith, ground arith, ground arith),
    )
  ]
