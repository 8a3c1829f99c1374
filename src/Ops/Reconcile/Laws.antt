-- ===== src/Ops/Reconcile/Laws.antt =====
-- Laws of the button that reconciles.
use ha_cluster.Base.{List, String, Value, inl, inr, refl, ℕ, ◌+◌, ◌≡◌, ◌⊎◌}
use ha_cluster.Session.World.{ApiError, Json, World}
use ha_cluster.Session.Handler.{Result-cases, failure, success, told}
use ha_cluster.Ops.Reconcile.{
  audit_message, audit_reconcile, nodes_message, nodes_reconcile, request,
}

module _ (js : Json) (encode : List (String × String) → String)
    (upper lower : String → String) where
  -- Both pages leave the same world, and both tell a success or both the same error; the list of
  -- nodes is loaded again exactly after a success.
  pub reconcile-agree :
      (refetches : ℕ) (w : World)
      → let (told_by_audit, w') = audit_reconcile js encode upper lower w in
        let (told_by_nodes, loads, w'') = nodes_reconcile js encode upper lower refetches w in
        (w' ≡ w'')
        × (((out : Value) × (told_by_audit ≡ success (audit_message out))
              × (told_by_nodes ≡ success (nodes_message out))
              × (loads ≡ refetches + 1))
            ⊎ ((e : ApiError) × (told_by_audit ≡ failure (told lower e))
                × (told_by_nodes ≡ failure (told lower e))
                × (loads ≡ refetches)))
  unfolding audit_reconcile nodes_reconcile
  reconcile-agree refetches w = elim (Result-cases (request js encode upper lower w).0) [
    | inl (out, h) ↦ rw h (refl, inl (out, refl, refl, refl))
    | inr (e, h) ↦ rw h (refl, inr (e, refl, refl, refl))
  ]
