-- ===== src/Workspace/ListPage/Laws.antt =====
-- Laws of the page of all workspaces.
use ha_cluster.Base.{
  Bool, Bool-cases, Value, arith, inl, inr, ltb, ltb→lt, refl, some, ℕ, ◌+◌, ◌<◌, ◌≡◌, ◌≤◌, ◌⊎◌,
}
use ha_cluster.Workspace.Poll.{workspace_list_query_poll_interval}
use ha_cluster.Workspace.ListPage.{ListPage, after_mutation, refetch_interval}

-- For 90 seconds after a change the list is fetched every 3 seconds, whatever it holds; from then on
-- exactly as its rows ask for.
pub refetch_interval-kicked :
    (start now : ℕ) (has_loader : Bool) (answer : Value) (p : ListPage)
    → let q = after_mutation start has_loader p in
      ((now < start + 90000) × (refetch_interval now answer q ≡ some 3000))
      ⊎ ((start + 90000 ≤ now)
          × (refetch_interval now answer q ≡ workspace_list_query_poll_interval answer))
unfolding refetch_interval after_mutation
refetch_interval-kicked start now has_loader answer p =
    elim (Bool-cases (ltb now (start + 90000))) [
      | inl e ↦ inl (ltb→lt now _ e, rw e refl)
      | inr e ↦ inr (ground arith, rw e refl)
    ]
