-- ===== src/Node/Fleet/Laws.antt =====
-- Laws of the page of the nodes.
use ha_cluster.Base.{
  Bool, List, Sorted, String, arith, false, not, sort_by-Perm, sort_by-Sorted, true, ◌&&◌, ◌is◌,
  ◌||◌, ◌↔◌, ◌≡◌, ◌≤◌,
}
use mathlib.Core.List.{Permᴰ}
use ha_cluster.Node.Fleet.{
  FleetNode, danger, health_variant, is_degraded, is_offline, node_rank, node_status_dot,
  not_behind, rose, sort_nodes,
}

-- A node is lost if it is offline or not ready, and up if it is ready and neither offline nor degraded.
abbrev pub is_lost : FleetNode → Bool
is_lost n = n.health_status is "offline" || not n.ready

abbrev pub is_up : FleetNode → Bool
is_up n = n.ready && not (n.health_status is "offline") && not (n.health_status is "degraded")

-- The first node may stand before the second: nothing stands before a node that is up but another that
-- is, and nothing but a lost node stands behind a lost one.
abbrev pub InHealthOrder : FleetNode → FleetNode → Type 0
InHealthOrder a b = ((not (is_up b) || is_up a) ≡ true) × ((not (is_lost a) || is_lost b) ≡ true)

rank-InHealthOrder : (a b : FleetNode) → node_rank a ≤ node_rank b → InHealthOrder a b
unfolding node_rank
rank-InHealthOrder a b h = (ground arith, ground arith)

or_trans : (p q r : Bool) → (not q || p) ≡ true → (not r || q) ≡ true → (not r || p) ≡ true
or_trans p q r h k = ground arith

InHealthOrder-trans :
    (a b c : FleetNode) → InHealthOrder a b → InHealthOrder b c → InHealthOrder a c
InHealthOrder-trans a b c (u, l) (v, m) =
    (or_trans (is_up a) (is_up b) (is_up c) u v, or_trans (is_lost c) (is_lost b) (is_lost a) m l)

module _ (by_name : String → String → Bool) where
  not_behind-rank : (a b : FleetNode) → not_behind by_name a b ≡ true → InHealthOrder a b
  unfolding not_behind
  not_behind-rank a b e = rank-InHealthOrder a b (ground (arith, e))

  behind-rank : (a b : FleetNode) → not_behind by_name a b ≡ false → InHealthOrder b a
  unfolding not_behind
  behind-rank a b e = rank-InHealthOrder b a (ground (arith, e))

  -- The rows of the page are the nodes that the server listed, each as often as there; the nodes
  -- that are up come first, then the degraded ones that are ready, then those that are
  -- offline or not ready, whatever order the platform gives the names.
  pub sort_nodes_lem :
      (ns : List FleetNode)
      → Permᴰ (sort_nodes by_name ns) ns × Sorted InHealthOrder (sort_nodes by_name ns)
  unfolding sort_nodes
  sort_nodes_lem ns = (
    sort_by-Perm (not_behind by_name) ns,
    sort_by-Sorted (not_behind by_name) InHealthOrder InHealthOrder-trans not_behind-rank
        behind-rank ns,
  )

-- The rank, the row's colour and the dot agree on which nodes are lost: rank 2 is the red row and the
-- red dot. Every node is counted as ready, degraded or offline.
pub health_agrees :
    (n : FleetNode)
    → ((node_rank n ≡ 2) ↔ (health_variant n ≡ danger))
      × ((node_rank n ≡ 2) ↔ (node_status_dot n ≡ rose))
      × ((n.ready || is_degraded n || is_offline n) ≡ true)
unfolding node_rank health_variant node_status_dot
health_agrees n = (ground arith, ground arith, ground arith)
