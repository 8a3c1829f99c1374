-- ===== src/Node/Fleet/Tests.antt =====
-- Three nodes, one of each health.
use ha_cluster.Node.Fleet.Laws.{InHealthOrder, sort_nodes_lem}
use ha_cluster.Base.{Bool, List, Option, Sorted, String, [], false, none, some, true, ◌∷◌}
use mathlib.Core.List.{Permᴰ}
use ha_cluster.Node.Fleet.{FleetNode, sort_nodes}

abbrev node : String → Bool → Option String → FleetNode
node name ready health = record {
  name = name;
  ready = ready;
  health_status = health;
  fabric_path = none;
  sizes = record {
    mem_total_bytes = none;
    mem_available_bytes = none;
    used_mem_bytes = none;
    allocatable_mem_bytes = none;
    disk_total_bytes = none;
    disk_free_bytes = none;
    used_disk_bytes = none;
    allocatable_disk_bytes = none;
  };
}

abbrev lost : FleetNode
lost = node "a" false none

abbrev three_nodes : List FleetNode
three_nodes = lost ∷ node "b" true (some "degraded") ∷ node "c" true (some "online") ∷ []

abbrev any_order : String → String → Bool
any_order s t = true

sort_nodes_lem_example :
    Permᴰ (sort_nodes any_order three_nodes) three_nodes
    × Sorted InHealthOrder (sort_nodes any_order three_nodes)
sort_nodes_lem_example = sort_nodes_lem any_order three_nodes
