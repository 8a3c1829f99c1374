-- ===== src/Node/Laws.antt =====
-- What the meters show.
use ha_cluster.Base.{arith, is_some, number_of, true, ℕ, ◌*◌, ◌+◌, ◌<◌, ◌↔◌, ◌≡◌, ◌≤◌}
use ha_cluster.Node.{
  NodeResourceFields, ResourceMeter, host, host_mem_meter, is_host_pressure, ledger,
}

-- The memory meter shows the host exactly when the host reports a total above 0 and an available
-- amount; then used and free add up to the total, if free does not exceed it. Otherwise it shows the
-- ledger's amounts. The ledger's amounts are carried along in both cases.
pub host_mem_meter-cases :
    (n : NodeResourceFields)
    → let m = host_mem_meter n in
      ((m.source ≡ host)
        ↔ ((0 < number_of n.mem_total_bytes) × (is_some n.mem_available_bytes ≡ true)))
      × (m.source ≡ host → m.free ≤ m.total → m.used + m.free ≡ m.total)
      × (m.source ≡ ledger → (m.used ≡ m.ledger_used) × (m.total ≡ m.ledger_total))
      × (m.ledger_used ≡ number_of n.used_mem_bytes)
      × (m.ledger_total ≡ number_of n.allocatable_mem_bytes)
unfolding host_mem_meter
host_mem_meter-cases n = ground arith

-- Pressure is raised only by what the host reports, and only when under a tenth of the total is free;
-- less free space never lifts it.
pub host_pressure_mono :
    (m : ResourceMeter) (free : ℕ)
    → free ≤ m.free
    → is_host_pressure m ≡ true
    → (m.source ≡ host)
      × (m.free * 10 < m.total)
      × (is_host_pressure (record m { free = free }) ≡ true)
unfolding is_host_pressure
host_pressure_mono m free h p = ground arith
