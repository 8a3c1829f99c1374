-- ===== src/Ops/Approvals/Laws.antt =====
-- Laws of the last approval.
use ha_cluster.Session.World.{World}
use ha_cluster.Ops.Approvals.{Approvals}
