-- ===== src/Ops/Approvals/Tests.antt =====
-- An approval that the network refuses.
use ha_cluster.Base.{String, [], null, some}
use ha_cluster.Ops.Approvals.{Approvals, approving}

abbrev asked : Approvals
asked = record {
  rows = [];
  err = "";
  confirm = some (null, approving);
  reject_reason = "";
  toasts = [];
}

abbrev no_case : String → String
no_case s = s
