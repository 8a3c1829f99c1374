-- ===== src/Cluster/Panel/Tests.antt =====
-- A namespace with one deployment that is ready, and a warning about a pod that is over.
use ha_cluster.Cluster.Panel.{healthy}
use ha_cluster.Base.{String, [], none, refl, some, true, ◌∷◌, ◌≡◌}
use ha_cluster.Cluster.Types.{K8sEvent, K8sNamespaceStatus}
use ha_cluster.Cluster.Status.{empty_k8s_status, event_is_stale}

abbrev over : K8sEvent
over = record {
  event_type = "Warning";
  reason = "BackOff";
  message = "restarting";
  object_kind = some "Pod";
  object_name = some "web-1";
  count = none;
  last_seen = none;
  stale = some true;
}

abbrev namespace : K8sNamespaceStatus
namespace = record (empty_k8s_status "shop") {
  summary = record {
    deployments = 1;
    ready_deployments = 1;
    replica_sets = 1;
    pods = 1;
    running_pods = 1;
    pending_pods = 0;
    failed_pods = 0;
    warnings = 0;
  };
  warnings = [];
  events = over ∷ [];
  replica_sets = [];
}

abbrev no_case : String → String
no_case s = s

namespace_healthy : healthy no_case namespace ≡ true
unfolding healthy event_is_stale
namespace_healthy = refl
