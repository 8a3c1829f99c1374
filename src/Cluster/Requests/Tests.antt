-- ===== src/Cluster/Requests/Tests.antt =====
-- A load of the status whose request fails.
use ha_cluster.Base.{String, [], false, null, refl, str, ◌≡◌}
use ha_cluster.Cluster.Requests.Laws.{ListAfter, StatusAfter, load_status-cases}
use ha_cluster.Cluster.Requests.{Requests, load_status, status_of}
use ha_cluster.Workspace.Sample.{js, session}
use ha_cluster.Session.Handler.{one_field}

abbrev same : String → String
same s = s

abbrev panel : Requests
panel = record {
  yaml = "kind: Pod";
  status = λ key. null;
  status_ready = false;
  list_err = "";
  toasts = [];
  downloads = [];
}

abbrev failed_load : Requests
failed_load = (load_status js same same "w1" "box" "ns-1" panel session).0

load_status-cases_example :
    StatusAfter js same same "w1" "box" "ns-1" panel session failed_load
    × ListAfter js same same "w1" "box" "ns-1" session failed_load.status "events"
load_status-cases_example =
    load_status-cases js same same "w1" "box" "ns-1" panel session "events" refl

-- An empty namespace in the reply stands, whatever the workspace's own is.
empty_namespace : status_of "ns-1" (one_field "namespace" (str "")) "namespace" ≡ str ""
unfolding status_of
empty_namespace = refl
