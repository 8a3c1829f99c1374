-- ===== src/Cluster/Panel.antt =====
-- What the Kubernetes panel of a workspace shows: web/src/pages/workspaces/K8sPanel.tsx. Its requests
-- stand in the module Requests.
pub mod Laws
pub mod Tests
use ha_cluster.Base.{
  Bool, List, Option, String, eqb, if◌then◌else◌, keep, ltb, map, not, size, ◌&&◌, ◌==◌, ◌is◌, ◌||◌,
}
use ha_cluster.Workspace.{can_approve_role}
use ha_cluster.Cluster.Types.{K8sEvent, K8sNamespaceStatus, K8sReplicaSet}
use ha_cluster.Cluster.Status.{event_is_stale}

unfoldable pub can_apply : Bool → Option String → Option String → Bool
unfolding can_approve_role
can_apply ops_locked my_role platform_role =
    not ops_locked
    && (can_approve_role my_role platform_role
        || my_role is "developer"
        || my_role is "owner"
        || my_role is "admin")

abbrev pub is_warning : K8sEvent → Bool
is_warning ev = ev.event_type == "Warning"

module _ (lower : String → String) where
  unfoldable pub warning_events : List K8sReplicaSet → List K8sEvent → List K8sEvent
  warning_events sets events =
      keep (λ ev. is_warning ev && not (event_is_stale lower ev sets)) events

  unfoldable pub history_events : List K8sReplicaSet → List K8sEvent → List K8sEvent
  history_events sets events = keep (λ ev. is_warning ev && event_is_stale lower ev sets) events

  -- The server's history, or else the stale warnings.
  unfoldable pub history_notes : K8sNamespaceStatus → List String
  unfolding history_events
  history_notes status =
      if ltb 0 (size status.history)
      then status.history
      else map (λ ev. ev.message) (history_events status.replica_sets status.events)

  unfoldable pub healthy : K8sNamespaceStatus → Bool
  unfolding warning_events
  healthy status =
      ltb 0 status.summary.deployments
      && eqb status.summary.ready_deployments status.summary.deployments
      && eqb status.summary.failed_pods 0
      && eqb (size status.warnings) 0
      && eqb (size (warning_events status.replica_sets status.events)) 0
