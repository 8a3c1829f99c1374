-- ===== src/Cluster/Panel/Laws.antt =====
-- Laws of the Kubernetes panel.
use ha_cluster.Base.{
  Bool-cases, List, String, [], arith, inl, inr, keep, refl, size, true, ◌+◌, ◌∷◌, ◌≡◌, ◌≤◌,
}
use ha_cluster.Cluster.Types.{K8sEvent, K8sNamespaceStatus, K8sReplicaSet}
use ha_cluster.Cluster.Status.{event_is_stale}
use ha_cluster.Cluster.Panel.{healthy, history_events, is_warning, warning_events}

module _ (lower : String → String) where
  -- Every warning is shown once: with the current ones or with the stale ones.
  pub warnings_split :
      (sets : List K8sReplicaSet) (events : List K8sEvent)
      → size (warning_events lower sets events) + size (history_events lower sets events)
        ≡ size (keep is_warning events)
  unfolding warning_events history_events
  warnings_split sets [] = refl
  warnings_split sets (ev ∷ events) =
      let rest = warnings_split sets events in
      elim (Bool-cases (is_warning ev)) [
        | inr a ↦ rw a (omega (arith, rest))
        | inl a ↦ elim (Bool-cases (event_is_stale lower ev sets)) [
          | inl b ↦ rw (a, b) (omega (arith, rest))
          | inr b ↦ rw (a, b) (omega (arith, rest))
        ]
      ]

  -- A namespace that is called healthy has a deployment, all of them ready, no failed pod, and no
  -- warning but stale ones: all its warning events are among the history.
  pub healthy_means :
      (status : K8sNamespaceStatus)
      → healthy lower status ≡ true
      → (1 ≤ status.summary.deployments)
        × (status.summary.ready_deployments ≡ status.summary.deployments)
        × (status.summary.failed_pods ≡ 0)
        × (size (history_events lower status.replica_sets status.events)
            ≡ size (keep is_warning status.events))
  unfolding healthy
  healthy_means status h =
      let split = warnings_split status.replica_sets status.events in
      (ground arith, ground arith, ground arith, ground (arith, split))
