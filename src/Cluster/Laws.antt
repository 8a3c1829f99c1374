-- ===== src/Cluster/Laws.antt =====
-- Which events count, and which release is current.
use ha_cluster.Base.{
  Bool-cases, List, Option-cases, String, arith, false, find, inl, inr, some, text_of, true, truthy,
  ◌==◌, ◌is◌, ◌↔◌, ◌≡◌, ◌⊎◌,
}
use ha_cluster.Cluster.Types.{K8sEvent, K8sReplicaSet}
use ha_cluster.Cluster.Status.{event_is_stale, is_true, replica_set_active}

-- What an event is about keeps it current: something other than a replica set, or a listed replica
-- set that is active.
abbrev pub IsCurrentObject : (String → String) → K8sEvent → List K8sReplicaSet → Type 0
IsCurrentObject lower ev sets =
    ((lower (text_of ev.object_kind) == "replicaset") ≡ false)
    ⊎ ((rs : K8sReplicaSet) × (find (λ item. ev.object_name is item.name) sets ≡ some rs)
        × (replica_set_active rs ≡ true))

abbrev pub IsWarning : K8sEvent → Type 0
IsWarning ev = (truthy ev.event_type ≡ false) ⊎ (ev.event_type == "Warning" ≡ true)

event_current→object :
    (lower : String → String) (ev : K8sEvent) (sets : List K8sReplicaSet)
    → event_is_stale lower ev sets ≡ false
    → IsCurrentObject lower ev sets
unfolding event_is_stale
event_current→object lower ev sets h =
    elim (Bool-cases (lower (text_of ev.object_kind) == "replicaset")) [
      | inr e ↦ inl e
      | inl e ↦ elim (Option-cases (find (λ item. ev.object_name is item.name) sets)) [
        | inl gone ↦ absurd (ground arith)
        | inr (rs, found) ↦ inr (rs, found, ground arith)
      ]
    ]

event_current→warning :
    (lower : String → String) (ev : K8sEvent) (sets : List K8sReplicaSet)
    → event_is_stale lower ev sets ≡ false
    → (is_true ev.stale ≡ false) × IsWarning ev
unfolding event_is_stale
event_current→warning lower ev sets h = ground arith

object→event_current :
    (lower : String → String) (ev : K8sEvent) (sets : List K8sReplicaSet)
    → is_true ev.stale ≡ false
    → IsWarning ev
    → IsCurrentObject lower ev sets
    → event_is_stale lower ev sets ≡ false
unfolding event_is_stale
object→event_current lower ev sets s w (inl other) = ground arith
object→event_current lower ev sets s w (inr (rs, found, active)) = ground arith

-- An event is shown as current exactly when it is not marked stale, is a warning or of no type, and
-- is about something other than a replica set or about a listed replica set that is active.
pub event_current_iff :
    (lower : String → String) (ev : K8sEvent) (sets : List K8sReplicaSet)
    → (event_is_stale lower ev sets ≡ false)
      ↔ ((is_true ev.stale ≡ false) × IsWarning ev × IsCurrentObject lower ev sets)
event_current_iff lower ev sets = (
  λ h.
      let (fresh, warned) = event_current→warning lower ev sets h in
      (fresh, warned, event_current→object lower ev sets h),
  λ p. object→event_current lower ev sets p.0 p.1 p.2,
)
