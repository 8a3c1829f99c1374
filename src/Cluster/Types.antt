-- ===== src/Cluster/Types.antt =====
-- The records of web/src/pages/workspaces/k8s-status.ts. A map of labels or amounts is the list of
-- its entries; lookups take the first.
use ha_cluster.Base.{Bool, List, Option, String, ℕ}

abbrev pub Labels : Type 0
Labels = List (String × String)

pub record K8sReplicaCounts : Type 0 where
  pub desired : ℕ
  pub ready : ℕ
  pub updated : Option ℕ
  pub available : Option ℕ
  pub unavailable : Option ℕ
  pub current : Option ℕ

pub record K8sResource : Type 0 where
  pub kind : String
  pub name : String
  pub namespace : String
  pub labels : Option Labels
  pub phase : Option String
  pub ready : Option String
  pub replicas : Option K8sReplicaCounts
  pub reason : Option String
  pub message : Option String
  pub restarts : Option ℕ
  pub images : Option (List String)
  pub strategy : Option String
  pub max_unavailable : Option String
  pub max_surge : Option String
  pub owner_kind : Option String
  pub owner_name : Option String
  pub created_at : Option String
  pub missing_requests : Option Bool

pub record K8sQuota : Type 0 where
  pub name : String
  pub hard : Option Labels
  pub used : Option Labels

pub record K8sDeployment : Type 0 where
  pub name : String
  pub namespace : String
  pub labels : Option Labels
  pub replicas : ℕ
  pub ready_replicas : ℕ
  pub updated_replicas : ℕ
  pub available_replicas : ℕ
  pub unavailable_replicas : ℕ
  pub generation : ℕ
  pub observed_generation : ℕ
  pub strategy : Option String
  pub max_unavailable : Option String
  pub max_surge : Option String
  pub images : Option (List String)
  pub rolling : Bool
  pub missing_requests : Option Bool

pub record K8sReplicaSet : Type 0 where
  pub name : String
  pub namespace : String
  pub owner : Option String
  pub labels : Option Labels
  pub desired : ℕ
  pub current : ℕ
  pub ready : ℕ
  pub generation : Option ℕ
  pub images : Option (List String)
  pub active : Option Bool

pub record K8sPod : Type 0 where
  pub name : String
  pub namespace : String
  pub phase : String
  pub ready : Bool
  pub restarts : ℕ
  pub labels : Option Labels
  pub reason : Option String
  pub message : Option String
  pub node : Option String
  pub owner_kind : Option String
  pub owner_name : Option String
  pub images : Option (List String)
  pub created_at : Option String
  pub requests : Option Labels

pub record K8sService : Type 0 where
  pub name : String
  pub namespace : String
  pub service_type : Option String
  pub cluster_ip : Option String
  pub ports : Option (List String)
  pub labels : Option Labels

pub record K8sEvent : Type 0 where
  pub event_type : String
  pub reason : String
  pub message : String
  pub object_kind : Option String
  pub object_name : Option String
  pub count : Option ℕ
  pub last_seen : Option String
  pub stale : Option Bool

pub record K8sSummary : Type 0 where
  pub deployments : ℕ
  pub ready_deployments : ℕ
  pub replica_sets : ℕ
  pub pods : ℕ
  pub running_pods : ℕ
  pub pending_pods : ℕ
  pub failed_pods : ℕ
  pub warnings : ℕ

pub record K8sNamespaceStatus : Type 0 where
  pub namespace : String
  pub summary : K8sSummary
  pub quota : Option K8sQuota
  pub deployments : List K8sDeployment
  pub replica_sets : List K8sReplicaSet
  pub pods : List K8sPod
  pub services : List K8sService
  pub events : List K8sEvent
  pub warnings : List String
  pub history : List String
  pub resources : List K8sResource
