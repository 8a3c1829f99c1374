-- ===== src/Cluster.antt =====
-- The Kubernetes status of a workspace: web/src/pages/workspaces/k8s-status.ts. The records hold the
-- fields of the wire format.
pub mod Types
pub mod Status
pub mod Panel
pub mod Requests
pub mod Laws
