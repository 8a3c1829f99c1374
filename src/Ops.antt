-- ===== src/Ops.antt =====
-- The pages of the operators in web/src/pages/ops, a module for each, and the button that reconciles,
-- which two pages have.
pub mod Approvals
pub mod Domains
pub mod Registries
pub mod Keys
pub mod Capacity
pub mod Reconcile
