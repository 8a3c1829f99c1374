-- ===== src/Audit.antt =====
-- The audit pages: web/src/pages/ops/format.ts, a module for each part.
pub mod Label
pub mod Meta
pub mod Name
pub mod Link
pub mod Open
pub mod Page
pub mod Hover
pub mod Dialog
pub mod Change
pub mod Exec
pub mod Event
pub mod Tests
