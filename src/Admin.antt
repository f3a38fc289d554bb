-- ===== src/Admin.antt =====
-- packages/backend/src/admin: what only administrators may do.
pub mod Allocations
pub mod Nodes
pub mod Service
