-- ===== src/Allocations.antt =====
-- packages/backend/src/allocations: addresses and ports of the nodes.
pub mod Service
pub mod Ports
