-- ===== src/Nodes.antt =====
-- packages/backend/src/nodes
pub mod HeartbeatStore
pub mod Service
pub mod Controller
