-- ===== src/Servers.antt =====
-- packages/backend/src/servers
pub mod Service
pub mod Create
pub mod Callbacks
pub mod Listing
pub mod Controller
