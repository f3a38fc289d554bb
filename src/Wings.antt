-- ===== src/Wings.antt =====
-- packages/backend/src/wings: the panel's client of the Wings daemons.
pub mod Protocol
pub mod Client
pub mod Files
