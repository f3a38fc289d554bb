-- ===== src/Subusers.antt =====
-- packages/backend/src/subusers: users that may act on a server of another.
pub mod Service
pub mod Laws
pub mod Controller
