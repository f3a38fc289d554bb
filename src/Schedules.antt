-- ===== src/Schedules.antt =====
-- packages/backend/src/schedules: the schedules of a server and their tasks.
pub mod Service
pub mod Controller
pub mod Laws
