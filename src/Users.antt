-- ===== src/Users.antt =====
-- packages/backend/src/users and packages/backend/src/admin/admin-users.controller.ts.
pub mod Service
pub mod Writes
pub mod Controller
