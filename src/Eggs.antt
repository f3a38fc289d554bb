-- ===== src/Eggs.antt =====
-- packages/backend/src/eggs: the kinds of servers, with their variables.
pub mod Dto
pub mod Rows
pub mod Service
pub mod Import
pub mod Update
