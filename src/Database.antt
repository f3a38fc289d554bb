-- ===== src/Database.antt =====
-- packages/backend/src/database: the rows of the tables, the row store and the panel's state.
pub mod Entities
pub mod Orm
pub mod Rows
pub mod Panel
pub mod Requests
pub mod Pages
pub mod Inserts
