-- ===== src/Databases.antt =====
-- packages/backend/src/databases: the databases of a server.
pub mod Service
