-- ===== src/Files.antt =====
-- packages/backend/src/files: the files of a server, which its daemon keeps.
pub mod Service
pub mod Controller
pub mod Access
