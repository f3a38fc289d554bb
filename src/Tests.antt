-- ===== src/Tests.antt =====
-- Concrete inputs: a small panel, and the theorems and definitions at work on it.
pub mod Data
pub mod Servers
pub mod Auth
pub mod Guards
pub mod Nodes
pub mod Rules
pub mod Daemons
pub mod Tokens
pub mod Sockets
pub mod Subusers
pub mod Pages
pub mod Browser
pub mod Controllers
pub mod Records
pub mod Admin
