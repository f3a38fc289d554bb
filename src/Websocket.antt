-- ===== src/Websocket.antt =====
-- packages/backend/src/websocket: the live connection of a browser to a server.
pub mod Gateway
pub mod Access
pub mod Polls
