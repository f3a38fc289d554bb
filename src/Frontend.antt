-- ===== src/Frontend.antt =====
-- packages/frontend/src: the state that the pages of the browser share.
pub mod Socket
pub mod AuthStore
