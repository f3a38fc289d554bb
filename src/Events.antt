-- ===== src/Events.antt =====
-- packages/backend/src/sse and packages/backend/src/wings/event-handlers.ts: what the daemons report, and who is told.
pub mod Sse
pub mod Handlers
pub mod Delivery
pub mod Installs
