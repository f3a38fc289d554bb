-- ===== src/Notifications.antt =====
-- packages/backend/src/notifications: the messages of the panel to its users.
pub mod Service
pub mod Counts
