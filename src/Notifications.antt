-- ===== src/Notifications.antt =====
-- The notifications module of the server (internal/notifications): the alerts of the members.
pub mod Notification
mod Examples
