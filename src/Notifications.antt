-- ===== src/Notifications.antt =====
-- Notifications: internal/notifications (models.go, service.go, repository.go, email.go, and
-- List of handler.go). A call that sends mail is recorded; its errors are dropped, as in the code.
pub mod Notify
pub mod Delivered
pub mod Pages
pub mod Cursors
pub mod Listed
pub mod Recipients
pub mod Unread
pub mod Mail
pub mod Queued
