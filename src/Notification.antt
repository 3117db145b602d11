-- ===== src/Notification.antt =====
-- apps/notification-worker/src: tickets and mails for the events of orders.
pub mod Worker
pub mod Settled
pub mod Again
