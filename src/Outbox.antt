-- ===== src/Outbox.antt =====
-- apps/outbox-server/src: the events that other services leave in the database and that this server
-- hands to the message broker.
pub mod Policy
pub mod Store
pub mod Server
pub mod Claims
pub mod Lease
pub mod Once
pub mod Retry
