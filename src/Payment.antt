-- ===== src/Payment.antt =====
-- Payments: the tables they touch, the requests for a payment and for a cancellation
-- (apps/http-server/src/api/user/payments.rs) and the payment processor (apps/payment-processor/src).
pub mod Tables
pub mod Intent
pub mod Commit
pub mod Checkouts
pub mod Request
pub mod Orders
pub mod Processor
pub mod Counts
pub mod Ledger
pub mod Redelivery
pub mod Locks
