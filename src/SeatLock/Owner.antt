-- ===== src/SeatLock/Owner.antt =====
-- Who owns a seat: what the operations of packages/redis-conn/src/single_node_lock.rs do to the lock
-- of another user, and what a successful acquisition gives.
pub mod Scripts
pub mod Calls
pub mod Safety
pub mod Acquire
