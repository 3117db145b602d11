-- ===== src/SeatLock.antt =====
-- packages/redis-conn/src/single_node_lock.rs: the seat locks kept on a list of Redis servers.
pub mod Cluster
pub mod Route
pub mod Scripts
pub mod Single
pub mod Owner
pub mod Settle
pub mod Every
pub mod NoContext
pub mod Context
