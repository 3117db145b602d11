-- ===== src/LockServer.antt =====
-- apps/lock-server/src: the requests of the locking queue, the updater that settles expired locks, and
-- the election of the instance that runs it.
pub mod Requests
pub mod Sweep
pub mod Election
pub mod Leader
pub mod Shrink
pub mod Swept
pub mod Answer
