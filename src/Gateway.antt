-- ===== src/Gateway.antt =====
-- apps/gateway-keeper/src: the actor of a show, which admits one request at a time for each seat.
pub mod Actor
pub mod Registry
pub mod Admission
pub mod Eviction
pub mod Show
pub mod Kept
pub mod Requests
pub mod Cancel
pub mod Lifecycle
pub mod Breaker
pub mod Trips
pub mod RateLimit
pub mod Expiry
