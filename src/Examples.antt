-- ===== src/Examples.antt =====
-- The theorems applied to concrete servers, actors and rows.
mod SeatLock
mod Gateway
mod Breaker
mod Cancel
mod Lifecycle
mod Outbox
mod Payment
mod LockServer
mod Notification
mod RateLimit
mod Expiry
mod Schedules
mod SeatMap
mod WebSocket
mod Accounts
mod Rooms
