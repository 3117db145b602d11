-- ===== src/SeatMap.antt =====
-- What users are shown of a schedule's seats: the bitmap of Redis as the HTTP server and the WebSocket
-- server decode it, the seat map and the counts.
pub mod Bitmap
pub mod Decoded
pub mod Cache
pub mod Counts
pub mod Loaded
pub mod View
