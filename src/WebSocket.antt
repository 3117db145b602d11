-- ===== src/WebSocket.antt =====
-- The WebSocket server (apps/ws-server/src): the requests to lock and unlock seats with the metadata
-- that they are checked against, and the sockets that messages go to.
pub mod Metadata
pub mod Verified
pub mod Current
pub mod Accepted
pub mod Rooms
pub mod Delivered
