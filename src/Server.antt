-- ===== src/Server.antt =====
-- The server: the state of a bound session, its map of pending requests, and its read loop.
pub mod Pending
pub mod State
pub mod Open
pub mod Handle
pub mod Session
pub mod ReadLoop
pub mod Esme
pub mod Accept
pub mod Listener
