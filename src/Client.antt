-- ===== src/Client.antt =====
-- The client of client/mod.rs: its session and its read loop.
pub mod Session
pub mod Smsc
pub mod Bind
pub mod Listener
