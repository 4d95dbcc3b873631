-- ===== src/Link.antt =====
-- The client of client/mod.rs and the server of server/mod.rs and server/state.rs at the two ends of a
-- connection: a request from its caller to the peer's handler, and its answer back to the caller.
pub mod Submit
pub mod Unbind
pub mod Enquiry
pub mod Bind
pub mod Deliver
pub mod Receiver
pub mod Pipeline
pub mod Window
