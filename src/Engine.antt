-- ===== src/Engine.antt =====
-- What a session of either side has around its read loop: sequence numbers, the writer task, the requests
-- that are sent by a caller and their outcomes, and the enquire_link ticker.
pub mod Sequence
pub mod Frame
pub mod Writer
pub mod Request
pub mod Ticker
pub mod Builder
pub mod Rounds
pub mod Handshake
