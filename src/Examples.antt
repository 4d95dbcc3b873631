-- ===== src/Examples.antt =====
-- The theorems at concrete inputs.
mod Crates
mod Messages
mod Sides
mod Wire
mod Sessions
mod Links
mod Engines
