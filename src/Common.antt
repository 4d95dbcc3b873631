-- ===== src/Common.antt =====
-- common/mod.rs and common/tlv.rs: what every PDU is made of.
pub mod Settles
pub mod Error
pub mod Command
pub mod Words
pub mod Header
pub mod Framing
pub mod CString
pub mod Tlv
pub mod Wire
