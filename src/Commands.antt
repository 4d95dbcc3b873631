-- ===== src/Commands.antt =====
-- common/commands: one module for each PDU, its constructors, its encoder and its decoder.
pub mod Settles
pub mod Bind
pub mod SubmitSm
pub mod DeliverSm
pub mod DataSm
pub mod ReplaceSm
pub mod QuerySm
pub mod HeaderOnly
pub mod CancelSm
pub mod SubmitSmMulti
pub mod AlertNotification
pub mod Outbind
