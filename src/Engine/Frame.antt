-- ===== src/Engine/Frame.antt =====
-- common/mod.rs, `WriteFrame`: what the writer task is handed.
use smpp.Base.{ℕ, Option, none, some, Bytes}

pub record WriteFrame : Type 0 where
  -- Of a request, which waits for a response.
  pub our_sequence_number : Option ℕ
  pub pdu : Bytes
  -- The channel that the response is sent into, by its name.
  pub oneshot : Option ℕ

-- A frame that waits for a response.
abbrev pub request_frame : ℕ → Bytes → Option ℕ → WriteFrame
request_frame n pdu oneshot = record { our_sequence_number = some n; pdu = pdu; oneshot = oneshot }

-- A frame with a response.
abbrev pub response_frame : Bytes → WriteFrame
response_frame pdu = record { our_sequence_number = none; pdu = pdu; oneshot = none }
