-- ===== src/Client/Bind.antt =====
-- client/mod.rs, `SmppClient::start`: the bind that the client sends, and the response with which it is
-- bound.
use smpp.Base.{ℕ, Bool, true, false, ◌&&◌, Bytes, [], ◌==◌, Result, ok, err, panic, ◌>>=◌}
use smpp.Common.Error.{SmppError, esme_rok, status_of}
use smpp.Common.Command.{id_of}
use smpp.Common.Header.{CommandHeader}
use smpp.Common.Header
use smpp.Commands.Bind.{BindKind, response_id, new, encode_bind_request}
use smpp.Server.State.{BoundType, may_transmit}
use smpp.Server.Handle.{potential_seq_no}
use smpp.Engine.Request.{Peer}

-- `bind_pdu`: the three arms differ in the kind of bind. Its sequence number is 1.
unfoldable pub bind_pdu : BindKind → Bytes → Bytes → Bytes → ℕ → ℕ → Bytes → Result SmppError Bytes
bind_pdu kind system_id password system_type addr_ton addr_npi address_range = do
  p ← new kind 1 system_id password system_type addr_ton addr_npi address_range
  ok (encode_bind_request p)

-- The client is bound by a success of its own kind of bind, under its sequence number.
abbrev pub confirms : BindKind → Bytes → Result SmppError CommandHeader → Bool
confirms kind pdu (ok header) =
    potential_seq_no pdu == 1
    && (header.command_status == status_of esme_rok
        && header.command_id == id_of (response_id kind))
confirms kind pdu (err e) = false
confirms kind pdu panic = false

unfoldable pub is_bound : BindKind → Bytes → Bool
is_bound kind pdu = confirms kind pdu (Header.decode pdu)

-- The `SMSC` that `on_smsc_bound` is given.
abbrev pub start_smsc : BoundType → Peer
start_smsc bind_type = record {
  allowed = may_transmit bind_type;
  channel_open = true;
  frames = [];
  sequence_number = 2;
  next_channel = 0;
}
