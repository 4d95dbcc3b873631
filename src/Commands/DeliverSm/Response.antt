-- ===== src/Commands/DeliverSm/Response.antt =====
-- common/commands/deliver_sm.rs, `deliver_sm_resp`: how a deliver_sm is answered. Its encoder writes
-- the NUL of the message_id on every status.
use smpp.Base.{
  ℕ, ◌/◌, ◌<◌, ◌≡◌, refl, [], ◌∷◌, ◌++◌, arith, Bytes, IsU32, length, drop, leb, ◌==◌,
  if◌then◌else◌, Result, ok, ◌>>=◌,
}
use smpp.Utf8.{is_utf8}
use smpp.Nom.{Nom, NomLaws}
use smpp.Common.Error.{SmppError, status_of, esme_rok, status_of-lt}
use smpp.Common.Command.{CommandId, id_of}
use smpp.Common.Header.{CommandHeader, IsHeader}
use smpp.Common.Header
use smpp.Common.Words.{be_u32_at}
use smpp.Common.CString.{take_c_string, take_c_string_some}
use smpp.Common.Framing.{frame_first_pdu, complete, invalid, frame_first_pdu-encode}
use smpp.Common.Wire.{Arrives, encode-Arrives, length-header, drop-encode, max_pdu_len}
use smpp.Commands.DeliverSm.{DeliverSm}

pub record DeliverSmResp : Type 0 where
  pub header : CommandHeader
  pub message_id : Bytes

-- `deliver_sm::accept`
unfoldable pub accept : DeliverSm → DeliverSmResp
accept p = record {
  header = record {
    command_length = 17;
    command_id = id_of CommandId.deliver_sm_resp;
    command_status = status_of esme_rok;
    sequence_number = p.header.sequence_number;
  };
  message_id = [];
}

-- `deliver_sm::generic_reject`
unfoldable pub generic_reject : ℕ → SmppError → DeliverSmResp
generic_reject sequence_number error = record {
  header = record {
    command_length = 16;
    command_id = id_of CommandId.deliver_sm_resp;
    command_status = status_of error;
    sequence_number = sequence_number;
  };
  message_id = [];
}

-- `deliver_sm::reject`
unfoldable pub reject : DeliverSm → SmppError → DeliverSmResp
reject p error = record {
  header = record {
    command_length = 16;
    command_id = id_of CommandId.deliver_sm_resp;
    command_status = status_of error;
    sequence_number = p.header.sequence_number;
  };
  message_id = [];
}

-- `deliver_sm_resp::encode`
unfoldable pub encode : DeliverSmResp → Bytes
encode r = Header.encode r.header ++ (r.message_id ++ (0 ∷ []))

-- `deliver_sm_resp::decode`
unfoldable pub decode : Nom → CommandHeader → Bytes → Result SmppError DeliverSmResp
decode nom header pdu =
    if header.command_status == status_of esme_rok
    then (if leb (length pdu) 16 then ok (record { header = header; message_id = [] }) else do
      (_, message_id) ← take_c_string nom (drop 16 pdu)
      ok (record { header = header; message_id = message_id }))
    else ok (record { header = header; message_id = [] })

-- An accepted deliver_sm is answered by a response that arrives with its header and is decoded to
-- what was sent.
pub deliver_sm_accept-Arrives :
    {nom : Nom} (laws : NomLaws nom) (p : DeliverSm)
    → IsU32 p.header.sequence_number
    → let r = accept p in Arrives (encode r) r.header × (decode nom r.header (encode r) ≡ ok r)
unfolding accept encode decode is_utf8
deliver_sm_accept-Arrives laws p h = (
  encode-Arrives _ _ (omega arith),
  ground (
    arith,
    length-header (accept p).header (0 ∷ []),
    drop-encode (accept p).header (0 ∷ []),
    take_c_string_some laws [] refl [],
  ),
)

-- The header of a PDU with one stray NUL in front is read one byte early.
be_u32_at_stray :
    (h : CommandHeader) (rest : Bytes)
    → IsHeader h
    → be_u32_at (0 ∷ (Header.encode h ++ rest)) 0 ≡ h.command_length / 256
unfolding be_u32_at Header.encode
be_u32_at_stray h rest v = ground arith

frame_stray :
    (h : CommandHeader) (rest : Bytes)
    → IsHeader h
    → h.command_length < 4096
    → frame_first_pdu (0 ∷ (Header.encode h ++ rest)) max_pdu_len ≡ invalid (h.command_length / 256)
unfolding frame_first_pdu
frame_stray h rest v small = ground (arith, be_u32_at_stray h rest v, length-header h rest)

-- A rejected deliver_sm states 16 bytes and is sent as 17: the receiver frames off the header and
-- the NUL stays in the stream. Any PDU of fewer than 4096 bytes that is sent next is then framed
-- with an invalid length, on which the receiver closes the connection.
pub deliver_sm_reject_desyncs :
    (p : DeliverSm) (e : SmppError) (h : CommandHeader) (body rest : Bytes)
    → IsU32 p.header.sequence_number
    → IsHeader h
    → h.command_length < 4096
    → let sent = encode (reject p e) ++ (Header.encode h ++ (body ++ rest)) in
      (frame_first_pdu sent max_pdu_len ≡ complete 16)
      × (length (encode (reject p e)) ≡ 17)
      × (frame_first_pdu (drop 16 sent) max_pdu_len ≡ invalid (h.command_length / 256))
unfolding reject encode Header.encode
deliver_sm_reject_desyncs p e h body rest hs v small = (
  frame_first_pdu-encode (reject p e).header [] max_pdu_len (ground (arith, status_of-lt e)) refl
      (omega arith) (0 ∷ (Header.encode h ++ (body ++ rest))),
  refl,
  frame_stray h (body ++ rest) v small,
)
