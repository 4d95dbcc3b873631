-- ===== src/Commands/CancelSm/Laws.antt =====
-- What a cancel_sm is at the peer.
use smpp.Utf8.{is_utf8}
use smpp.Base.{
  ℕ, ◌+◌, ◌/◌, ◌%◌, ◌<◌, ◌≡◌, refl, ap, drop, ◌∙◌, true, [], ◌∷◌, ◌++◌, arith, Bytes, IsU32, length,
  length-append, ok,
}
use smpp.Nom.{Nom, NomLaws}
use smpp.Common.Command.{CommandId, id_of}
use smpp.Common.Header.{CommandHeader, IsHeader}
use smpp.Common.Header
use smpp.Common.CString.{is_c_string, parse_c_octet_string_nom, parse_c_octet_string_nom_some}
use smpp.Common.Framing.{frame_first_pdu, complete, frame_first_pdu-complete, be_u32_at-encode}
use smpp.Common.Wire.{max_pdu_len, length-header}
use smpp.Commands.CancelSm.{CancelSm, new, body, encode, decode}

-- The text fields can be C-Octet-Strings.
pub record IsText (p : CancelSm) : Type 0 where
  pub service_type_text : is_c_string p.service_type ≡ true
  pub message_id_text : is_c_string p.message_id ≡ true
  pub source_addr_text : is_c_string p.source_addr ≡ true
  pub destination_addr_text : is_c_string p.destination_addr ≡ true

length-body :
    (p : CancelSm)
    → length (body p)
      ≡ length p.service_type
        + length p.message_id
        + length p.source_addr
        + length p.destination_addr
        + 8
unfolding body
length-body p = simp length-append (omega arith)

-- A cancel_sm that `new` built is sent with a command_length that is short of the bytes sent by the
-- message_id and its NUL: the receiver frames off that much less than was sent.
pub cancel_sm_misframed :
    (sequence_number : ℕ) (service_type message_id : Bytes) (source_addr_ton source_addr_npi : ℕ)
    (source_addr : Bytes) (dest_addr_ton dest_addr_npi : ℕ) (destination_addr : Bytes)
    (p : CancelSm)
    → IsU32 sequence_number
    → new sequence_number service_type message_id source_addr_ton source_addr_npi source_addr
        dest_addr_ton dest_addr_npi destination_addr
      ≡ ok p
    → (frame_first_pdu (encode p) max_pdu_len ≡ complete p.header.command_length)
      × (length (encode p) ≡ p.header.command_length + length p.message_id + 1)
unfolding new encode
cancel_sm_misframed n st mi ston snpi sa dton dnpi da p h e = (
  frame_first_pdu-complete _ _ _ (
      ground (
        arith,
        be_u32_at-encode p.header (body p),
        length-header p.header (body p),
        length-body p,
      )),
  ground (arith, length-header p.header (body p), length-body p),
)

-- The header of a cancel_sm read as its body: a value that its length alone decides.
abbrev pub misread : CommandHeader → CancelSm
misread h = record {
  header = h;
  service_type = [];
  message_id = [];
  source_addr_ton = h.command_length / 256 % 256;
  source_addr_npi = h.command_length % 256;
  source_addr = [];
  dest_addr_ton = 0;
  dest_addr_npi = 0;
  destination_addr = 8 ∷ [];
}

module _ {nom : Nom} (laws : NomLaws nom) where
  -- Handed the bytes behind the header, the decoder gives back what the encoder wrote.
  pub decode-body : (p : CancelSm) → IsText p → decode nom p.header (body p) ≡ ok p
  unfolding decode body
  decode-body p t = simp (
    parse_c_octet_string_nom_some laws p.service_type t.service_type_text,
    parse_c_octet_string_nom_some laws p.message_id t.message_id_text,
    parse_c_octet_string_nom_some laws p.source_addr t.source_addr_text,
    parse_c_octet_string_nom_some laws p.destination_addr t.destination_addr_text,
    laws.be_u8_some,
  )

  empty_string : (rest : Bytes) → parse_c_octet_string_nom nom (0 ∷ rest) ≡ ok (rest, [])
  unfolding is_utf8
  empty_string = parse_c_octet_string_nom_some laws [] refl

  eight_string : (rest : Bytes) → parse_c_octet_string_nom nom (8 ∷ 0 ∷ rest) ≡ ok (rest, 8 ∷ [])
  unfolding is_utf8
  eight_string = parse_c_octet_string_nom_some laws (8 ∷ []) refl

  misread_bytes :
      (h : CommandHeader) (x y : ℕ) (rest : Bytes)
      → decode nom h (0 ∷ 0 ∷ x ∷ y ∷ 0 ∷ 0 ∷ 0 ∷ 8 ∷ 0 ∷ rest)
        ≡ ok (record {
          header = h;
          service_type = [];
          message_id = [];
          source_addr_ton = x;
          source_addr_npi = y;
          source_addr = [];
          dest_addr_ton = 0;
          dest_addr_npi = 0;
          destination_addr = 8 ∷ [];
        })
  unfolding decode
  misread_bytes h x y rest = simp (empty_string, eight_string, laws.be_u8_some)

  header_bytes :
      (h : CommandHeader) (rest : Bytes)
      → h.command_length < 65536
      → h.command_id ≡ id_of CommandId.cancel_sm
      → h.command_status ≡ 0
      → Header.encode h ++ rest
        ≡ 0
          ∷ 0
          ∷ (h.command_length / 256 % 256)
          ∷ (h.command_length % 256)
          ∷ 0
          ∷ 0
          ∷ 0
          ∷ 8
          ∷ 0
          ∷ drop 9 (Header.encode h ++ rest)
  unfolding Header.encode
  header_bytes h rest hl hi hs = ground arith

  -- Handed the whole PDU, as server/state.rs does, the decoder never sees the body: whatever it is,
  -- every cancel_sm of fewer than 65536 bytes is decoded to the same empty ids, with the length as
  -- the TON and NPI of the source and "\x08" as the destination.
  pub cancel_sm_misread :
      (h : CommandHeader) (rest : Bytes)
      → h.command_length < 65536
      → h.command_id ≡ id_of CommandId.cancel_sm
      → h.command_status ≡ 0
      → decode nom h (Header.encode h ++ rest) ≡ ok (misread h)
  cancel_sm_misread h rest hl hi hs =
      ap (decode nom h) (header_bytes h rest hl hi hs)
      ∙ misread_bytes h (h.command_length / 256 % 256) (h.command_length % 256)
          (drop 9 (Header.encode h ++ rest))
