-- ===== src/Commands/DataSm/Response.antt =====
-- common/commands/data_sm.rs, `data_sm_resp`: how a data_sm is answered, optional parameters included.
use smpp.Base.{
  ℕ, ◌+◌, ◌≤◌, ◌≡◌, ◌≢◌, ◌⊎◌, inl, inr, refl, sym, ap, ◌∙◌, true, Option, none, some, List, [], ◌∷◌,
  ◌++◌, arith, Bytes, All, cast_u32, length, length-append, drop, ltb, leb, ◌==◌, if◌then◌else◌,
  Result, ok, panic, ◌>>=◌, append_assoc, append-nil,
}
use smpp.Nom.{Nom, NomLaws}
use smpp.Common.Error.{SmppError, status_of, esme_rok}
use smpp.Common.Command.{CommandId, id_of}
use smpp.Common.Header.{CommandHeader, IsHeader}
use smpp.Common.Header
use smpp.Common.CString.{is_c_string, take_c_string, take_c_string_some}
use smpp.Common.Tlv.{Tlv, decode_tlvs, encode_tlvs, tlvs_encoded_len}
use smpp.Common.Tlv.Codec.{IsTlv, length-encode_tlvs, decode_tlvs-encode_tlvs}
use smpp.Common.Wire.{Arrives, IsSendable, encode-Arrives, length-header, drop-encode, max_pdu_len}
use smpp.Commands.DataSm.{DataSm}

pub record DataSmResp : Type 0 where
  pub header : CommandHeader
  pub message_id : Option Bytes
  pub tlvs : List Tlv

-- `data_sm::accept`; an id of more than 65 bytes panics.
unfoldable pub accept : DataSm → Bytes → Result SmppError DataSmResp
accept p message_id =
    if ltb 65 (length message_id)
    then panic
    else ok (record {
      header = record {
        command_length = cast_u32 (16 + length message_id + 1);
        command_id = id_of CommandId.data_sm_resp;
        command_status = status_of esme_rok;
        sequence_number = p.header.sequence_number;
      };
      message_id = some message_id;
      tlvs = [];
    })

-- `data_sm::generic_reject`
unfoldable pub generic_reject : ℕ → SmppError → DataSmResp
generic_reject sequence_number error = record {
  header = record {
    command_length = 16;
    command_id = id_of CommandId.data_sm_resp;
    command_status = status_of error;
    sequence_number = sequence_number;
  };
  message_id = none;
  tlvs = [];
}

-- `data_sm::reject`
unfoldable pub reject : DataSm → SmppError → DataSmResp
reject p error = record {
  header = record {
    command_length = 16;
    command_id = id_of CommandId.data_sm_resp;
    command_status = status_of error;
    sequence_number = p.header.sequence_number;
  };
  message_id = none;
  tlvs = [];
}

-- `data_sm_resp::with_tlvs` and `push_tlv`
unfoldable pub with_tlvs : DataSmResp → List Tlv → DataSmResp
with_tlvs r more = record r { tlvs = r.tlvs ++ more }

-- The C-Octet-String of the message_id, if there is one.
abbrev pub id_bytes : Option Bytes → Bytes
id_bytes none = []
id_bytes (some message_id) = message_id ++ (0 ∷ [])

abbrev pub id_len : Option Bytes → ℕ
id_len none = 0
id_len (some message_id) = length message_id + 1

-- The header that `encode` writes: the length is computed anew.
unfoldable pub sent_header : DataSmResp → CommandHeader
sent_header r =
    let h = r.header in
    record h {
      command_length = cast_u32 (16 + id_len r.message_id + cast_u32 (tlvs_encoded_len r.tlvs));
    }

-- `data_sm_resp::encode`
unfoldable pub encode : DataSmResp → Bytes
unfolding sent_header
encode r = Header.encode (sent_header r) ++ (id_bytes r.message_id ++ encode_tlvs r.tlvs)

-- `data_sm_resp::decode`
unfoldable pub decode : Nom → CommandHeader → Bytes → Result SmppError DataSmResp
decode nom header pdu =
    if header.command_status == status_of esme_rok
    then (if leb (length pdu) 16
        then ok (record { header = header; message_id = none; tlvs = [] })
        else do
          (input, message_id) ← take_c_string nom (drop 16 pdu)
          tlvs ← decode_tlvs nom input
          ok (record { header = header; message_id = some message_id; tlvs = tlvs }))
    else do
      tlvs ← decode_tlvs nom (drop 16 pdu)
      ok (record { header = header; message_id = none; tlvs = tlvs })

-- A success has a message_id, a failure has none; texts and parameters fit their fields.
pub record IsValid (r : DataSmResp) : Type 0 where
  pub header_valid : IsHeader r.header
  pub tlvs_valid : All IsTlv r.tlvs
  pub within : 16 + id_len r.message_id + tlvs_encoded_len r.tlvs ≤ max_pdu_len
  pub shape :
      ((r.header.command_status ≢ status_of esme_rok) × (r.message_id ≡ none))
      ⊎ ((message_id : Bytes) × (r.header.command_status ≡ status_of esme_rok)
          × (r.message_id ≡ some message_id)
          × (is_c_string message_id ≡ true))

length-id_bytes : (m : Option Bytes) → length (id_bytes m) ≡ id_len m
length-id_bytes none = refl
length-id_bytes (some m) = omega (arith, length-append m (0 ∷ []))

body-IsSendable :
    (r : DataSmResp)
    → IsValid r
    → IsSendable (sent_header r) (id_bytes r.message_id ++ encode_tlvs r.tlvs)
unfolding sent_header
body-IsSendable r v = ground (
  arith,
  v.header_valid,
  v.within,
  length-append (id_bytes r.message_id) (encode_tlvs r.tlvs),
  length-id_bytes r.message_id,
  length-encode_tlvs r.tlvs,
)

module _ {nom : Nom} (laws : NomLaws nom) where
  read_tlvs : (tlvs : List Tlv) → All IsTlv tlvs → decode_tlvs nom (encode_tlvs tlvs) ≡ ok tlvs
  read_tlvs tlvs v =
      ap (decode_tlvs nom) (sym (append-nil (encode_tlvs tlvs)))
      ∙ decode_tlvs-encode_tlvs laws tlvs [] v tt

  decode_sent :
      (r : DataSmResp)
      → IsValid r
      → decode nom (sent_header r) (encode r) ≡ ok (record r { header = sent_header r })
  unfolding decode encode
  decode_sent r v = elim v.shape [
    | inl (failed, m) ↦ ground (
      arith,
      drop-encode (sent_header r) (id_bytes r.message_id ++ encode_tlvs r.tlvs),
      read_tlvs r.tlvs v.tlvs_valid,
    )
    | inr (id, done, m, text) ↦ ground (
      arith,
      drop-encode (sent_header r) (id_bytes r.message_id ++ encode_tlvs r.tlvs),
      length-header (sent_header r) (id_bytes r.message_id ++ encode_tlvs r.tlvs),
      append_assoc id (0 ∷ []) (encode_tlvs r.tlvs),
      length-append id (0 ∷ encode_tlvs r.tlvs),
      take_c_string_some laws id text (encode_tlvs r.tlvs),
      read_tlvs r.tlvs v.tlvs_valid,
    )
  ]

  -- A valid data_sm_resp, a success with its message_id or a failure without, arrives with the header
  -- that its encoder writes and is decoded to what was sent, optional parameters included.
  pub data_sm_resp-Arrives :
      (r : DataSmResp)
      → IsValid r
      → Arrives (encode r) (sent_header r)
        × (decode nom (sent_header r) (encode r) ≡ ok (record r { header = sent_header r }))
  unfolding encode
  data_sm_resp-Arrives r v =
      (encode-Arrives (sent_header r) _ (body-IsSendable r v), decode_sent r v)
