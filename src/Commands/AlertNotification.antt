-- ===== src/Commands/AlertNotification.antt =====
-- common/commands/alert_notification.rs, `alert_notification`: a PDU with one optional parameter.
use smpp.Base.{
  ℕ, ◌+◌, ◌≡◌, refl, ◌∙◌, true, ◌&&◌, Option, none, some, [], ◌∷◌, ◌++◌, arith, Bytes, IsU32,
  cast_u32, length, length-append, drop, ltb, leb, if◌then◌else◌, Result, ok, err, panic, map_err,
  ◌>>=◌,
}
use smpp.Nom.{Nom, NomLaws, IResult}
use smpp.Common.Error.{SmppError, status_of, esme_rok, esme_rinvcmdlen}
use smpp.Common.Command.{CommandId, id_of}
use smpp.Common.Header.{CommandHeader}
use smpp.Common.Header
use smpp.Common.CString.{
  is_c_string, parse_c_octet_string_nom, parse_c_octet_string_nom_some, or_rinvparlen,
}
use smpp.Common.Tlv
use smpp.Common.Tlv.{from_tag, from_u8, as_u8, decode_tlvs, encode_tlvs}
use smpp.Common.Tlv.Tag.{TlvTag}
use smpp.Common.Tlv.Access.{get_tlv, get_tlv_raw}
use smpp.Common.Tlv.Codec.{decode_tlvs-encode_tlvs}
use smpp.Common.Wire.{Arrives, IsSendable, encode-Arrives, after_header}

pub record AlertNotification : Type 0 where
  pub header : CommandHeader
  pub source_addr_ton : ℕ
  pub source_addr_npi : ℕ
  pub source_addr : Bytes
  pub esme_addr_ton : ℕ
  pub esme_addr_npi : ℕ
  pub esme_addr : Bytes
  pub ms_availability_status : Option ℕ

-- What follows the addresses: nothing, a bare octet, or optional parameters.
abbrev pub status_in : Option Tlv.Tlv → Option ℕ
status_in none = none
status_in (some t) = as_u8 t

abbrev pub read_status : Nom → Bytes → IResult (Option ℕ)
read_status nom [] = ok ([], none)
read_status nom (b ∷ []) = do (pdu, status) ← nom.be_u8 (b ∷ []); ok (pdu, some status)
read_status nom (b ∷ c ∷ bs) = do
  tlvs ← map_err (λ _. tt) (decode_tlvs nom (b ∷ c ∷ bs))
  ok ([], status_in (get_tlv tlvs TlvTag.ms_availability_status))

-- `parse_alert_notification`
unfoldable pub parse_alert_notification : Nom → CommandHeader → Bytes → IResult AlertNotification
parse_alert_notification nom header pdu = do
  (pdu, source_addr_ton) ← nom.be_u8 pdu
  (pdu, source_addr_npi) ← nom.be_u8 pdu
  (pdu, source_addr) ← parse_c_octet_string_nom nom pdu
  (pdu, esme_addr_ton) ← nom.be_u8 pdu
  (pdu, esme_addr_npi) ← nom.be_u8 pdu
  (pdu, esme_addr) ← parse_c_octet_string_nom nom pdu
  (pdu, ms_availability_status) ← read_status nom pdu
  ok (
    pdu,
    record {
      header = header;
      source_addr_ton = source_addr_ton;
      source_addr_npi = source_addr_npi;
      source_addr = source_addr;
      esme_addr_ton = esme_addr_ton;
      esme_addr_npi = esme_addr_npi;
      esme_addr = esme_addr;
      ms_availability_status = ms_availability_status;
    },
  )

abbrev pub status_len : Option ℕ → ℕ
status_len none = 0
status_len (some _) = 5

-- `alert_notification::new`; a failed `assert!` panics.
unfoldable pub new :
    ℕ → ℕ → ℕ → Bytes → ℕ → ℕ → Bytes → Option ℕ → Result SmppError AlertNotification
new sequence_number source_addr_ton source_addr_npi source_addr esme_addr_ton esme_addr_npi
      esme_addr ms_availability_status =
    if leb (length source_addr) 65 && leb (length esme_addr) 65
    then ok (record {
      header = record {
        command_length = cast_u32 (
            16
            + 2
            + length source_addr
            + 1
            + 2
            + length esme_addr
            + 1
            + status_len ms_availability_status);
        command_id = id_of CommandId.alert_notification;
        command_status = status_of esme_rok;
        sequence_number = sequence_number;
      };
      source_addr_ton = source_addr_ton;
      source_addr_npi = source_addr_npi;
      source_addr = source_addr;
      esme_addr_ton = esme_addr_ton;
      esme_addr_npi = esme_addr_npi;
      esme_addr = esme_addr;
      ms_availability_status = ms_availability_status;
    })
    else panic

abbrev pub status_bytes : Option ℕ → Bytes
status_bytes none = []
status_bytes (some status) = Tlv.encode (from_u8 TlvTag.ms_availability_status status)

-- What `encode` writes behind the header.
unfoldable pub body : AlertNotification → Bytes
body p =
    p.source_addr_ton
    ∷ p.source_addr_npi
    ∷ (p.source_addr
        ++ (0
            ∷ p.esme_addr_ton
            ∷ p.esme_addr_npi
            ∷ (p.esme_addr ++ (0 ∷ status_bytes p.ms_availability_status))))

-- `alert_notification::encode`
unfoldable pub encode : AlertNotification → Bytes
unfolding body
encode p = Header.encode p.header ++ body p

-- `alert_notification::decode`
unfoldable pub decode : Nom → CommandHeader → Bytes → Result SmppError AlertNotification
unfolding parse_alert_notification
decode nom header pdu =
    if ltb (length pdu) 16
    then err esme_rinvcmdlen
    else do (_, p) ← or_rinvparlen (parse_alert_notification nom header (drop 16 pdu)); ok p

length-status_bytes : (s : Option ℕ) → length (status_bytes s) ≡ status_len s
unfolding Tlv.encode from_u8
length-status_bytes none = refl
length-status_bytes (some s) = refl

length-body :
    (p : AlertNotification)
    → length (body p)
      ≡ length p.source_addr + length p.esme_addr + 6 + status_len p.ms_availability_status
unfolding body
length-body p = simp length-append (omega (arith, length-status_bytes p.ms_availability_status))

new-IsSendable :
    (n ton npi : ℕ) (sa : Bytes) (eton enpi : ℕ) (ea : Bytes) (status : Option ℕ)
    (p : AlertNotification)
    → IsU32 n
    → new n ton npi sa eton enpi ea status ≡ ok p
    → IsSendable p.header (body p)
unfolding new
new-IsSendable n ton npi sa eton enpi ea none p h e = ground (arith, length-body p)
new-IsSendable n ton npi sa eton enpi ea (some s) p h e = ground (arith, length-body p)

module _ {nom : Nom} (laws : NomLaws nom) where
  read_status_lem : (s : Option ℕ) → read_status nom (status_bytes s) ≡ ok ([], s)
  unfolding encode_tlvs Tlv.encode from_u8 get_tlv get_tlv_raw as_u8
  read_status_lem none = refl
  read_status_lem (some s) = ground (
    arith,
    decode_tlvs-encode_tlvs laws (from_u8 TlvTag.ms_availability_status s ∷ []) [] (omega arith) tt,
  )

  -- An alert_notification that `new` built with a number in a `u32`, and whose addresses can be
  -- C-Octet-Strings, arrives with its own header and is decoded to what was sent, its availability status
  -- included.
  pub alert_notification-Arrives :
      (sequence_number source_addr_ton source_addr_npi : ℕ) (source_addr : Bytes)
      (esme_addr_ton esme_addr_npi : ℕ) (esme_addr : Bytes) (status : Option ℕ)
      (p : AlertNotification)
      → IsU32 sequence_number
      → new sequence_number source_addr_ton source_addr_npi source_addr esme_addr_ton esme_addr_npi
          esme_addr status
        ≡ ok p
      → is_c_string p.source_addr ≡ true
      → is_c_string p.esme_addr ≡ true
      → Arrives (encode p) p.header × (decode nom p.header (encode p) ≡ ok p)
  unfolding encode decode
  alert_notification-Arrives n ton npi sa eton enpi ea status p h e hs he = (
    encode-Arrives p.header (body p) (new-IsSendable n ton npi sa eton enpi ea status p h e),
    after_header p.header (body p) (err esme_rinvcmdlen)
          (λ i. or_rinvparlen (parse_alert_notification nom p.header i) >>= λ q. ok q.1)
        ∙ unfold body in
          simp (
            laws.be_u8_some,
            parse_c_octet_string_nom_some laws p.source_addr hs,
            parse_c_octet_string_nom_some laws p.esme_addr he,
            read_status_lem p.ms_availability_status,
          ),
  )
