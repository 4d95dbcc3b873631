-- ===== src/Commands/CancelSm.antt =====
-- common/commands/cancel_sm.rs, `cancel_sm`. Its parser is handed the whole PDU by server/state.rs and
-- does not step past the header; its constructor leaves the message_id out of the length.
pub mod Laws
use smpp.Base.{
  ℕ, ◌+◌, ◌&&◌, [], ◌∷◌, ◌++◌, Bytes, cast_u32, length, ltb, if◌then◌else◌, Result, ok, err, panic,
  ◌>>=◌,
}
use smpp.Nom.{Nom, IResult}
use smpp.Common.Error.{SmppError, status_of, esme_rok}
use smpp.Common.Command.{CommandId, id_of}
use smpp.Common.Header.{CommandHeader}
use smpp.Common.Header
use smpp.Common.CString.{parse_c_octet_string_nom, or_rinvparlen}

pub record CancelSm : Type 0 where
  pub header : CommandHeader
  pub service_type : Bytes
  pub message_id : Bytes
  pub source_addr_ton : ℕ
  pub source_addr_npi : ℕ
  pub source_addr : Bytes
  pub dest_addr_ton : ℕ
  pub dest_addr_npi : ℕ
  pub destination_addr : Bytes

-- `parse_cancel_sm`
unfoldable pub parse_cancel_sm : Nom → CommandHeader → Bytes → IResult CancelSm
parse_cancel_sm nom header pdu = do
  (pdu, service_type) ← parse_c_octet_string_nom nom pdu
  (pdu, message_id) ← parse_c_octet_string_nom nom pdu
  (pdu, source_addr_ton) ← nom.be_u8 pdu
  (pdu, source_addr_npi) ← nom.be_u8 pdu
  (pdu, source_addr) ← parse_c_octet_string_nom nom pdu
  (pdu, dest_addr_ton) ← nom.be_u8 pdu
  (pdu, dest_addr_npi) ← nom.be_u8 pdu
  (pdu, destination_addr) ← parse_c_octet_string_nom nom pdu
  ok (
    pdu,
    record {
      header = header;
      service_type = service_type;
      message_id = message_id;
      source_addr_ton = source_addr_ton;
      source_addr_npi = source_addr_npi;
      source_addr = source_addr;
      dest_addr_ton = dest_addr_ton;
      dest_addr_npi = dest_addr_npi;
      destination_addr = destination_addr;
    },
  )

-- `cancel_sm::new`; a failed `assert!` panics.
unfoldable pub new : ℕ → Bytes → Bytes → ℕ → ℕ → Bytes → ℕ → ℕ → Bytes → Result SmppError CancelSm
new sequence_number service_type message_id source_addr_ton source_addr_npi source_addr
      dest_addr_ton dest_addr_npi destination_addr =
    if ltb (length service_type) 6
      && (ltb (length source_addr) 21 && ltb (length destination_addr) 21)
    then ok (record {
      header = record {
        command_length = cast_u32 (
            16
            + length service_type
            + 1
            + 2
            + length source_addr
            + 1
            + 2
            + length destination_addr
            + 1);
        command_id = id_of CommandId.cancel_sm;
        command_status = status_of esme_rok;
        sequence_number = sequence_number;
      };
      service_type = service_type;
      message_id = message_id;
      source_addr_ton = source_addr_ton;
      source_addr_npi = source_addr_npi;
      source_addr = source_addr;
      dest_addr_ton = dest_addr_ton;
      dest_addr_npi = dest_addr_npi;
      destination_addr = destination_addr;
    })
    else panic

-- What `encode` writes behind the header.
unfoldable pub body : CancelSm → Bytes
body p =
    p.service_type
    ++ (0
        ∷ (p.message_id
            ++ (0
                ∷ p.source_addr_ton
                ∷ p.source_addr_npi
                ∷ (p.source_addr
                    ++ (0
                        ∷ p.dest_addr_ton
                        ∷ p.dest_addr_npi
                        ∷ (p.destination_addr ++ (0 ∷ [])))))))

-- `cancel_sm::encode`
unfoldable pub encode : CancelSm → Bytes
unfolding body
encode p = Header.encode p.header ++ body p

-- `cancel_sm::decode`
unfoldable pub decode : Nom → CommandHeader → Bytes → Result SmppError CancelSm
unfolding parse_cancel_sm
decode nom header pdu = do
  (_, cancel_sm) ← or_rinvparlen (parse_cancel_sm nom header pdu)
  ok cancel_sm
