-- ===== src/Commands/SubmitSmMulti/Laws.antt =====
-- `submit_sm_multi` on the wire.
use smpp.Base.{
  ◌+◌, ◌≤◌, ◌≡◌, refl, sym, ap, ◌∙◌, true, List, [], ◌∷◌, ◌++◌, arith, Bytes, All, length,
  length-append, append-nil, append_assoc, ok, ◌>>=◌, panic,
}
use smpp.Nom.{Nom, NomLaws, take_bytes-append}
use smpp.Common.CString.{is_c_string, parse_c_octet_string_nom_some, or_rinvparlen}
use smpp.Common.Header.{CommandHeader, IsHeader}
use smpp.Common.Header
use smpp.Common.Wire.{Arrives, IsSendable, encode-Arrives, after_header, max_pdu_len}
use smpp.Common.Tlv.{Tlv, encode_tlvs, decode_tlvs, tlvs_encoded_len}
use smpp.Common.Tlv.Codec.{IsTlv, length-encode_tlvs, decode_tlvs-encode_tlvs}
use smpp.Commands.SubmitSmMulti.{
  DestAddress, sme, distribution_list, encode_dest, encoded_len, parse_dest_address, parse_dests,
  encode_dests, dests_len, SubmitSmMulti, base_len, body, sent_header, encode, read_body, decode,
}

abbrev pub IsDest : DestAddress → Type 0
IsDest (sme ton npi addr) = is_c_string addr ≡ true
IsDest (distribution_list name) = is_c_string name ≡ true

-- Texts are C-Octet-Strings, the two counts count, the parameters fit, and the PDU is within the
-- receiver's bound.
pub record IsValid (p : SubmitSmMulti) : Type 0 where
  pub header_valid : IsHeader p.header
  pub service_type_text : is_c_string p.service_type ≡ true
  pub source_addr_text : is_c_string p.source_addr ≡ true
  pub schedule_delivery_time_text : is_c_string p.schedule_delivery_time ≡ true
  pub validity_period_text : is_c_string p.validity_period ≡ true
  pub number_of_dests_counts : p.number_of_dests ≡ length p.dest_addresses
  pub dests_valid : All IsDest p.dest_addresses
  pub sm_length_counts : p.sm_length ≡ length p.short_message
  pub tlvs_valid : All IsTlv p.tlvs
  pub within : base_len p + tlvs_encoded_len p.tlvs ≤ max_pdu_len

length-encode_dest : (d : DestAddress) → length (encode_dest d) ≡ encoded_len d
length-encode_dest (sme ton npi addr) = omega (arith, length-append addr (0 ∷ []))
length-encode_dest (distribution_list name) = omega (arith, length-append name (0 ∷ []))

length-encode_dests : (ds : List DestAddress) → length (encode_dests ds) ≡ dests_len ds
unfolding encode_dests dests_len
length-encode_dests [] = refl
length-encode_dests (d ∷ ds) = omega (
  arith,
  length-append (encode_dest d) (encode_dests ds),
  length-encode_dest d,
  length-encode_dests ds,
)

length-body : (p : SubmitSmMulti) → 16 + length (body p) ≡ base_len p + tlvs_encoded_len p.tlvs
unfolding body
length-body p =
    simp length-append
      (omega (arith, length-encode_tlvs p.tlvs, length-encode_dests p.dest_addresses))

body-IsSendable : (p : SubmitSmMulti) → IsValid p → IsSendable (sent_header p) (body p)
unfolding sent_header
body-IsSendable p v = ground (arith, v.header_valid, v.within, length-body p)

module _ {nom : Nom} (laws : NomLaws nom) where
  parse_dest_address_lem :
      (d : DestAddress) (rest : Bytes)
      → IsDest d
      → parse_dest_address nom (encode_dest d ++ rest) ≡ ok (rest, d)
  unfolding parse_dest_address
  parse_dest_address_lem (sme ton npi addr) rest t =
      simp (append_assoc, laws.be_u8_some, parse_c_octet_string_nom_some laws addr t)
  parse_dest_address_lem (distribution_list name) rest t =
      simp (append_assoc, laws.be_u8_some, parse_c_octet_string_nom_some laws name t)

  -- As many destinations are read as were written.
  pub parse_dests-encode_dests :
      (ds : List DestAddress) (rest : Bytes)
      → All IsDest ds
      → parse_dests nom (length ds) (encode_dests ds ++ rest) ≡ ok (rest, ds)
  unfolding parse_dests encode_dests
  parse_dests-encode_dests [] rest v = refl
  parse_dests-encode_dests (d ∷ ds) rest v = simp (
    append_assoc (encode_dest d) (encode_dests ds) rest,
    parse_dest_address_lem d (encode_dests ds ++ rest) v.0,
    parse_dests-encode_dests ds rest v.1,
  )

  read_tlvs : (tlvs : List Tlv) → All IsTlv tlvs → decode_tlvs nom (encode_tlvs tlvs) ≡ ok tlvs
  read_tlvs tlvs v =
      ap (decode_tlvs nom) (sym (append-nil (encode_tlvs tlvs)))
      ∙ decode_tlvs-encode_tlvs laws tlvs [] v tt

  read_body_lem :
      (p : SubmitSmMulti) (h : CommandHeader)
      → IsValid p
      → read_body nom h (body p) ≡ ok (encode_tlvs p.tlvs, record p { header = h })
  unfolding read_body body
  read_body_lem p h v = simp (
    laws.be_u8_some,
    parse_c_octet_string_nom_some laws p.service_type v.service_type_text,
    parse_c_octet_string_nom_some laws p.source_addr v.source_addr_text,
    v.number_of_dests_counts,
    λ (rest : Bytes). parse_dests-encode_dests p.dest_addresses rest v.dests_valid,
    parse_c_octet_string_nom_some laws p.schedule_delivery_time v.schedule_delivery_time_text,
    parse_c_octet_string_nom_some laws p.validity_period v.validity_period_text,
    v.sm_length_counts,
    take_bytes-append laws,
    read_tlvs p.tlvs v.tlvs_valid,
  )

  decode_lem :
      (p : SubmitSmMulti) (h : CommandHeader)
      → IsValid p
      → decode nom h (Header.encode h ++ body p) ≡ ok (record p { header = h })
  unfolding decode
  decode_lem p h v =
      after_header h (body p) panic (λ i. or_rinvparlen (read_body nom h i) >>= λ q. ok q.1)
      ∙ rw (read_body_lem p h v)

  -- A valid submit_multi arrives with the header that its encoder writes, and is decoded to the PDU
  -- that was sent, with every destination and optional parameter in order; the command_length of
  -- its header is computed anew.
  pub submit_sm_multi-Arrives :
      (p : SubmitSmMulti)
      → IsValid p
      → Arrives (encode p) (sent_header p)
        × (decode nom (sent_header p) (encode p) ≡ ok (record p { header = sent_header p }))
  unfolding encode
  submit_sm_multi-Arrives p v = (
    encode-Arrives (sent_header p) (body p) (body-IsSendable p v),
    decode_lem p (sent_header p) v,
  )
