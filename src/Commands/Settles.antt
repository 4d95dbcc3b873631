-- ===== src/Commands/Settles.antt =====
-- The decoders of common/commands/*.rs on bytes of any kind, and panics.
pub mod Answers
use smpp.Base.{ℕ, ◌≡◌, false, zero, suc, ◌≤◌, arith, Bytes, ltb, length, drop}
use smpp.Nom.{Nom, NomLaws}
use smpp.Common.Command.{CommandId}
use smpp.Common.Header.{CommandHeader}
use smpp.Common.Settles.{
  guarded-Settles, Settles, gives, refuses, bind-Settles, take_c_string-Settles, take_octet-Settles,
  take_octets-Settles, decode_tlvs-Settles, if-Settles, parse_c_octet_string_nom-Settles,
  be_u8-Settles, take_bytes-Settles, map_err-Settles, or_rinvparlen-Settles,
}
use smpp.Commands.SubmitSm
use smpp.Commands.DeliverSm
use smpp.Commands.DataSm
use smpp.Commands.QuerySm
use smpp.Commands.ReplaceSm
use smpp.Commands.CancelSm
use smpp.Commands.SubmitSmMulti
use smpp.Commands.DeliverSm.Response as DeliverResp
use smpp.Commands.DataSm.Response as DataResp
use smpp.Commands.HeaderOnly

pub header_only-Settles :
    (id : CommandId) (header : CommandHeader) (pdu : Bytes)
    → Settles (HeaderOnly.decode id header pdu)
unfolding HeaderOnly.decode
header_only-Settles id header pdu =
    if-Settles _ _ _ (if-Settles _ _ _ (gives _) (refuses _)) (refuses _)

module _ {nom : Nom} (laws : NomLaws nom) (header : CommandHeader) where
  submit_sm_body-Settles : (i : Bytes) → Settles (SubmitSm.read_body nom header i)
  unfolding SubmitSm.read_body
  submit_sm_body-Settles i = bind-Settles _ _ (take_c_string-Settles laws _) λ _.
      bind-Settles _ _ (take_octet-Settles laws _) λ _.
        bind-Settles _ _ (take_octet-Settles laws _) λ _.
          bind-Settles _ _ (take_c_string-Settles laws _) λ _.
            bind-Settles _ _ (take_octet-Settles laws _) λ _.
              bind-Settles _ _ (take_octet-Settles laws _) λ _.
                bind-Settles _ _ (take_c_string-Settles laws _) λ _.
                  bind-Settles _ _ (take_octet-Settles laws _) λ _.
                    bind-Settles _ _ (take_octet-Settles laws _) λ _.
                      bind-Settles _ _ (take_octet-Settles laws _) λ _.
                        bind-Settles _ _ (take_c_string-Settles laws _) λ _.
                          bind-Settles _ _ (take_c_string-Settles laws _) λ _.
                            bind-Settles _ _ (take_octet-Settles laws _) λ _.
                              bind-Settles _ _ (take_octet-Settles laws _) λ _.
                                bind-Settles _ _ (take_octet-Settles laws _) λ _.
                                  bind-Settles _ _ (take_octet-Settles laws _) λ _.
                                    bind-Settles _ _ (take_octet-Settles laws _) λ _.
                                      bind-Settles _ _ (take_octets-Settles laws _ _) λ _.
                                        bind-Settles _ _ (decode_tlvs-Settles laws _) λ _. gives _

  pub submit_sm-Settles : (pdu : Bytes) → Settles (SubmitSm.decode nom header pdu)
  unfolding SubmitSm.decode
  submit_sm-Settles pdu = if-Settles _ _ _ (refuses _) (submit_sm_body-Settles (drop 16 pdu))

  deliver_sm_body-Settles : (i : Bytes) → Settles (DeliverSm.read_body nom header i)
  unfolding DeliverSm.read_body
  deliver_sm_body-Settles i = bind-Settles _ _ (take_c_string-Settles laws _) λ _.
      bind-Settles _ _ (take_octet-Settles laws _) λ _.
        bind-Settles _ _ (take_octet-Settles laws _) λ _.
          bind-Settles _ _ (take_c_string-Settles laws _) λ _.
            bind-Settles _ _ (take_octet-Settles laws _) λ _.
              bind-Settles _ _ (take_octet-Settles laws _) λ _.
                bind-Settles _ _ (take_c_string-Settles laws _) λ _.
                  bind-Settles _ _ (take_octet-Settles laws _) λ _.
                    bind-Settles _ _ (take_octet-Settles laws _) λ _.
                      bind-Settles _ _ (take_octet-Settles laws _) λ _.
                        bind-Settles _ _ (take_c_string-Settles laws _) λ _.
                          bind-Settles _ _ (take_c_string-Settles laws _) λ _.
                            bind-Settles _ _ (take_octet-Settles laws _) λ _.
                              bind-Settles _ _ (take_octet-Settles laws _) λ _.
                                bind-Settles _ _ (take_octet-Settles laws _) λ _.
                                  bind-Settles _ _ (take_octet-Settles laws _) λ _.
                                    bind-Settles _ _ (take_octet-Settles laws _) λ _.
                                      bind-Settles _ _ (take_octets-Settles laws _ _) λ _.
                                        bind-Settles _ _ (decode_tlvs-Settles laws _) λ _. gives _

  pub deliver_sm-Settles : (pdu : Bytes) → Settles (DeliverSm.decode nom header pdu)
  unfolding DeliverSm.decode
  deliver_sm-Settles pdu = if-Settles _ _ _ (refuses _) (deliver_sm_body-Settles (drop 16 pdu))

  data_sm_body-Settles : (i : Bytes) → Settles (DataSm.read_body nom header i)
  unfolding DataSm.read_body
  data_sm_body-Settles i = bind-Settles _ _ (take_c_string-Settles laws _) λ _.
      bind-Settles _ _ (take_octet-Settles laws _) λ _.
        bind-Settles _ _ (take_octet-Settles laws _) λ _.
          bind-Settles _ _ (take_c_string-Settles laws _) λ _.
            bind-Settles _ _ (take_octet-Settles laws _) λ _.
              bind-Settles _ _ (take_octet-Settles laws _) λ _.
                bind-Settles _ _ (take_c_string-Settles laws _) λ _.
                  bind-Settles _ _ (take_octet-Settles laws _) λ _.
                    bind-Settles _ _ (take_octet-Settles laws _) λ _.
                      bind-Settles _ _ (take_octet-Settles laws _)
                        λ _. bind-Settles _ _ (decode_tlvs-Settles laws _) λ _. gives _

  pub data_sm-Settles : (pdu : Bytes) → Settles (DataSm.decode nom header pdu)
  unfolding DataSm.decode
  data_sm-Settles pdu = if-Settles _ _ _ (refuses _) (data_sm_body-Settles (drop 16 pdu))

  query_sm_body-Settles : (i : Bytes) → Settles (QuerySm.read_body nom header i)
  unfolding QuerySm.read_body
  query_sm_body-Settles i = bind-Settles _ _ (take_c_string-Settles laws _) λ _.
      bind-Settles _ _ (take_octet-Settles laws _) λ _.
        bind-Settles _ _ (take_octet-Settles laws _)
          λ _. bind-Settles _ _ (take_c_string-Settles laws _) λ _. gives _

  pub query_sm-Settles : (pdu : Bytes) → Settles (QuerySm.decode nom header pdu)
  unfolding QuerySm.decode
  query_sm-Settles pdu = if-Settles _ _ _ (refuses _) (query_sm_body-Settles (drop 16 pdu))

  replace_sm_body-Settles : (i : Bytes) → Settles (ReplaceSm.read_body nom header i)
  unfolding ReplaceSm.read_body
  replace_sm_body-Settles i = bind-Settles _ _ (take_c_string-Settles laws _) λ _.
      bind-Settles _ _ (take_octet-Settles laws _) λ _.
        bind-Settles _ _ (take_octet-Settles laws _) λ _.
          bind-Settles _ _ (take_c_string-Settles laws _) λ _.
            bind-Settles _ _ (take_c_string-Settles laws _) λ _.
              bind-Settles _ _ (take_c_string-Settles laws _) λ _.
                bind-Settles _ _ (take_octet-Settles laws _) λ _.
                  bind-Settles _ _ (take_octet-Settles laws _) λ _.
                    bind-Settles _ _ (take_octet-Settles laws _)
                      λ _. bind-Settles _ _ (take_octets-Settles laws _ _) λ _. gives _

  pub replace_sm-Settles : (pdu : Bytes) → Settles (ReplaceSm.decode nom header pdu)
  unfolding ReplaceSm.decode
  replace_sm-Settles pdu = if-Settles _ _ _ (refuses _) (replace_sm_body-Settles (drop 16 pdu))

  parse_cancel_sm-Settles : (pdu : Bytes) → Settles (CancelSm.parse_cancel_sm nom header pdu)
  unfolding CancelSm.parse_cancel_sm
  parse_cancel_sm-Settles pdu = bind-Settles _ _ (parse_c_octet_string_nom-Settles laws _) λ _.
      bind-Settles _ _ (parse_c_octet_string_nom-Settles laws _) λ _.
        bind-Settles _ _ (be_u8-Settles laws _) λ _. bind-Settles _ _ (be_u8-Settles laws _) λ _.
          bind-Settles _ _ (parse_c_octet_string_nom-Settles laws _) λ _.
            bind-Settles _ _ (be_u8-Settles laws _) λ _.
              bind-Settles _ _ (be_u8-Settles laws _)
                λ _. bind-Settles _ _ (parse_c_octet_string_nom-Settles laws _) λ _. gives _

  pub cancel_sm-Settles : (pdu : Bytes) → Settles (CancelSm.decode nom header pdu)
  unfolding CancelSm.decode
  cancel_sm-Settles pdu =
      bind-Settles _ _ (or_rinvparlen-Settles _ (parse_cancel_sm-Settles pdu)) λ _. gives _

  parse_dest_address-Settles : (i : Bytes) → Settles (SubmitSmMulti.parse_dest_address nom i)
  unfolding SubmitSmMulti.parse_dest_address
  parse_dest_address-Settles i = bind-Settles _ _ (be_u8-Settles laws i) λ p.
      if-Settles _ _ _ (bind-Settles _ _ (parse_c_octet_string_nom-Settles laws _) λ _. gives _) (
        bind-Settles _ _ (be_u8-Settles laws _) λ _.
          bind-Settles _ _ (be_u8-Settles laws _)
            λ _. bind-Settles _ _ (parse_c_octet_string_nom-Settles laws _) λ _. gives _)

  parse_dests-Settles : (n : ℕ) (i : Bytes) → Settles (SubmitSmMulti.parse_dests nom n i)
  unfolding SubmitSmMulti.parse_dests
  parse_dests-Settles zero i = gives _
  parse_dests-Settles (suc n) i =
      bind-Settles _ _ (parse_dest_address-Settles i)
        λ p. bind-Settles _ _ (parse_dests-Settles n p.0) λ _. gives _

  submit_multi_body-Settles : (i : Bytes) → Settles (SubmitSmMulti.read_body nom header i)
  unfolding SubmitSmMulti.read_body
  submit_multi_body-Settles i = bind-Settles _ _ (parse_c_octet_string_nom-Settles laws _) λ _.
      bind-Settles _ _ (be_u8-Settles laws _) λ _. bind-Settles _ _ (be_u8-Settles laws _) λ _.
        bind-Settles _ _ (parse_c_octet_string_nom-Settles laws _) λ _.
          bind-Settles _ _ (be_u8-Settles laws _) λ _.
            bind-Settles _ _ (parse_dests-Settles _ _) λ _.
              bind-Settles _ _ (be_u8-Settles laws _) λ _.
                bind-Settles _ _ (be_u8-Settles laws _) λ _.
                  bind-Settles _ _ (be_u8-Settles laws _) λ _.
                    bind-Settles _ _ (parse_c_octet_string_nom-Settles laws _) λ _.
                      bind-Settles _ _ (parse_c_octet_string_nom-Settles laws _) λ _.
                        bind-Settles _ _ (be_u8-Settles laws _) λ _.
                          bind-Settles _ _ (be_u8-Settles laws _) λ _.
                            bind-Settles _ _ (be_u8-Settles laws _) λ _.
                              bind-Settles _ _ (be_u8-Settles laws _) λ _.
                                bind-Settles _ _ (be_u8-Settles laws _) λ _.
                                  bind-Settles _ _ (take_bytes-Settles laws _ _) λ _.
                                    bind-Settles _ _
                                      (map_err-Settles _ _ (decode_tlvs-Settles laws _))
                                      λ _. gives _

  pub submit_multi-Settles :
      (pdu : Bytes) → 16 ≤ length pdu → Settles (SubmitSmMulti.decode nom header pdu)
  unfolding SubmitSmMulti.decode
  submit_multi-Settles pdu h = guarded-Settles (ltb (length pdu) 16) _ _ (ground arith) (
      bind-Settles _ _ (or_rinvparlen-Settles _ (submit_multi_body-Settles (drop 16 pdu)))
        λ _. gives _)

  pub deliver_sm_resp-Settles : (pdu : Bytes) → Settles (DeliverResp.decode nom header pdu)
  unfolding DeliverResp.decode
  deliver_sm_resp-Settles pdu =
      if-Settles _ _ _
        (if-Settles _ _ _ (gives _) (bind-Settles _ _ (take_c_string-Settles laws _) λ _. gives _))
        (gives _)

  pub data_sm_resp-Settles : (pdu : Bytes) → Settles (DataResp.decode nom header pdu)
  unfolding DataResp.decode
  data_sm_resp-Settles pdu =
      if-Settles _ _ _
        (if-Settles _ _ _ (gives _) (
          bind-Settles _ _ (take_c_string-Settles laws _)
            λ _. bind-Settles _ _ (decode_tlvs-Settles laws _) λ _. gives _))
        (bind-Settles _ _ (decode_tlvs-Settles laws _) λ _. gives _)
