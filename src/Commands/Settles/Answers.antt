-- ===== src/Commands/Settles/Answers.antt =====
-- The decoders of common/commands/*.rs that only the client uses, on bytes of any kind, and panics.
use smpp.Base.{ltb, ℕ, zero, suc, ◌≤◌, [], ◌∷◌, arith, Bytes, length, drop}
use smpp.Nom.{Nom, NomLaws}
use smpp.Common.Header.{CommandHeader}
use smpp.Common.Settles.{
  guarded-Settles, Settles, gives, refuses, bind-Settles, take_c_string-Settles, take_octet-Settles,
  decode_tlvs-Settles, if-Settles, parse_c_octet_string_nom-Settles, be_u8-Settles, be_u32-Settles,
  map_err-Settles, or_rinvparlen-Settles,
}
use smpp.Commands.SubmitSm.Response as SubmitResp
use smpp.Commands.SubmitSmMulti.Response as MultiResp
use smpp.Commands.QuerySm.Response as QueryResp
use smpp.Commands.AlertNotification
use smpp.Commands.HeaderOnly

pub any-Settles :
    (header : CommandHeader) (pdu : Bytes) → Settles (HeaderOnly.decode_any header pdu)
unfolding HeaderOnly.decode_any
any-Settles header pdu = gives _

module _ {nom : Nom} (laws : NomLaws nom) (header : CommandHeader) where
  submit_sm_resp_body-Settles : (i : Bytes) → Settles (SubmitResp.read_body nom header i)
  unfolding SubmitResp.read_body
  submit_sm_resp_body-Settles i = bind-Settles _ _ (take_c_string-Settles laws _) λ _. gives _

  pub submit_sm_resp-Settles :
      (pdu : Bytes) → 16 ≤ length pdu → Settles (SubmitResp.decode nom header pdu)
  unfolding SubmitResp.decode
  submit_sm_resp-Settles pdu h =
      if-Settles _ _ _
        (guarded-Settles (ltb (length pdu) 16) _ _ (ground arith)
          (submit_sm_resp_body-Settles (drop 16 pdu)))
        (gives _)

  parse_unsuccess_sme-Settles : (i : Bytes) → Settles (MultiResp.parse_unsuccess_sme nom i)
  unfolding MultiResp.parse_unsuccess_sme
  parse_unsuccess_sme-Settles i = bind-Settles _ _ (be_u8-Settles laws _) λ _.
      bind-Settles _ _ (be_u8-Settles laws _) λ _.
        bind-Settles _ _ (parse_c_octet_string_nom-Settles laws _)
          λ _. bind-Settles _ _ (be_u32-Settles laws _) λ _. gives _

  parse_all-Settles : (n : ℕ) (i : Bytes) → Settles (MultiResp.parse_all nom n i)
  unfolding MultiResp.parse_all
  parse_all-Settles zero i = gives _
  parse_all-Settles (suc n) i =
      bind-Settles _ _ (or_rinvparlen-Settles _ (parse_unsuccess_sme-Settles i))
        λ p. bind-Settles _ _ (parse_all-Settles n p.0) λ _. gives _

  submit_multi_resp_body-Settles : (i : Bytes) → Settles (MultiResp.read_body nom header i)
  unfolding MultiResp.read_body
  submit_multi_resp_body-Settles i = bind-Settles _ _ (take_c_string-Settles laws _) λ _.
      bind-Settles _ _ (or_rinvparlen-Settles _ (be_u8-Settles laws _))
        λ _. bind-Settles _ _ (parse_all-Settles _ _) λ _. gives _

  pub submit_multi_resp-Settles :
      (pdu : Bytes) → 16 ≤ length pdu → Settles (MultiResp.decode nom header pdu)
  unfolding MultiResp.decode
  submit_multi_resp-Settles pdu h =
      if-Settles _ _ _
        (guarded-Settles (ltb (length pdu) 16) _ _ (ground arith)
          (submit_multi_resp_body-Settles (drop 16 pdu)))
        (gives _)

  query_sm_resp_body-Settles : (i : Bytes) → Settles (QueryResp.read_body nom header i)
  unfolding QueryResp.read_body
  query_sm_resp_body-Settles i = bind-Settles _ _ (take_c_string-Settles laws _) λ _.
      bind-Settles _ _ (take_c_string-Settles laws _) λ _.
        bind-Settles _ _ (take_octet-Settles laws _)
          λ _. bind-Settles _ _ (take_octet-Settles laws _) λ _. gives _

  pub query_sm_resp-Settles : (pdu : Bytes) → Settles (QueryResp.decode nom header pdu)
  unfolding QueryResp.decode
  query_sm_resp-Settles pdu =
      if-Settles _ _ _ (if-Settles _ _ _ (refuses _) (query_sm_resp_body-Settles (drop 16 pdu)))
        (gives _)

  read_status-Settles : (i : Bytes) → Settles (AlertNotification.read_status nom i)
  read_status-Settles [] = gives _
  read_status-Settles (b ∷ []) = bind-Settles _ _ (be_u8-Settles laws _) λ _. gives _
  read_status-Settles (b ∷ c ∷ bs) =
      bind-Settles _ _ (map_err-Settles _ _ (decode_tlvs-Settles laws _)) λ _. gives _

  parse_alert_notification-Settles :
      (i : Bytes) → Settles (AlertNotification.parse_alert_notification nom header i)
  unfolding AlertNotification.parse_alert_notification
  parse_alert_notification-Settles i = bind-Settles _ _ (be_u8-Settles laws _) λ _.
      bind-Settles _ _ (be_u8-Settles laws _) λ _.
        bind-Settles _ _ (parse_c_octet_string_nom-Settles laws _) λ _.
          bind-Settles _ _ (be_u8-Settles laws _) λ _. bind-Settles _ _ (be_u8-Settles laws _) λ _.
            bind-Settles _ _ (parse_c_octet_string_nom-Settles laws _)
              λ _. bind-Settles _ _ (read_status-Settles _) λ _. gives _

  pub alert_notification-Settles : (pdu : Bytes) → Settles (AlertNotification.decode nom header pdu)
  unfolding AlertNotification.decode
  alert_notification-Settles pdu = if-Settles _ _ _ (refuses _) (
      bind-Settles _ _ (or_rinvparlen-Settles _ (parse_alert_notification-Settles (drop 16 pdu)))
        λ _. gives _)
