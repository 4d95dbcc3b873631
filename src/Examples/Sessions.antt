-- ===== src/Examples/Sessions.antt =====
-- The theorems on the server's session at concrete sessions.
use smpp.Base.{◌≡◌, ◌≢◌, refl, List, [], ◌∷◌, ◌++◌, arith, Bytes, true, none, some}
use smpp.Common.Error.{esme_rinvcmdid, esme_rok}
use smpp.Common.Command.{CommandId, id_of-IsU32}
use smpp.Common.Words.{be_u32_at}
use smpp.Common.Header
use smpp.Common.Header.{IsHeader}
use smpp.Commands.DataSm.Response as DataResp
use smpp.Commands.HeaderOnly
use smpp.Commands.HeaderOnly.{HeaderOnly}
use smpp.Commands.CancelSm.Laws.{misread}
use smpp.Server.Pending.{find, erase}
use smpp.Server.State.{
  bound_rx, bound_tx, Flow, go_on, panicked, spawn, on_cancel_sm, send_or_stop, data_reply,
}
use smpp.Server.Handle.{deliver}
use smpp.Server.Session.{handle_pdu}
use smpp.Server.Session.Branches.{for_submit_sm}
use smpp.Server.Session.Requests.{refused_on_receiver, cancel_sm_spawned_misread}
use smpp.Server.Session.Responses.{data_sm_resp_delivered}
use smpp.Server.Handle.Steps.{number_in, IsStep}
use smpp.Server.Session.Survives.{drain_buffer-Survives}
use smpp.Server.Session.Preserves.{handle_pdu-IsStep}
use smpp.Server.ReadLoop.{drain_buffer, next_pdu, sweep}
use smpp.Server.ReadLoop.Framed.{Drains, drain_buffer_total}
use smpp.Server.ReadLoop.Chunks.{drain_buffer-append}
use smpp.Server.ReadLoop.Sweep.{told, sweep_reports}
use smpp.Examples.Crates.{std_nom, std_nom_laws}
use smpp.Examples.Sides.{waiting, session, on_unbind, found}
use smpp.Examples.Messages.{data_response, data_response-IsValid, header_of}

data_sm_resp_delivered_example :
    handle_pdu std_nom on_unbind 1500 (session bound_rx) (DataResp.encode data_response) ≡ (
      deliver
          (some 1)
          (data_reply (record data_response { header = DataResp.sent_header data_response }))
          (record (session bound_rx) { pending = erase 7 (waiting ∷ []) }),
      go_on,
    )
data_sm_resp_delivered_example =
    data_sm_resp_delivered std_nom_laws on_unbind 1500 (session bound_rx) data_response waiting
      data_response-IsValid refl found refl

late-IsHeader : (id : CommandId) → IsHeader (header_of id)
late-IsHeader id = record {
  length_u32 = omega arith;
  id_u32 = id_of-IsU32 id;
  status_u32 = omega arith;
  sequence_u32 = omega arith;
}

refused_on_receiver_example :
    handle_pdu std_nom on_unbind 1500
      (session bound_rx)
      (Header.encode (header_of CommandId.submit_sm) ++ [])
    ≡ send_or_stop
        (session bound_rx)
        (HeaderOnly.encode (HeaderOnly.generic_nack_new esme_rinvcmdid 7))
refused_on_receiver_example =
    refused_on_receiver std_nom on_unbind 1500 (session bound_rx) CommandId.submit_sm
      (header_of CommandId.submit_sm) [] for_submit_sm refl (late-IsHeader CommandId.submit_sm) refl
      refl

cancel_sm_spawned_misread_example :
    handle_pdu std_nom on_unbind 1500
      (session bound_tx)
      (Header.encode (header_of CommandId.cancel_sm) ++ [])
    ≡ (spawn (session bound_tx) (on_cancel_sm (misread (header_of CommandId.cancel_sm))), go_on)
cancel_sm_spawned_misread_example =
    cancel_sm_spawned_misread std_nom_laws on_unbind 1500 (session bound_tx)
      (header_of CommandId.cancel_sm) [] refl (late-IsHeader CommandId.cancel_sm) refl (omega arith)
      refl refl

handle_pdu-IsStep_example :
    let pdu = HeaderOnly.encode (HeaderOnly.bare CommandId.enquire_link_resp esme_rok 7) in
    IsStep
      (number_in (Header.decode pdu))
      (session bound_tx)
      (handle_pdu std_nom on_unbind 1500 (session bound_tx) pdu).0
handle_pdu-IsStep_example =
    handle_pdu-IsStep std_nom on_unbind 1500 (session bound_tx)
      (HeaderOnly.encode (HeaderOnly.bare CommandId.enquire_link_resp esme_rok 7))

-- A handler that collects the PDUs.
abbrev collect : List Bytes → Bytes → List Bytes × Flow
collect seen pdu = (seen ++ (pdu ∷ []), go_on)

-- An enquire_link, and the first three bytes of what follows.
abbrev enquiry : Bytes
enquiry = 0 ∷ 0 ∷ 0 ∷ 16 ∷ 0 ∷ 0 ∷ 0 ∷ 21 ∷ 0 ∷ 0 ∷ 0 ∷ 0 ∷ 0 ∷ 0 ∷ 0 ∷ 7 ∷ []

drain_buffer_total_example :
    (t : List Bytes) × ((rest : Bytes) × ((f : Flow) × (Drains collect []
            (enquiry ++ (0 ∷ []))
            t
            rest
            f
          × (drain_buffer collect [] (enquiry ++ (0 ∷ [])) ≡ (t, (rest, f))))))
drain_buffer_total_example = drain_buffer_total collect [] (enquiry ++ (0 ∷ []))

drained : drain_buffer collect [] (enquiry ++ (0 ∷ [])) ≡ (enquiry ∷ [], (0 ∷ [], go_on))
unfolding drain_buffer next_pdu be_u32_at
drained = refl

drain_buffer-append_example :
    drain_buffer collect [] ((enquiry ++ (0 ∷ [])) ++ (0 ∷ []))
    ≡ drain_buffer collect (enquiry ∷ []) ((0 ∷ []) ++ (0 ∷ []))
drain_buffer-append_example =
    drain_buffer-append collect [] (enquiry ++ (0 ∷ [])) (0 ∷ []) (enquiry ∷ []) (0 ∷ []) drained

sweep_reports_example :
    (find 7 (sweep 9000 (session bound_tx)).pending ≡ none)
    × (told 7 (sweep 9000 (session bound_tx)).timeouts ≡ true)
unfolding find
sweep_reports_example = sweep_reports 9000 (session bound_tx) 7 waiting (refl, tt) found

-- A submit_sm that ends within its first text, and three bytes of the next PDU.
abbrev cut_short : Bytes
cut_short =
    0 ∷ 0 ∷ 0 ∷ 18 ∷ 0 ∷ 0 ∷ 0 ∷ 4 ∷ 0 ∷ 0 ∷ 0 ∷ 0 ∷ 0 ∷ 0 ∷ 0 ∷ 5 ∷ 200 ∷ 97 ∷ 0 ∷ 0 ∷ 0 ∷ []

drain_buffer-Survives_example :
    (drain_buffer (handle_pdu std_nom on_unbind 1500) (session bound_tx) cut_short).1.1 ≢ panicked
drain_buffer-Survives_example =
    drain_buffer-Survives std_nom_laws on_unbind 1500 (session bound_tx) cut_short
