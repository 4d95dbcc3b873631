-- ===== src/Examples/Engines.antt =====
-- The theorems on the machinery of a session at concrete values.
use smpp.Client.Session.Survives.{client_drain-Survives}
use smpp.Base.{◌≡◌, ◌≢◌, refl, List, [], ◌∷◌, ◌++◌, arith, Bytes, true, false}
use smpp.Common.Error.{esme_rok}
use smpp.Common.Command.{CommandId, id_of-IsU32}
use smpp.Common.Header
use smpp.Common.Header.{IsHeader}
use smpp.Commands.HeaderOnly
use smpp.Server.Pending.{find, erase}
use smpp.Server.State.{bound_tx, go_on, panicked}
use smpp.Server.Handle.{time_out}
use smpp.Server.Handle.Steps.{IsStep, number_in}
use smpp.Server.Session as Server
use smpp.Server.ReadLoop.{drain_buffer, next_pdu}
use smpp.Server.ReadLoop.Chunks.{IsFramed}
use smpp.Client.Session as Client
use smpp.Client.Session.Branches.{answers_query_sm, answers_submit_sm}
use smpp.Client.Session.Answers.{answer_unknown, answer_late}
use smpp.Client.Session.Preserves.{client_handle_pdu-IsStep}
use smpp.Client.Smsc.{send_submit_sm, send_submit_sm_builder}
use smpp.Client.Smsc.Fluent.{send_submit_sm_builder_lem}
use smpp.Engine.Builder.{
  builder, with_service_type, with_source_addr_ton, with_source_addr_npi, with_source_addr,
  with_dest_addr_ton, with_dest_addr_npi, with_destination_addr, with_esm_class, with_protocol_id,
  with_priority_flag, with_schedule_delivery_time, with_validity_period, with_registered_delivery,
  with_replace_if_present_flag, with_data_coding, with_sm_default_msg_id, with_short_message,
}
use smpp.Engine.Ticker.{tick_all, forwarded, late}
use smpp.Engine.Ticker.Missed.{ticks_until_missed, at_round, enquiries, enquiry_frame}
use smpp.Engine.Rounds.CaughtUp.{run-IsCaughtUp, IsCaughtUp}
use smpp.Engine.Handshake.{first, first_pdu}
use smpp.Engine.Handshake.Chunks.{Chunk, reads_of, all_bytes, first_pdu-reads_of}
use smpp.Engine.Rounds.{run}
use smpp.Engine.Rounds.Silence.{run-IsSilent}
use smpp.Examples.Crates.{std_nom, std_nom_laws}
use smpp.Examples.Messages.{header_of, cmt, alice, bob}
use smpp.Examples.Sides.{session, waiting, found, on_unbind, peer, started, idle, busy}

late-IsHeader : (id : CommandId) → IsHeader (header_of id)
late-IsHeader id = record {
  length_u32 = omega arith;
  id_u32 = id_of-IsU32 id;
  status_u32 = omega arith;
  sequence_u32 = omega arith;
}

client_handle_pdu-IsStep_example :
    let pdu = HeaderOnly.encode (HeaderOnly.bare CommandId.unbind_resp esme_rok 7) in
    IsStep
      (number_in (Header.decode pdu))
      (session bound_tx)
      (Client.handle_pdu std_nom on_unbind 1500 (session bound_tx) pdu).0
client_handle_pdu-IsStep_example =
    client_handle_pdu-IsStep std_nom on_unbind 1500 (session bound_tx)
      (HeaderOnly.encode (HeaderOnly.bare CommandId.unbind_resp esme_rok 7))

answer_unknown_example :
    Client.handle_pdu std_nom on_unbind 1500
      (record (session bound_tx) { pending = [] })
      (Header.encode (header_of CommandId.query_sm_resp) ++ [])
    ≡ (record (session bound_tx) { pending = [] }, go_on)
unfolding find
answer_unknown_example =
    answer_unknown std_nom on_unbind 1500 (record (session bound_tx) { pending = [] })
      answers_query_sm (header_of CommandId.query_sm_resp) [] refl
      (late-IsHeader CommandId.query_sm_resp) refl refl refl

answer_late_example :
    Client.handle_pdu std_nom on_unbind 9000
      (session bound_tx)
      (Header.encode (header_of CommandId.submit_sm_resp) ++ [])
    ≡ (time_out (record (session bound_tx) { pending = erase 7 (waiting ∷ []) }) 7, go_on)
answer_late_example =
    answer_late std_nom on_unbind 9000 (session bound_tx) answers_submit_sm
      (header_of CommandId.submit_sm_resp) [] refl (late-IsHeader CommandId.submit_sm_resp) refl
      refl waiting found refl

-- An enquire_link in two chunks, and a byte of what follows.
abbrev front : Chunk
front = record { head = 0; tail = 0 ∷ 0 ∷ [] }

abbrev back : Chunk
back = record { head = 16; tail = 0 ∷ 0 ∷ 0 ∷ 21 ∷ 0 ∷ 0 ∷ 0 ∷ 0 ∷ 0 ∷ 0 ∷ 0 ∷ 7 ∷ 5 ∷ [] }

abbrev enquiry : Bytes
enquiry = 0 ∷ 0 ∷ 0 ∷ 16 ∷ 0 ∷ 0 ∷ 0 ∷ 21 ∷ 0 ∷ 0 ∷ 0 ∷ 0 ∷ 0 ∷ 0 ∷ 0 ∷ 7 ∷ []

enquiry-IsFramed : IsFramed enquiry
unfolding HeaderOnly.encode Header.encode
enquiry-IsFramed = (HeaderOnly.bare_sent CommandId.enquire_link esme_rok 7 (omega arith)).framed

first_pdu-reads_of_example :
    (left : Bytes) × ((ds : List Chunk) × ((first_pdu [] (reads_of (front ∷ back ∷ []))
          ≡ first enquiry left (reads_of ds))
        × (left ++ all_bytes ds ≡ 5 ∷ [])))
first_pdu-reads_of_example =
    first_pdu-reads_of (front ∷ back ∷ []) [] enquiry (5 ∷ []) enquiry-IsFramed refl

run-IsSilent_example :
    (run
      (λ now. Server.handle_pdu std_nom on_unbind now)
      3000
      (started bound_tx)
      ((idle 2000 ∷ []) ++ (idle 4001 ∷ []))).1
    ≡ false
run-IsSilent_example =
    run-IsSilent (λ now. Server.handle_pdu std_nom on_unbind now) 3000 (idle 2000 ∷ [])
      (started bound_tx) (idle 4001) (refl, tt) refl (omega arith)

send_submit_sm_builder_lem_example :
    send_submit_sm_builder peer (
      with_short_message (104 ∷ 105 ∷ []) (
        with_sm_default_msg_id 0 (
          with_data_coding 0 (
            with_replace_if_present_flag 0 (
              with_registered_delivery 1 (
                with_validity_period [] (
                  with_schedule_delivery_time [] (
                    with_priority_flag 0 (
                      with_protocol_id 0 (
                        with_esm_class 0 (
                          with_destination_addr bob (
                            with_dest_addr_npi 1 (
                              with_dest_addr_ton 1 (
                                with_source_addr alice (
                                  with_source_addr_npi 1 (
                                    with_source_addr_ton 1
                                      (with_service_type cmt builder)))))))))))))))))
    ≡ send_submit_sm peer cmt 1 1 alice 1 1 bob 0 0 0 [] [] 1 0 0 0 (104 ∷ 105 ∷ [])
send_submit_sm_builder_lem_example =
    send_submit_sm_builder_lem peer cmt 1 1 alice 1 1 bob 0 0 0 [] [] 1 0 0 0 (104 ∷ 105 ∷ [])

-- A submit_sm_resp with no message_id, and three bytes of the next PDU.
abbrev no_id : Bytes
no_id = 0 ∷ 0 ∷ 0 ∷ 16 ∷ 128 ∷ 0 ∷ 0 ∷ 4 ∷ 0 ∷ 0 ∷ 0 ∷ 0 ∷ 0 ∷ 0 ∷ 0 ∷ 7 ∷ 0 ∷ 0 ∷ 0 ∷ []

client_drain-Survives_example :
    (drain_buffer (Client.handle_pdu std_nom on_unbind 1500) (session bound_tx) no_id).1.1
    ≢ panicked
client_drain-Survives_example =
    client_drain-Survives std_nom_laws on_unbind 1500 (session bound_tx) no_id

ticks_until_missed_example :
    let sent = enquiries 9 0 2 in
    (tick_all peer (forwarded 9 ∷ forwarded 10 ∷ []) ≡ (at_round peer sent 11, true))
    × (tick_all peer (forwarded 9 ∷ forwarded 10 ∷ forwarded 9 ∷ late ∷ [])
        ≡ (at_round peer (sent ++ (enquiry_frame 11 ∷ [])) 12, false))
ticks_until_missed_example =
    ticks_until_missed peer 2 (forwarded 9) (late ∷ []) refl (omega arith) (λ q. cc)

run-IsCaughtUp_example :
    IsCaughtUp 1600
      (run
        (λ now. Server.handle_pdu std_nom on_unbind now)
        3000
        (started bound_tx)
        ((idle 1200 ∷ []) ++ (busy 1600 ∷ []))).0
unfolding run next_pdu
run-IsCaughtUp_example =
    run-IsCaughtUp (λ now. Server.handle_pdu std_nom on_unbind now) 3000 (idle 1200 ∷ [])
      (started bound_tx) (busy 1600) 0 (0 ∷ 0 ∷ []) refl refl
