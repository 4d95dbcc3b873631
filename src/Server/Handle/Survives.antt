-- ===== src/Server/Handle/Survives.antt =====
-- The shapes of the branches of the read loops (server/state.rs and client/mod.rs), and panics.
use smpp.Base.{ℕ, ◌≢◌, Bool, true, false, Option, none, some, Bytes, Result, if◌then◌else◌}
use smpp.Common.Error.{SmppError}
use smpp.Common.Settles.{Settles, gives, refuses}
use smpp.Commands.HeaderOnly.{HeaderOnly}
use smpp.Server.Pending.{Entry, find, lapsed}
use smpp.Server.State.{
  Session, Reply, Task, Flow, go_on, writer_dead, unbound, panicked, send_or_stop,
}
use smpp.Server.Handle.{
  handle_request, handle_response, handle_enquire_link, handle_enquire_link_resp, handle_unbind,
  complete, answer_entry, close_enquiry, as_reply,
}

-- The ways to come out of a PDU, but for a panic.
pub data Survives : Session × Flow → Type 0 where
  alive : (s : Session) → Survives (s, go_on)
  dead : (s : Session) → Survives (s, writer_dead)
  over : (s : Session) → Survives (s, unbound)

pub Survives-flow : {x : Session × Flow} → Survives x → x.1 ≢ panicked
Survives-flow (alive s) = λ q. cc
Survives-flow (dead s) = λ q. cc
Survives-flow (over s) = λ q. cc

pub if-Survives :
    (b : Bool) (x y : Session × Flow) → Survives x → Survives y → Survives (if b then x else y)
if-Survives true x y i j = i
if-Survives false x y i j = j

by_writer-Survives : (b : Bool) (t : Session) → Survives (t, if b then go_on else writer_dead)
by_writer-Survives true t = alive t
by_writer-Survives false t = dead t

pub send_or_stop-Survives : (s : Session) (pdu : Bytes) → Survives (send_or_stop s pdu)
unfolding send_or_stop
send_or_stop-Survives s pdu = by_writer-Survives s.writer_open _

pub handle_request-Survives {ℓ} :
    {A : Type ℓ} (task : A → Task) (reject : SmppError → Bytes) (r : Result SmppError A)
    (s : Session)
    → Settles r
    → Survives (handle_request task reject r s)
unfolding handle_request
handle_request-Survives task reject r s (gives a) = alive _
handle_request-Survives task reject r s (refuses e) = send_or_stop-Survives s (reject e)

pub as_reply-Settles {ℓ} :
    {A : Type ℓ} (f : A → Reply) (r : Result SmppError A) → Settles r → Settles (as_reply f r)
as_reply-Settles f r (gives a) = gives (f a)
as_reply-Settles f r (refuses e) = refuses e

complete-Survives :
    (channel : Option ℕ) (refused : SmppError → Session → Session × Flow)
    (decoded : Result SmppError Reply) (s : Session)
    → ((e : SmppError) (t : Session) → Survives (refused e t))
    → Settles decoded
    → Survives (complete channel refused decoded s)
complete-Survives channel refused decoded s polite (gives reply) = alive _
complete-Survives channel refused decoded s polite (refuses e) = polite e s

answer_entry-Survives :
    (now n : ℕ) (refused : SmppError → Session → Session × Flow) (decoded : Result SmppError Reply)
    (s : Session) (found : Option Entry)
    → ((e : SmppError) (t : Session) → Survives (refused e t))
    → Settles decoded
    → Survives (answer_entry now n refused decoded s found)
answer_entry-Survives now n refused decoded s none polite d = alive s
answer_entry-Survives now n refused decoded s (some entry) polite d =
    if-Survives (lapsed now s.response_timer entry) _ _ (alive _)
      (complete-Survives entry.reply_to refused decoded _ polite d)

pub handle_response-Survives :
    (now n : ℕ) (refused : SmppError → Session → Session × Flow) (decoded : Result SmppError Reply)
    (s : Session)
    → ((e : SmppError) (t : Session) → Survives (refused e t))
    → Settles decoded
    → Survives (handle_response now n refused decoded s)
unfolding handle_response
handle_response-Survives now n refused decoded s polite d =
    answer_entry-Survives now n refused decoded s (find n s.pending) polite d

close_enquiry-Survives :
    (now n : ℕ) (s : Session) (found : Option Entry) → Survives (close_enquiry now n s found)
close_enquiry-Survives now n s none = alive s
close_enquiry-Survives now n s (some entry) = alive _

pub handle_enquire_link_resp-Survives :
    (now n : ℕ) (s : Session) → Survives (handle_enquire_link_resp now n s)
unfolding handle_enquire_link_resp
handle_enquire_link_resp-Survives now n s = close_enquiry-Survives now n _ (find n s.pending)

pub handle_enquire_link-Survives :
    (n : ℕ) (r : Result SmppError HeaderOnly) (s : Session)
    → Settles r
    → Survives (handle_enquire_link n r s)
unfolding handle_enquire_link
handle_enquire_link-Survives n r s (gives p) = send_or_stop-Survives s _
handle_enquire_link-Survives n r s (refuses e) = send_or_stop-Survives s _

pub handle_unbind-Survives :
    (on_unbind : HeaderOnly → HeaderOnly) (n : ℕ) (r : Result SmppError HeaderOnly) (s : Session)
    → Settles r
    → Survives (handle_unbind on_unbind n r s)
unfolding handle_unbind
handle_unbind-Survives on_unbind n r s (gives p) = over _
handle_unbind-Survives on_unbind n r s (refuses e) = over _
