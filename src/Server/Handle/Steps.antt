-- ===== src/Server/Handle/Steps.antt =====
-- What one PDU may change of a session (server/state.rs and client/mod.rs), for each shape of branch.
use smpp.Base.{
  ℕ, ◌≡◌, ◌⊎◌, inl, inr, refl, Bool, true, false, Option, none, some, [], ◌∷◌, ◌++◌, Bytes, Result,
  ok, err, panic, if◌then◌else◌, Bool-cases,
}
use smpp.Common.Error.{SmppError}
use smpp.Common.Header.{CommandHeader}
use smpp.Commands.HeaderOnly.{HeaderOnly}
use smpp.Server.Pending.{Entry, find, erase, lapsed}
use smpp.Server.State.{Session, Reply, Task, Flow, send_or_stop, send, spawn}
use smpp.Server.Handle.{
  handle_request, handle_response, handle_enquire_link, handle_enquire_link_resp, handle_unbind,
  time_out, deliver, complete, answer_entry, close_enquiry, refuse_by_submit, submit_reject,
}

-- At most one PDU is sent; at most one entry, that of the sequence number `n`, is taken off the map;
-- the binding and the timer stay.
pub record IsStep (n : ℕ) (s t : Session) : Type 0 where
  pub same_bound_type : t.bound_type ≡ s.bound_type
  pub same_timer : t.response_timer ≡ s.response_timer
  pub same_writer : t.writer_open ≡ s.writer_open
  pub sends_at_most_one : (t.sent ≡ s.sent) ⊎ ((pdu : Bytes) × (t.sent ≡ s.sent ++ (pdu ∷ [])))
  pub takes_at_most_one : (t.pending ≡ s.pending) ⊎ (t.pending ≡ erase n s.pending)

pub stays-IsStep : (n : ℕ) (s : Session) → IsStep n s s
stays-IsStep n s = record {
  same_bound_type = refl;
  same_timer = refl;
  same_writer = refl;
  sends_at_most_one = inl refl;
  takes_at_most_one = inl refl;
}

pub if-IsStep :
    (n : ℕ) (s : Session) (b : Bool) (x y : Session)
    → IsStep n s x
    → IsStep n s y
    → IsStep n s (if b then x else y)
if-IsStep n s true x y i j = i
if-IsStep n s false x y i j = j

pub send-IsStep : (n : ℕ) (s : Session) (pdu : Bytes) → IsStep n s (send s pdu)
unfolding send
send-IsStep n s pdu =
    if-IsStep n s s.writer_open _ _
      (record {
        same_bound_type = refl;
        same_timer = refl;
        same_writer = refl;
        sends_at_most_one = inr (pdu, refl);
        takes_at_most_one = inl refl;
      })
      (stays-IsStep n s)

pub send_or_stop-IsStep : (n : ℕ) (s : Session) (pdu : Bytes) → IsStep n s (send_or_stop s pdu).0
unfolding send_or_stop
send_or_stop-IsStep n s pdu = send-IsStep n s pdu

pub spawn-IsStep : (n : ℕ) (s : Session) (t : Task) → IsStep n s (spawn s t)
unfolding spawn
spawn-IsStep n s t = record {
  same_bound_type = refl;
  same_timer = refl;
  same_writer = refl;
  sends_at_most_one = inl refl;
  takes_at_most_one = inl refl;
}

pub handle_request-IsStep {ℓ} :
    {A : Type ℓ} (n : ℕ) (task : A → Task) (reject : SmppError → Bytes) (r : Result SmppError A)
    (s : Session)
    → IsStep n s (handle_request task reject r s).0
unfolding handle_request
handle_request-IsStep n task reject (ok a) s = spawn-IsStep n s (task a)
handle_request-IsStep n task reject (err e) s = send_or_stop-IsStep n s (reject e)
handle_request-IsStep n task reject panic s = stays-IsStep n s

pub send-pending : (s : Session) (pdu : Bytes) → (send s pdu).pending ≡ s.pending
unfolding send
send-pending s pdu = elim (Bool-cases s.writer_open) [ inl w ↦ simp (w) | inr w ↦ simp (w) ]

-- The same step, seen from the session before an entry was taken.
pub after_erase :
    (n : ℕ) (s t : Session)
    → IsStep n (record s { pending = erase n s.pending }) t
    → t.pending ≡ erase n s.pending
    → IsStep n s t
after_erase n s t i e = record {
  same_bound_type = i.same_bound_type;
  same_timer = i.same_timer;
  same_writer = i.same_writer;
  sends_at_most_one = i.sends_at_most_one;
  takes_at_most_one = inr e;
}

-- How a branch may answer a response that it cannot decode.
abbrev pub IsPolite : (SmppError → Session → Session × Flow) → Type 0
IsPolite refused =
    (n : ℕ) (e : SmppError) (t : Session)
    → IsStep n t (refused e t).0 × ((refused e t).0.pending ≡ t.pending)

pub deliver-IsStep :
    (n : ℕ) (channel : Option ℕ) (reply : Reply) (s : Session)
    → IsStep n s (deliver channel reply (record s { pending = erase n s.pending }))
deliver-IsStep n none reply s = after_erase n s _ (stays-IsStep n _) refl
deliver-IsStep n (some c) reply s =
    after_erase n s _
      (record {
        same_bound_type = refl;
        same_timer = refl;
        same_writer = refl;
        sends_at_most_one = inl refl;
        takes_at_most_one = inl refl;
      })
      refl

pub complete-IsStep :
    (n : ℕ) (channel : Option ℕ) (refused : SmppError → Session → Session × Flow)
    (decoded : Result SmppError Reply) (s : Session)
    → IsPolite refused
    → IsStep n s (complete channel refused decoded (record s { pending = erase n s.pending })).0
complete-IsStep n channel refused (ok reply) s polite = deliver-IsStep n channel reply s
complete-IsStep n channel refused (err e) s polite =
    let (i, same) = polite n e (record s { pending = erase n s.pending }) in
    after_erase n s _ i same
complete-IsStep n channel refused panic s polite = after_erase n s _ (stays-IsStep n _) refl

pub time_out-IsStep :
    (n : ℕ) (s : Session) → IsStep n s (time_out (record s { pending = erase n s.pending }) n)
unfolding time_out
time_out-IsStep n s = record {
  same_bound_type = refl;
  same_timer = refl;
  same_writer = refl;
  sends_at_most_one = inl refl;
  takes_at_most_one = inr refl;
}

pub branch-IsStep :
    (n : ℕ) (s : Session) (b : Bool) (x y : Session × Flow)
    → IsStep n s x.0
    → IsStep n s y.0
    → IsStep n s (if b then x else y).0
branch-IsStep n s true x y i j = i
branch-IsStep n s false x y i j = j

pub answer_entry-IsStep :
    (now n : ℕ) (refused : SmppError → Session → Session × Flow) (decoded : Result SmppError Reply)
    (s : Session) (found : Option Entry)
    → IsPolite refused
    → IsStep n s (answer_entry now n refused decoded s found).0
answer_entry-IsStep now n refused decoded s none polite = stays-IsStep n s
answer_entry-IsStep now n refused decoded s (some entry) polite =
    branch-IsStep n s (lapsed now s.response_timer entry) _ _ (time_out-IsStep n s)
      (complete-IsStep n entry.reply_to refused decoded s polite)

pub handle_response-IsStep :
    (now n : ℕ) (refused : SmppError → Session → Session × Flow) (decoded : Result SmppError Reply)
    (s : Session)
    → IsPolite refused
    → IsStep n s (handle_response now n refused decoded s).0
unfolding handle_response
handle_response-IsStep now n refused decoded s polite =
    answer_entry-IsStep now n refused decoded s (find n s.pending) polite

pub told-IsStep :
    (n m : ℕ) (s t : Session)
    → IsStep n (record s { enquire_link_resps = s.enquire_link_resps ++ (m ∷ []) }) t
    → IsStep n s t
told-IsStep n m s t i = record {
  same_bound_type = i.same_bound_type;
  same_timer = i.same_timer;
  same_writer = i.same_writer;
  sends_at_most_one = i.sends_at_most_one;
  takes_at_most_one = i.takes_at_most_one;
}

pub close_enquiry-IsStep :
    (now n : ℕ) (s : Session) (found : Option Entry) → IsStep n s (close_enquiry now n s found).0
close_enquiry-IsStep now n s none = stays-IsStep n s
close_enquiry-IsStep now n s (some entry) =
    if-IsStep n s (lapsed now s.response_timer entry) _ _ (time_out-IsStep n s)
      (after_erase n s _ (stays-IsStep n _) refl)

pub handle_enquire_link_resp-IsStep :
    (now n : ℕ) (s : Session) → IsStep n s (handle_enquire_link_resp now n s).0
unfolding handle_enquire_link_resp
handle_enquire_link_resp-IsStep now n s =
    told-IsStep n n s _ (close_enquiry-IsStep now n _ (find n s.pending))

pub handle_enquire_link-IsStep :
    (m n : ℕ) (r : Result SmppError HeaderOnly) (s : Session)
    → IsStep m s (handle_enquire_link n r s).0
unfolding handle_enquire_link
handle_enquire_link-IsStep m n (ok p) s = send_or_stop-IsStep m s _
handle_enquire_link-IsStep m n (err e) s = send_or_stop-IsStep m s _
handle_enquire_link-IsStep m n panic s = stays-IsStep m s

pub aborted-IsStep :
    (m : ℕ) (s t : Session) → IsStep m (record s { ticker_aborted = true }) t → IsStep m s t
aborted-IsStep m s t i = record {
  same_bound_type = i.same_bound_type;
  same_timer = i.same_timer;
  same_writer = i.same_writer;
  sends_at_most_one = i.sends_at_most_one;
  takes_at_most_one = i.takes_at_most_one;
}

pub abort-IsStep :
    (m : ℕ) (s t : Session) → IsStep m s t → IsStep m s (record t { ticker_aborted = true })
abort-IsStep m s t i = record {
  same_bound_type = i.same_bound_type;
  same_timer = i.same_timer;
  same_writer = i.same_writer;
  sends_at_most_one = i.sends_at_most_one;
  takes_at_most_one = i.takes_at_most_one;
}

pub handle_unbind-IsStep :
    (on_unbind : HeaderOnly → HeaderOnly) (m n : ℕ) (r : Result SmppError HeaderOnly) (s : Session)
    → IsStep m s (handle_unbind on_unbind n r s).0
unfolding handle_unbind
handle_unbind-IsStep on_unbind m n (ok p) s = aborted-IsStep m s _ (send-IsStep m _ _)
handle_unbind-IsStep on_unbind m n (err e) s = aborted-IsStep m s _ (send-IsStep m _ _)
handle_unbind-IsStep on_unbind m n panic s = aborted-IsStep m s _ (stays-IsStep m _)

pub refuse_by_submit-IsPolite : (n : ℕ) → IsPolite (refuse_by_submit n)
unfolding send_or_stop
refuse_by_submit-IsPolite n m e t =
    (send-IsStep m t (submit_reject n e), send-pending t (submit_reject n e))

-- The same of what a branch gives.
pub record After (n : ℕ) (s : Session) (x : Session × Flow) : Type 0 where
  pub step : IsStep n s x.0

pub branch-After :
    (n : ℕ) (s : Session) (b : Bool) (x y : Session × Flow)
    → After n s x
    → After n s y
    → After n s (if b then x else y)
branch-After n s true x y i j = i
branch-After n s false x y i j = j

pub request-After {ℓ} :
    {A : Type ℓ} (n : ℕ) (task : A → Task) (reject : SmppError → Bytes) (r : Result SmppError A)
    (s : Session)
    → After n s (handle_request task reject r s)
request-After n task reject r s = record { step = handle_request-IsStep n task reject r s }

pub response-After :
    (now n : ℕ) (refused : SmppError → Session → Session × Flow) (decoded : Result SmppError Reply)
    (s : Session)
    → IsPolite refused
    → After n s (handle_response now n refused decoded s)
response-After now n refused decoded s polite = record {
  step = handle_response-IsStep now n refused decoded s polite;
}

-- The sequence number of a header that was read.
abbrev pub number_in : Result SmppError CommandHeader → ℕ
number_in (ok h) = h.sequence_number
number_in (err e) = 0
number_in panic = 0
