-- ===== src/Engine/Ticker.antt =====
-- The enquire_link ticker of server/state.rs and client/mod.rs: one round a tick, until one fails.
pub mod Missed
use smpp.Base.{
  Bool-cases, inl, inr, ◌&&◌, refl, ℕ, ◌≡◌, Bool, true, false, none, List, [], ◌∷◌, ◌++◌, ◌==◌,
  if◌then◌else◌,
}
use smpp.Commands.HeaderOnly
use smpp.Engine.Sequence.{fetch_add}
use smpp.Engine.Frame.{request_frame}
use smpp.Engine.Request.{Peer}

-- `timeout(response_timer, enquire_link_rx.recv())`: the sequence number of a response that the read loop
-- forwards, the channel closed, or no response in time.
pub data Forwarded : Type 0 where
  forwarded : ℕ → Forwarded
  closed : Forwarded
  late : Forwarded

-- The response must have the number of the round.
abbrev pub is_alive : ℕ → Forwarded → Bool
is_alive n (forwarded m) = m == n
is_alive n closed = false
is_alive n late = false

-- One round: an enquire_link is sent under the next number, and whether the ticker goes on.
unfoldable pub tick : Peer → Forwarded → Peer × Bool
tick peer response =
    let n = peer.sequence_number in
    let taken = record peer { sequence_number = fetch_add n } in
    if peer.channel_open
    then (
      record taken {
        frames =
            peer.frames
            ++ (request_frame n (HeaderOnly.encode (HeaderOnly.enquire_link_new n)) none ∷ []);
      },
      is_alive n response,
    )
    else (taken, false)

-- The rounds of the ticker, by what each one is forwarded; `true` if it is still running.
unfoldable pub tick_all : Peer → List Forwarded → Peer × Bool
unfolding tick
tick_all peer [] = (peer, true)
tick_all peer (r ∷ rs) =
    let (peer', alive) = tick peer r in
    let rest = tick_all peer' rs in if alive then rest else (peer', false)
