-- ===== src/Examples/Sides.antt =====
-- Two sides of a connection, with which the theorems on sessions are applied.
use smpp.Base.{IsU32, ℕ, ◌≡◌, refl, some, [], ◌∷◌, true, false}
use smpp.Commands.HeaderOnly
use smpp.Commands.HeaderOnly.{HeaderOnly}
use smpp.Base.{ok}
use smpp.Utf8.{is_utf8}
use smpp.Common.Command.{CommandId, id_of}
use smpp.Common.CString.{is_c_string}
use smpp.Commands.Bind.{BindRequest, new, transceiver}
use smpp.Commands.Bind.Laws.{IsText}
use smpp.Commands.SubmitSm
use smpp.Commands.SubmitSm.Response as SubmitResp
use smpp.Examples.Messages.{alice, bob, submission, submission-IsValid}
use smpp.Engine.Rounds.{Turn, Loop, got, timed_out}
use smpp.Link.Submit.{on_wire, numbered-IsValid}
use smpp.Link.Window.{Exchange, IsAccepted}
use smpp.Link.Pipeline.{IsSubmission}
use smpp.Server.Pending.{Entry, find}
use smpp.Server.State.{BoundType, Session}
use smpp.Engine.Request.{Peer}

-- A caller waits for number 7 since the time 1000, on channel 1.
abbrev pub waiting : Entry
waiting = record { sequence_number = 7; since = 1000; reply_to = some 1 }

abbrev pub session : BoundType → Session
session bound = record {
  bound_type = bound;
  response_timer = 2000;
  pending = waiting ∷ [];
  writer_open = true;
  sent = [];
  spawned = [];
  timeouts = [];
  replies = [];
  enquire_link_resps = [];
  ticker_aborted = false;
}

abbrev pub on_unbind : HeaderOnly → HeaderOnly
on_unbind p = HeaderOnly.unbind_accept p

pub found : find 7 (waiting ∷ []) ≡ some waiting
unfolding find
found = refl

-- A caller's side of a session.
abbrev pub peer : Peer
peer = record {
  allowed = true;
  channel_open = true;
  frames = [];
  sequence_number = 9;
  next_channel = 4;
}

-- What `new` gives for a bind as a transceiver.
abbrev pub login : BindRequest
login = record {
  header = record {
    command_length = 31;
    command_id = id_of CommandId.bind_transceiver;
    command_status = 0;
    sequence_number = 1;
  };
  system_id = bob;
  password = alice;
  system_type = [];
  interface_version = 0x34;
  addr_ton = 1;
  addr_npi = 1;
  address_range = [];
}

pub login-new : new transceiver 1 bob alice [] 1 1 [] ≡ ok login
unfolding new
login-new = refl

pub login-IsText : IsText login
unfolding is_utf8
login-IsText = record {
  system_id_text = refl;
  password_text = refl;
  system_type_text = refl;
  address_range_text = refl;
}

pub bob-text : is_c_string bob ≡ true
unfolding is_utf8
bob-text = refl

pub alice-text : is_c_string alice ≡ true
unfolding is_utf8
alice-text = refl

-- How the submission is accepted under the caller's number.
abbrev pub accepted : SubmitResp.SubmitSmResp
accepted = record {
  header = record {
    command_length = 20;
    command_id = id_of CommandId.submit_sm_resp;
    command_status = 0;
    sequence_number = 9;
  };
  message_id = some bob;
}

pub accepted-accept : SubmitResp.accept (on_wire peer submission) bob ≡ ok accepted
unfolding SubmitResp.accept SubmitSm.set_sequence_number SubmitSm.sent_header
accepted-accept = refl

abbrev pub started : BoundType → Loop
started bound = record { session = session bound; buffer = []; last_read = 1000 }

-- A turn in which nothing is read.
abbrev pub idle : ℕ → Turn
idle time = record {
  writes = [];
  read = timed_out;
  now = time;
  alive = true;
  ticker_finished = false;
}

-- A turn in which three bytes are read.
abbrev pub busy : ℕ → Turn
busy time = record {
  writes = [];
  read = got (0 ∷ 0 ∷ 0 ∷ []);
  now = time;
  alive = true;
  ticker_finished = false;
}

-- The exchange of the submission under a number, for the caller behind a channel.
abbrev pub exchange : ℕ → ℕ → Exchange
exchange n channel = record {
  submitted = SubmitSm.set_sequence_number submission n;
  message_id = bob;
  response = record {
    header = record {
      command_length = 20;
      command_id = id_of CommandId.submit_sm_resp;
      command_status = 0;
      sequence_number = n;
    };
    message_id = some bob;
  };
  since = 1000;
  channel = channel;
}

pub exchange-IsAccepted : (n channel : ℕ) → IsU32 n → IsAccepted (exchange n channel)
unfolding SubmitResp.accept SubmitSm.set_sequence_number SubmitSm.sent_header
exchange-IsAccepted n channel small = record { small = small; text = bob-text; accepted = refl }

pub exchange-IsSubmission : (n channel : ℕ) → IsU32 n → IsSubmission (exchange n channel).submitted
unfolding SubmitSm.set_sequence_number SubmitSm.sent_header
exchange-IsSubmission n channel small = record {
  valid = numbered-IsValid submission n small submission-IsValid;
  own_id = refl;
}
