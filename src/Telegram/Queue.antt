-- ===== src/Telegram/Queue.antt =====
-- `run`, `recv` and `processQueue` of kh_common/telegram/__init__.py: one coroutine that asks Telegram
-- for updates and several that work on them, with a queue in between, until the process is
-- terminated. Between two awaits a coroutine runs alone, so a run is a sequence of such bits. Waiting
-- times, logging and the aggregation of the queue's size are left out.
pub mod Ascending
pub mod Progress
pub mod Drained
use mathlib.Core.Logic.{ite}
use kh_common.Prelude.{
  ℕ, suc, ◌+◌, Option, none, some, List, [], ◌∷◌, ◌++◌, Bool, true, false, ◌||◌, not, if◌then◌else◌,
  ℕ_discrete,
}
use kh_common.Telegram.Commands.{Message}

pub record Update : Type 0 where
  pub update_id : ℕ
  pub message : Option Message

-- How the request of `recv` ends: an exception, a reply that is not ok, or one with updates.
pub data Reply : Type 0 where
  failed : Reply
  not_ok : Reply
  updates : List Update → Reply

-- How the parsing of an update ends: it returns, raises QuitParsing, or raises anything else.
pub data Ending : Type 0 where
  parsed quit failed : Ending

-- Where a `processQueue` stands: at the test of its loop, in a parsing, or at its end.
pub data Phase : Type 0 where
  idle : Phase
  busy : Update → Phase
  ended : Phase

-- Where `recv` stands: at the test of its loop, in a request, or at its end.
pub data Receiver : Type 0 where
  ready asking over : Receiver

-- `parseMessage` or `parseUpdateWithoutMessage`
pub data Parser : Type 0 where
  parse_message : Message → Parser
  parse_without : Parser

-- `worker` gives the phase of each `processQueue`. `taken`, `parses` and `failures` record what the
-- workers did: the updates that they took from the queue, the parsers that they ran to an end, and
-- the updates that were logged as failed.
pub record State : Type 0 where
  pub alive : Bool
  pub queue : List Update
  pub mostrecent : ℕ
  pub receiver : Receiver
  pub worker : ℕ → Phase
  pub taken : List Update
  pub parses : List Parser
  pub failures : List Update

abbrev pub initial : State
initial = record {
  alive = true;
  queue = [];
  mostrecent = 0;
  receiver = ready;
  worker = λ i. idle;
  taken = [];
  parses = [];
  failures = [];
}

-- One coroutine goes on: `recv` from its test or from its request, or the i-th worker, whose parsing
-- ends this way if it is in one; or the signal to terminate comes in.
pub data Event : Type 0 where
  ask : Event
  reply : Reply → Event
  work : ℕ → Ending → Event
  terminate : Event

abbrev pub set_phase : ℕ → Phase → (ℕ → Phase) → ℕ → Phase
set_phase i p worker j = ite (ℕ_discrete i j) p (worker j)

-- `updates.result[-1].update_id + 1`
unfoldable pub after_last : Update → List Update → ℕ
after_last u [] = u.update_id + 1
after_last u (v ∷ us) = after_last v us

-- `recv` from its request to its next test
unfoldable pub receive : Reply → State → State
unfolding after_last
receive (updates (u ∷ us)) s = record s {
  mostrecent = after_last u us;
  queue = s.queue ++ u ∷ us;
  receiver = ready;
}
receive r s = record s { receiver = ready }

unfoldable pub on_reply : Reply → Receiver → State → State
unfolding receive
on_reply r asking s = receive r s
on_reply r _ s = s

-- `while Terminated.alive`
unfoldable pub on_ask : Receiver → State → State
on_ask ready s = if s.alive then record s { receiver = asking } else record s { receiver = over }
on_ask _ s = s

unfoldable pub parser_of : Option Message → Parser
parser_of (some m) = parse_message m
parser_of none = parse_without

unfoldable pub add_failure : Update → Ending → List Update → List Update
add_failure u failed us = us ++ u ∷ []
add_failure u _ us = us

-- The parsing has ended; what it raised is caught.
unfoldable pub end_parse : ℕ → Update → Ending → State → State
unfolding parser_of add_failure
end_parse i u ending s = record s {
  worker = set_phase i idle s.worker;
  parses = s.parses ++ parser_of u.message ∷ [];
  failures = add_failure u ending s.failures;
}

-- `while Terminated.alive or not self.queue.empty()`, and `get_nowait`
unfoldable pub take_update : ℕ → List Update → State → State
take_update i [] s = if s.alive then s else record s { worker = set_phase i ended s.worker }
take_update i (u ∷ us) s = record s {
  queue = us;
  worker = set_phase i (busy u) s.worker;
  taken = s.taken ++ u ∷ [];
}

unfoldable pub process : ℕ → Ending → Phase → State → State
unfolding end_parse take_update
process i ending idle s = take_update i s.queue s
process i ending (busy u) s = end_parse i u ending s
process i ending ended s = s

unfoldable pub step : State → Event → State
unfolding on_ask on_reply process
step s ask = on_ask s.receiver s
step s (reply r) = on_reply r s.receiver s
step s (work i ending) = process i ending (s.worker i) s
step s terminate = record s { alive = false }

unfoldable pub run : State → List Event → State
unfolding step
run s [] = s
run s (e ∷ es) = run (step s e) es
