-- ===== src/Tests/Queues.antt =====
-- The queue of kh_common/telegram/__init__.py at concrete inputs.
use kh_common.Prelude.{ℕ, ◌≡◌, refl, none, List, [], ◌∷◌, ◌++◌, false, arith, ℕ_discrete}
use kh_common.Telegram.Queue.{
  Update, updates, Ending, parsed, quit, State, initial, Event, ask, reply, work, terminate, idle,
  busy, ended, over, set_phase, parse_without, step, run, on_ask, on_reply, receive, after_last,
  process, take_update, end_parse, parser_of, add_failure,
}
use kh_common.Telegram.Queue.Ascending.{Ascending, run-Ascending}
use kh_common.Telegram.Queue.Drained.{run-Drained}

abbrev update : ℕ → Update
update n = record { update_id = n; message = none }

-- Two replies, the second asked for from 9 on, and a parsing that fails.
abbrev events : List Event
events =
    ask
    ∷ reply (updates (update 5 ∷ update 8 ∷ []))
    ∷ work 0 parsed
    ∷ ask
    ∷ work 0 Ending.failed
    ∷ work 1 parsed
    ∷ reply (updates (update 9 ∷ []))
    ∷ terminate
    ∷ []

run-Ascending_example : Ascending 0 ((run initial events).taken ++ (run initial events).queue)
unfolding step on_ask on_reply receive after_last process take_update end_parse parser_of
    add_failure
run-Ascending_example = run-Ascending events (ground arith)

-- Worker 1 in a parsing, the others idle, and one update in the queue.
abbrev terminated : State
terminated = record {
  alive = false;
  queue = update 9 ∷ [];
  mostrecent = 10;
  receiver = over;
  worker = set_phase 1 (busy (update 8)) (λ i. idle);
  taken = update 5 ∷ update 8 ∷ [];
  parses = parse_without ∷ [];
  failures = [];
}

abbrev turns_left : List Event
turns_left = work 1 quit ∷ work 0 parsed ∷ work 0 parsed ∷ work 0 parsed ∷ work 0 parsed ∷ []

run-Drained_example :
    ((run terminated turns_left).worker 0 ≡ ended)
    × ((run terminated turns_left).queue ≡ [])
    × ((run terminated turns_left).taken ≡ terminated.taken ++ terminated.queue)
unfolding ℕ_discrete
run-Drained_example = run-Drained 0 terminated turns_left refl (λ e. cc) tt (ground arith)
