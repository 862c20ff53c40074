-- ===== src/Tests/Caches.antt =====
-- kh_common/caching/__init__.py and utilities/__init__.py at concrete inputs.
use kh_common.Prelude.{ℕ, ◌≡◌, none, List, [], ◌∷◌, ℕ_discrete, arith}
use kh_common.Prelude.Outcome.{returned, raised}
use kh_common.Caching.Simple
use kh_common.Caching.Simple.Window.{Spaced, latest, executed-Spaced, call-final}
use kh_common.Caching.Args
use kh_common.Caching.Args.Refines.{remember, run-remember}

abbrev simple_calls : List (Simple.Call ℕ ℕ)
simple_calls =
    record { now = 3; run_at = 3; outcome = returned 7 }
    ∷ record { now = 8; run_at = 8; outcome = returned 8 }
    ∷ record { now = 20; run_at = 21; outcome = raised 1 }
    ∷ []

executed-Spaced_example : Spaced 10 0 (Simple.executed 10 Simple.initial simple_calls)
executed-Spaced_example = executed-Spaced 10 Simple.initial simple_calls

abbrev late_call : Simple.Call ℕ ℕ
late_call = record { now = 30; run_at = 30; outcome = returned 9 }

call-final_example : Simple.call 10 (Simple.final 10 Simple.initial simple_calls) late_call ≡ (
  returned (latest 10 none (Simple.executed 10 Simple.initial simple_calls)),
  Simple.final 10 Simple.initial simple_calls,
)
unfolding Simple.final Simple.call
call-final_example = call-final 10 Simple.initial simple_calls late_call (omega arith)

abbrev args_calls : List (Args.Call ℕ ℕ ℕ)
args_calls =
    record { key = 1; now = 0; done = 2; outcome = returned 7 }
    ∷ record { key = 2; now = 2; done = 2; outcome = raised 5 }
    ∷ record { key = 1; now = 9; done = 9; outcome = returned 8 }
    ∷ record { key = 1; now = 30; done = 31; outcome = returned 9 }
    ∷ []

run-remember_example : Args.run ℕ_discrete 10 [] args_calls ≡ remember ℕ_discrete 10 [] args_calls
run-remember_example = run-remember ℕ_discrete 10 args_calls (ground arith)
