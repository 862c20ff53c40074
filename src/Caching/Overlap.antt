-- ===== src/Caching/Overlap.antt =====
-- `ArgsCache` of kh_common/caching/__init__.py around a coroutine function, for calls that overlap: a
-- caller that finds no entry waits for the function, and other callers come in the meantime. Between
-- two awaits a wrapper runs alone, so a run is a sequence of two kinds of events. No await stands
-- between the lookup and the clearing, so the lock keeps no two callers apart that the event loop
-- does not.
pub mod Waiting
pub mod Kept
pub mod Timely
pub mod Stale
use mathlib.Core.Logic.{ite}
use kh_common.Prelude.{ℕ, ◌+◌, ◌≡◌, Option, none, some, List, [], ◌∷◌}
use kh_common.Prelude.Outcome.{Outcome, returned, raised}
use kh_common.Prelude.Dict.{get, set}
use kh_common.Caching.Expiry.{Cache, clear_cache}

-- A call comes in at a time; or the function, run for a call with these arguments, ends, and its
-- caller goes on at a time.
pub data Event (E K V : Type 0) : Type 0 where
  start : K → ℕ → Event E K V
  finish : K → ℕ → Outcome E V → Event E K V

-- What the caller of an event is given; the function cannot end for a caller that does not wait.
pub data Answer (E V : Type 0) : Type 0 where
  served : Outcome E V → Answer E V
  waits : Answer E V
  impossible : Answer E V

-- `decorator.cache`, and the arguments of the calls that wait for the function.
pub record State (K V : Type 0) : Type 0 where
  pub cache : Cache K V
  pub waiting : List K

abbrev pub initial : {K V : Type 0} → State K V
initial = record { cache = []; waiting = [] }

-- One call with these arguments waits no longer.
unfoldable pub take_out : {K : Type 0} → Discrete K → K → List K → Option (List K)
take_out dec k [] = none
take_out dec k (j ∷ ks) =
    ite (dec j k) (some ks) (elim (take_out dec k ks) [ none ↦ none | some rest ↦ some (j ∷ rest) ])

module _ {E K V : Type 0} (dec : Discrete K) (ttl : ℕ) where
  -- `if key in decorator.cache: return copy(decorator.cache[key][1])`, and `await func(…)`
  unfoldable pub found : K → State K V → Option (ℕ × V) → Answer E V × State K V
  found k s (some e) = (served (returned e.1), s)
  found k s none = (waits, record s { waiting = k ∷ s.waiting })

  -- `decorator.cache[key] = (time() + TTL, data); return copy(data)`
  unfoldable pub resume : K → ℕ → Outcome E V → State K V → Option (List K) → Answer E V × State K V
  resume k done o s none = (impossible, s)
  resume k done (raised e) s (some rest) = (served (raised e), record s { waiting = rest })
  resume k done (returned v) s (some rest) =
      (served (returned v), record { cache = set dec k (done + ttl, v) s.cache; waiting = rest })

  unfoldable pub step : State K V → Event E K V → Answer E V × State K V
  unfolding found resume take_out
  step s (start k now) =
      let cleared = clear_cache now s.cache in
      found k (record s { cache = cleared }) (get dec k cleared)
  step s (finish k done o) = resume k done o s (take_out dec k s.waiting)

  unfoldable pub final : State K V → List (Event E K V) → State K V
  unfolding step
  final s [] = s
  final s (e ∷ es) = final (step s e).1 es
