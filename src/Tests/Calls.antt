-- ===== src/Tests/Calls.antt =====
-- `ArgsCache` for calls that overlap and `KwargsCache` of kh_common/caching/__init__.py, at concrete
-- inputs.
use kh_common.Prelude.{
  ℕ, ◌+◌, ◌-◌, ◌*◌, ◌/◌, ◌≤◌, ◌≡◌, ◌≢◌, ap, ◌↔◌, refl, List, [], ◌∷◌, ℕ_discrete, arith,
}
use kh_common.Prelude.Lists.{length}
use kh_common.Prelude.Outcome.{returned}
use kh_common.Prelude.Dict
use kh_common.Prelude.Dict.{Dict}
use kh_common.Prelude.Text.{Text, Text-discrete, codes}
use kh_common.Caching.Expiry.{clear_cache}
use kh_common.Caching.Aggregate
use kh_common.Caching.Aggregate.{Arithmetic, sum_aggregator, value}
use kh_common.Caching.Aggregate.Sums.{IsAdditive}
use kh_common.Caching.Aggregate.Conserved.{sum_passed, sum_ran, effects-conserved}
use kh_common.Caching.Binding.{Signature, Arguments, bound}
use kh_common.Caching.Kwargs.{Value, mapping, end, entry, cache_key}
use kh_common.Caching.Kwargs.Canonical.{converted, cache_key-canonical}
use kh_common.Caching.Overlap.{
  Event, start, finish, served, initial, take_out, found, resume, step, final,
}
use kh_common.Caching.Overlap.Kept.{Happened}
use kh_common.Caching.Overlap.Timely.{start-Timely}
use kh_common.Caching.Overlap.Stale.{overlapping, overlapping_stale}

-- A call for 2 comes and goes while one for 1 waits.
abbrev events : List (Event ℕ ℕ ℕ)
events =
    start 1 3 ∷ start 2 4 ∷ finish 2 6 (returned 20) ∷ finish 1 9 (returned 10) ∷ start 2 10 ∷ []

start-Timely_example : (done : ℕ) × Happened (finish 1 done (returned 10)) events × (19 ≤ done + 10)
unfolding final step found resume take_out clear_cache Dict.get Dict.set ℕ_discrete
start-Timely_example =
    start-Timely ℕ_discrete 10 events 1 19 10 (ground arith) (ground arith)
      (refl, (refl, (tt, (tt, (refl, tt))))) refl

overlapping_stale_example :
    (step {E = ℕ} {V = ℕ} ℕ_discrete 10
      (final ℕ_discrete 10 initial (overlapping {E = ℕ} {V = ℕ} 1 2 7 8 9 0 3 5 12))
      (start 2 20)).0
    ≡ served (returned 8)
overlapping_stale_example =
    overlapping_stale ℕ ℕ_discrete 10 1 2 7 8 9 0 3 5 12 20 (λ h. omega arith) (omega arith)
      (omega arith)

abbrev signature : Signature (Value ℕ)
signature = record { names = codes "a" ∷ codes "b" ∷ []; defaults = (codes "b", Value.atom 2) ∷ [] }

abbrev options : Value ℕ
options =
    mapping (entry (codes "x") (Value.atom 1) (entry (codes "c") (Value.text (codes "y")) end))

abbrev by_position : Arguments (Value ℕ)
by_position = record { args = options ∷ []; kwargs = (codes "k", Value.atom 3) ∷ [] }

abbrev by_keyword : Arguments (Value ℕ)
by_keyword = record {
  args = [];
  kwargs = (codes "k", Value.atom 3) ∷ (codes "b", Value.atom 2) ∷ (codes "a", options) ∷ [];
}

cache_key-canonical_example : (cache_key signature by_position ≡ cache_key signature by_keyword) ↔ (
    (n : Text)
    → converted (Dict.get Text-discrete n (bound signature by_position))
      ≡ converted (Dict.get Text-discrete n (bound signature by_keyword)))
unfolding Dict.get
cache_key-canonical_example = cache_key-canonical signature by_position by_keyword (refl, tt)

abbrev natural : Arithmetic ℕ
natural = record {
  zero_value = 0;
  plus = λ a b. a + b;
  minus = λ a b. a - b;
  times = λ a b. a * b;
  over = λ a n. a / n;
  sqrt = λ a. a;
}

natural-IsAdditive : IsAdditive natural
natural-IsAdditive = record {
  assoc = λ a b c. omega arith;
  zero_left = λ a. omega arith;
  zero_right = λ a. omega arith;
}

abbrev sizes : List (Aggregate.Call ℕ)
sizes =
    record { args = 0 ∷ 5 ∷ []; kwargs = []; now = 10 }
    ∷ record { args = 0 ∷ []; kwargs = (codes "n", 3) ∷ []; now = 20 }
    ∷ record { args = 0 ∷ 70 ∷ []; kwargs = (codes "other", 1) ∷ []; now = 70 }
    ∷ record { args = 0 ∷ 4 ∷ []; kwargs = []; now = 75 }
    ∷ []

abbrev sums :
    Aggregate.Wrapper
      (sum_aggregator natural)
      60
      (codes "self" ∷ [])
      (codes "self" ∷ codes "n" ∷ [])
sums = record { expire = 60; held = [] }

self_ne : codes "self" ≢ codes "n"
self_ne h = let e : length (codes "self") ≡ length (codes "n") = ap length h in omega arith

effects-conserved_example :
    sum_ran natural (codes "n") (
        Aggregate.effects
          (sum_aggregator natural)
          60
          (codes "self" ∷ [])
          (codes "self" ∷ codes "n" ∷ [])
          sums
          sizes)
      + value natural
          (codes "n")
          (Aggregate.final
            (sum_aggregator natural)
            60
            (codes "self" ∷ [])
            (codes "self" ∷ codes "n" ∷ [])
            sums
            sizes).held
    ≡ value natural (codes "n") sums.held
      + sum_passed natural (codes "self" ∷ codes "n" ∷ []) (codes "n") sizes
unfolding Dict.get
effects-conserved_example =
    effects-conserved natural 60 (codes "self" ∷ []) (codes "self" ∷ codes "n" ∷ [])
      natural-IsAdditive (codes "n") sums sizes (self_ne, tt)
      (tt, ((refl, tt), ((refl, tt), (tt, tt)))) tt
