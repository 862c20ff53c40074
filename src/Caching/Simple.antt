-- ===== src/Caching/Simple.antt =====
-- `SimpleCache` of kh_common/caching/__init__.py: one stored result for all arguments. The wrapper
-- of a coroutine function holds the lock over the whole test and update, so it and the plain
-- wrapper are one function here.
pub mod Window
use kh_common.Prelude.{ℕ, ◌+◌, Option, none, some, List, [], ◌∷◌, ltb, if◌then◌else◌}
use kh_common.Prelude.Outcome.{Outcome, returned, raised}

-- `decorator.expire` and `decorator.data`, which is None at first
pub record State {ℓ} (V : Type ℓ) : Type ℓ where
  pub expire : ℕ
  pub data_ : Option V

abbrev pub initial {ℓ} : {V : Type ℓ} → State V
initial = record { expire = 0; data_ = none }

-- One call of the wrapper: the two readings of `time()`, and what `func` does if it is run.
pub record Call {ℓ κ} (E : Type ℓ) (V : Type κ) : Type (ℓ ⊔ κ) where
  pub now : ℕ
  pub run_at : ℕ
  pub outcome : Outcome E V

module _ {ℓ} {E V : Type ℓ} (ttl : ℕ) where
  -- `decorator.data = func(…)` is reached with `decorator.expire` already moved.
  store : State V → Outcome E V → Outcome E (Option V) × State V
  store s (returned v) = (returned (some v), record s { data_ = some v })
  store s (raised e) = (raised e, s)

  unfoldable pub call : State V → Call E V → Outcome E (Option V) × State V
  unfolding store
  call s c =
      if ltb s.expire c.now
      then store (record s { expire = c.run_at + ttl }) c.outcome
      else (returned s.data_, s)

  -- The calls of a sequence in which `func` was run.
  unfoldable pub executed : State V → List (Call E V) → List (Call E V)
  executed s [] = []
  executed s (c ∷ cs) =
      let rest = executed (call s c).1 cs in if ltb s.expire c.now then c ∷ rest else rest

  -- The state after a sequence of calls.
  unfoldable pub final : State V → List (Call E V) → State V
  final s [] = s
  final s (c ∷ cs) = final (call s c).1 cs
