-- ===== src/Timing.antt =====
-- `Timer` of kh_common/timing/__init__.py. What the clock reads is an argument, in whole ticks, and a
-- difference of times is given by its two ends, since it may be negative; the quotient by the unit is
-- a parameter.
use kh_common.Prelude.{ℕ, zero, suc, Option, none, some}
use kh_common.Prelude.Outcome.{Outcome, returned, raised}

-- The TypeError of a timer that was not started
pub data TimerError : Type 0 where
  type_error : TimerError

pub record Timer : Type 0 where
  pub start : Option ℕ
  pub end : Option ℕ

-- `__init__`
unfoldable pub new_timer : Timer
new_timer = record { start = none; end = none }

unfoldable pub start_timer : ℕ → Timer → Timer
start_timer now timer = record timer { start = some now }

unfoldable pub end_timer : ℕ → Timer → Timer
end_timer now timer = record timer { end = some now }

-- `self._end or time()`; an end of 0 counts as none.
unfoldable pub end_or : Option ℕ → ℕ → ℕ
end_or none now = now
end_or (some zero) now = now
end_or (some (suc t)) now = suc t

-- `elapsed`; `quotient` takes the end, the start and the unit.
unfoldable pub elapsed :
    {Unit_ Time : Type 0} → (ℕ → ℕ → Unit_ → Time) → Unit_ → ℕ → Timer → Outcome TimerError Time
unfolding end_or
elapsed quotient unit now timer = elim timer.start [
  | none ↦ raised type_error
  | some t ↦ returned (quotient (end_or timer.end now) t unit)
]
