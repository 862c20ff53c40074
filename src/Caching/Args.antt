-- ===== src/Caching/Args.antt =====
-- `ArgsCache` of kh_common/caching/__init__.py: one stored result for each tuple of arguments.
-- A call that is alone in the wrapper is modelled; the wrapper of a coroutine function and the plain
-- one are then the same code.
pub mod Refines
use mathlib.Core.Logic.{ite}
use kh_common.Prelude.{ℕ, ◌+◌, Option, none, some, List, [], ◌∷◌}
use kh_common.Prelude.Outcome.{Outcome, returned, raised}
use kh_common.Prelude.Dict.{get, set}
use kh_common.Caching.Expiry.{Cache, clear_cache}

-- One call: its arguments, the time that `__clear_cache__` reads, the time read after `func` has
-- returned, and what `func` does on these arguments if it is run.
pub record Call {ℓ} (E K V : Type ℓ) : Type ℓ where
  pub key : K
  pub now : ℕ
  pub done : ℕ
  pub outcome : Outcome E V

module _ {ℓ} {E K V : Type ℓ} (dec : Discrete K) (ttl : ℕ) where
  -- `data = func(…); cache[key] = (time() + TTL, data); return copy(data)`
  unfoldable pub compute : Cache K V → Call E K V → Outcome E V → Outcome E V × Cache K V
  compute cache c (returned v) = (returned v, set dec c.key (c.done + ttl, v) cache)
  compute cache c (raised e) = (raised e, cache)

  -- `if key in cache: return copy(cache[key][1])`
  unfoldable pub look : Cache K V → Call E K V → Option (ℕ × V) → Outcome E V × Cache K V
  unfolding compute
  look cache c (some e) = (returned e.1, cache)
  look cache c none = compute cache c c.outcome

  unfoldable pub call : Cache K V → Call E K V → Outcome E V × Cache K V
  unfolding look
  call cache c = let cleared = clear_cache c.now cache in look cleared c (get dec c.key cleared)

  -- What the callers of a sequence of calls see, one after another.
  unfoldable pub run : Cache K V → List (Call E K V) → List (Outcome E V)
  run cache [] = []
  run cache (c ∷ cs) = let (o, cache') = call cache c in o ∷ run cache' cs
