-- ===== src/Caching/Expiry.antt =====
-- `__clear_cache__` of kh_common/utilities/__init__.py, over an `OrderedDict` of (expiration, value).
-- Times are whole ticks of the clock.
pub mod Fresh
use kh_common.Prelude.{
  ℕ, ◌≤◌, ◌<◌, ◌≡◌, refl, List, [], ◌∷◌, ◌++◌, Option, none, some, Bool, true, false, arith, leb,
  if◌then◌else◌, Bool-cases, inl, inr, le→leb, lt→leb_false,
}
use kh_common.Prelude.Dict.{Dict, get, set, Unique}

-- (expiration time, cached response data)
abbrev pub Cache {ℓ} : Type ℓ → Type ℓ → Type ℓ
Cache K V = Dict K (ℕ × V)

module _ {ℓ} {K V : Type ℓ} where
  -- The loop looks at the first entry alone: it stops at one that has not expired, and otherwise
  -- deletes it. `now` was read once, before the loop.
  unfoldable pub clear_cache : ℕ → Cache K V → Cache K V
  clear_cache now [] = []
  clear_cache now ((k, e) ∷ c) = if leb now e.0 then (k, e) ∷ c else clear_cache now c

  -- Every entry expires no later than `t`.
  abbrev pub Below : ℕ → Cache K V → Type 0
  Below t [] = Unit
  Below t ((k, e) ∷ c) = (e.0 ≤ t) × Below t c

  -- Every entry expires no earlier than `t`.
  abbrev pub Above : ℕ → Cache K V → Type 0
  Above t [] = Unit
  Above t ((k, e) ∷ c) = (t ≤ e.0) × Above t c

  -- The entries stand in the order of their expiration.
  abbrev pub Ordered : Cache K V → Type 0
  Ordered [] = Unit
  Ordered ((k, e) ∷ c) = Above e.0 c × Ordered c

  pub Above-le : (s t : ℕ) (c : Cache K V) → s ≤ t → Above t c → Above s c
  Above-le s t [] h a = tt
  Above-le s t ((k, e) ∷ c) h a = (omega arith, Above-le s t c h a.1)
