-- ===== src/Caching/Expiry/Fresh.antt =====
-- What is left after `__clear_cache__`, for a cache whose entries stand in the order of their
-- expiration.
use mathlib.Core.Logic.{if_pos, if_neg}
use kh_common.Prelude.{
  leb→le, sym, ◌∙◌, ℕ, ◌≤◌, ◌≡◌, refl, [], ◌∷◌, ◌++◌, Option, none, some, arith, leb, if◌then◌else◌,
  Bool-cases, inl, inr,
}
use kh_common.Prelude.Dict.{get, Unique}
use kh_common.Caching.Expiry.{Cache, clear_cache, Below, Above, Ordered, Above-le}

-- An entry as a reader at time `now` may see it.
abbrev pub fresh {ℓ} : {V : Type ℓ} → ℕ → Option (ℕ × V) → Option (ℕ × V)
fresh now none = none
fresh now (some e) = if leb now e.0 then some e else none

module _ {ℓ} {K V : Type ℓ} where
  -- No entry that has expired is left of a cache whose entries stand in the order of expiration.
  pub clear_cache-Above : (now : ℕ) (c : Cache K V) → Ordered c → Above now (clear_cache now c)
  unfolding clear_cache
  clear_cache-Above now [] o = tt
  clear_cache-Above now ((k, e) ∷ c) o = elim (Bool-cases (leb now e.0)) [
    | inl keep ↦ rw keep (ground arith, Above-le now e.0 c (ground arith) o.0)
    | inr drop ↦ rw drop (clear_cache-Above now c o.1)
  ]

  pub clear_cache-Ordered : (now : ℕ) (c : Cache K V) → Ordered c → Ordered (clear_cache now c)
  unfolding clear_cache
  clear_cache-Ordered now [] o = tt
  clear_cache-Ordered now ((k, e) ∷ c) o = ground (arith, clear_cache-Ordered now c)

  pub clear_cache-Below : (now t : ℕ) (c : Cache K V) → Below t c → Below t (clear_cache now c)
  unfolding clear_cache
  clear_cache-Below now t [] b = tt
  clear_cache-Below now t ((k, e) ∷ c) b = ground (arith, clear_cache-Below now t c)

  pub Below-le : (s t : ℕ) (c : Cache K V) → s ≤ t → Below s c → Below t c
  Below-le s t [] h b = tt
  Below-le s t ((k, e) ∷ c) h b = (omega arith, Below-le s t c h b.1)

  Above-append :
      (s : ℕ) (k : K) (e : ℕ × V) (c : Cache K V) → s ≤ e.0 → Above s c → Above s (c ++ (k, e) ∷ [])
  Above-append s k e [] h a = (h, tt)
  Above-append s k e ((j, f) ∷ c) h a = (a.0, Above-append s k e c h a.1)

  pub append-Ordered :
      (k : K) (e : ℕ × V) (c : Cache K V) → Below e.0 c → Ordered c → Ordered (c ++ (k, e) ∷ [])
  append-Ordered k e [] b o = (tt, tt)
  append-Ordered k e ((j, f) ∷ c) b o =
      (Above-append f.0 k e c b.0 o.0, append-Ordered k e c b.1 o.1)

  pub append-Below :
      (k : K) (e : ℕ × V) (c : Cache K V) → Below e.0 c → Below e.0 (c ++ (k, e) ∷ [])
  append-Below k e [] b = omega arith
  append-Below k e ((j, f) ∷ c) b = (b.0, append-Below k e c b.1)

module _ {ℓ} {K V : Type ℓ} (dec : Discrete K) where
  pub clear_cache-Unique : (now : ℕ) (c : Cache K V) → Unique dec c → Unique dec (clear_cache now c)
  unfolding clear_cache
  clear_cache-Unique now [] u = tt
  clear_cache-Unique now ((k, e) ∷ c) u = ground (arith, clear_cache-Unique now c)

  fresh-Above :
      (now t : ℕ) (k : K) (c : Cache K V)
      → now ≤ t
      → Above t c
      → fresh now (get dec k c) ≡ get dec k c
  unfolding get
  fresh-Above now t k [] h a = refl
  fresh-Above now t k ((j, e) ∷ c) h a = ground (arith, fresh-Above now t k c)

  -- A lookup after the clearing finds what was there, unless it has expired.
  pub get-clear_cache :
      (now : ℕ) (k : K) (c : Cache K V)
      → Ordered c
      → Unique dec c
      → get dec k (clear_cache now c) ≡ fresh now (get dec k c)
  unfolding clear_cache get
  get-clear_cache now k [] o u = refl
  get-clear_cache now k ((j, e) ∷ c) o u = elim (Bool-cases (leb now e.0)) [
    | inl keep ↦ elim (dec j k) [
      | yes p ↦ rw (keep, if_pos _ p, keep)
      | no p ↦ rw (keep, if_neg _ p) (sym (fresh-Above now e.0 k c (leb→le _ _ keep) o.0))
    ]
    | inr drop ↦ elim (dec j k) [
      | yes p ↦ rw (drop, if_pos _ p, drop) (get-clear_cache now k c o.1 u.1 ∙ rw (← p, u.0))
      | no p ↦ rw (drop, if_neg _ p) (get-clear_cache now k c o.1 u.1)
    ]
  ]
