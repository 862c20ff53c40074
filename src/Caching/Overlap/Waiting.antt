-- ===== src/Caching/Overlap/Waiting.antt =====
-- The calls that wait for their function in `ArgsCache`, and the keys they will set.
use mathlib.Core.Logic.{if_pos, if_neg}
use kh_common.Prelude.{
  ℕ, ◌≡◌, ◌≢◌, refl, sym, ◌∙◌, inl, inr, none, some, List, [], ◌∷◌, Option-cases,
}
use kh_common.Prelude.Lists.{All}
use kh_common.Prelude.Dict.{get, set, Unique, get-set_ne}
use kh_common.Caching.Expiry.{Cache, clear_cache, Ordered}
use kh_common.Caching.Expiry.Fresh.{get-clear_cache}
use kh_common.Caching.Overlap.{take_out}

module _ {K : Type 0} (dec : Discrete K) where
  -- No two calls that wait have the same arguments.
  abbrev pub Distinct : List K → Type 0
  Distinct [] = Unit
  Distinct (k ∷ ks) = All (λ j. j ≢ k) ks × Distinct ks

  pub take_out-none : (k : K) (ks : List K) → take_out dec k ks ≡ none → All (λ j. j ≢ k) ks
  unfolding take_out
  take_out-none k [] h = tt
  take_out-none k (j ∷ ks) h = elim (dec j k) [
    | yes p ↦ let h' : some ks ≡ none = rw (if_pos (dec j k) p) at h in cc
    | no p ↦ elim (Option-cases (take_out dec k ks)) [
      | inl m ↦ (p, take_out-none k ks m)
      | inr (r, m) ↦ let h' : some (j ∷ r) ≡ none = rw (if_neg (dec j k) p, m) at h in cc
    ]
  ]

  pub take_out-All :
      (P : K → Type 0) (k : K) (ks rest : List K)
      → take_out dec k ks ≡ some rest
      → All P ks
      → P k × All P rest
  unfolding take_out
  take_out-All P k [] rest h a = cc
  take_out-All P k (j ∷ ks) rest h a = elim (dec j k) [
    | yes p ↦
        let h' : some ks ≡ some rest = rw (if_pos (dec j k) p) at h in
        let q : ks ≡ rest = cc in (rw (← p) a.0, rw (← q) a.1)
    | no p ↦ elim (Option-cases (take_out dec k ks)) [
      | inl m ↦ let h' : none ≡ some rest = rw (if_neg (dec j k) p, m) at h in cc
      | inr (r, m) ↦
          let h' : some (j ∷ r) ≡ some rest = rw (if_neg (dec j k) p, m) at h in
          let q : (j ∷ r) ≡ rest = cc in
          let (b, c) = take_out-All P k ks r m a.1 in (b, rw (← q) (a.0, c))
    ]
  ]

  pub take_out-Distinct :
      (k : K) (ks rest : List K)
      → take_out dec k ks ≡ some rest
      → Distinct ks
      → All (λ j. j ≢ k) rest × Distinct rest
  unfolding take_out
  take_out-Distinct k [] rest h d = cc
  take_out-Distinct k (j ∷ ks) rest h d = elim (dec j k) [
    | yes p ↦
        let h' : some ks ≡ some rest = rw (if_pos (dec j k) p) at h in
        let q : ks ≡ rest = cc in rw (← q, ← p) (d.0, d.1)
    | no p ↦ elim (Option-cases (take_out dec k ks)) [
      | inl m ↦ let h' : none ≡ some rest = rw (if_neg (dec j k) p, m) at h in cc
      | inr (r, m) ↦
          let h' : some (j ∷ r) ≡ some rest = rw (if_neg (dec j k) p, m) at h in
          let q : (j ∷ r) ≡ rest = cc in
          let (b, c) = take_out-Distinct k ks r m d.1 in
          let (e, f) = take_out-All (λ i. i ≢ j) k ks r m d.0 in rw (← q) ((p, b), (f, c))
    ]
  ]

module _ {K V : Type 0} (dec : Discrete K) where
  -- The key is not in the cache.
  abbrev pub Absent : Cache K V → K → Type 0
  Absent cache k = get dec k cache ≡ none

  pub Absent-clear_cache :
      (now : ℕ) (cache : Cache K V) (ks : List K)
      → Ordered cache
      → Unique dec cache
      → All (Absent cache) ks
      → All (Absent (clear_cache now cache)) ks
  Absent-clear_cache now cache [] o u a = tt
  Absent-clear_cache now cache (k ∷ ks) o u a =
      (get-clear_cache dec now k cache o u ∙ rw a.0 refl, Absent-clear_cache now cache ks o u a.1)

  pub Absent-set :
      (k : K) (e : ℕ × V) (cache : Cache K V) (ks : List K)
      → All (λ j. j ≢ k) ks
      → All (Absent cache) ks
      → All (Absent (set dec k e cache)) ks
  Absent-set k e cache [] d a = tt
  Absent-set k e cache (j ∷ ks) d a =
      (get-set_ne dec k j e cache (λ p. d.0 (sym p)) ∙ a.0, Absent-set k e cache ks d.1 a.1)
