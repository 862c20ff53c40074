-- ===== src/Caching/Store/Overlap/Cached.antt =====
-- Caches all of whose values have a property that depends on the key.
use mathlib.Core.Logic.{if_pos, if_neg}
use mathlib.Core.Path.{subst}
use kh_common.Prelude.{ℕ, ◌≡◌, sym, Option, none, some, List, [], ◌∷◌, ◌++◌, arith}
use kh_common.Prelude.Lists.{All}
use kh_common.Prelude.Dict
use kh_common.Caching.Expiry.{Cache, clear_cache}

module _ {ℓ} {K V : Type ℓ} (dec : Discrete K) (P : K → V → Type 0) where
  pub All-append :
      (xs ys : List (K × V))
      → All (λ x. P x.0 x.1) xs
      → All (λ x. P x.0 x.1) ys
      → All (λ x. P x.0 x.1) (xs ++ ys)
  All-append [] ys p q = q
  All-append (x ∷ xs) ys p q = (p.0, All-append xs ys p.1 q)

  abbrev pub Cached : Cache K V → Type 0
  Cached = All (λ x. P x.0 x.1.1)

  pub Cached-clear_cache : (now : ℕ) (c : Cache K V) → Cached c → Cached (clear_cache now c)
  unfolding clear_cache
  Cached-clear_cache now [] p = tt
  Cached-clear_cache now ((k, e) ∷ c) p = ground (arith, Cached-clear_cache now c p.1)

  pub Cached-set :
      (k : K) (e : ℕ × V) (c : Cache K V) → P k e.1 → Cached c → Cached (Dict.set dec k e c)
  unfolding Dict.set
  Cached-set k e [] p q = (p, tt)
  Cached-set k e ((j, f) ∷ c) p q = elim (dec j k) [
    | yes r ↦ rw (if_pos _ r) (subst (λ i. P i e.1) (sym r) p, q.1)
    | no r ↦ rw (if_neg _ r) (q.0, Cached-set k e c p q.1)
  ]

  pub Cached-remove : (k : K) (c : Cache K V) → Cached c → Cached (Dict.remove dec k c)
  unfolding Dict.remove
  Cached-remove k [] p = tt
  Cached-remove k ((j, f) ∷ c) p = ground (arith, Cached-remove k c p.1)

  abbrev pub Of : K → Option (ℕ × V) → Type 0
  Of k none = Unit
  Of k (some e) = P k e.1

  pub Cached-get :
      (k : K) (e : ℕ × V) (c : Cache K V) → Cached c → Dict.get dec k c ≡ some e → P k e.1
  unfolding Dict.get
  Cached-get k e [] p h = cc
  Cached-get k e ((j, f) ∷ c) p h = elim (dec j k) [
    | yes r ↦
        let h' : some f ≡ some e = rw (if_pos _ r) at h in
        subst (λ i. P i e.1) r (subst (λ o. Of j o) h' p.0)
    | no r ↦ let h' : Dict.get dec k c ≡ some e = rw (if_neg _ r) at h in Cached-get k e c p.1 h'
  ]
