-- ===== src/Caching/Overlap/Stale.antt =====
-- Two calls with the same arguments that overlap, and what comes of it.
use mathlib.Core.Logic.{if_pos, if_neg}
use kh_common.Prelude.{ℕ, ◌+◌, ◌≤◌, ◌<◌, ◌≡◌, ◌≢◌, refl, ap, ◌∙◌, List, [], ◌∷◌, arith, le→leb}
use kh_common.Prelude.Outcome.{returned}
use kh_common.Prelude.Dict.{get, set}
use kh_common.Caching.Expiry.{clear_cache}
use kh_common.Caching.Overlap.{
  Event, start, finish, served, initial, take_out, found, resume, step, final,
}

abbrev entry : {K V : Type 0} → ℕ → K → ℕ → V → K × (ℕ × V)
entry ttl k done v = (k, (done + ttl, v))

-- Two calls for `k`, one for `j` that comes in after the first of them has ended, and the second
-- for `k` that ends last.
abbrev pub overlapping : {E K V : Type 0} → K → K → V → V → V → ℕ → ℕ → ℕ → ℕ → List (Event E K V)
overlapping k j u v w t a b c =
    start k t
    ∷ start k t
    ∷ finish k a (returned u)
    ∷ start j a
    ∷ finish j b (returned v)
    ∷ finish k c (returned w)
    ∷ []

module _ (E : Type 0) {K V : Type 0} (dec : Discrete K) (ttl : ℕ) where
  started :
      (k : K) (t : ℕ) (ks : List K)
      → (step {E = E} {V = V} dec ttl (record { cache = []; waiting = ks }) (start k t)).1
        ≡ record { cache = []; waiting = k ∷ ks }
  unfolding step found clear_cache get
  started k t ks = refl

  ended_first :
      (k : K) (u : V) (a : ℕ)
      → (step {E = E} dec ttl
          (record { cache = []; waiting = k ∷ k ∷ [] })
          (finish k a (returned u))).1
        ≡ record { cache = entry ttl k a u ∷ []; waiting = k ∷ [] }
  unfolding step resume take_out set
  ended_first k u a = rw (if_pos (dec k k) refl) refl

  came_in :
      (k j : K) (u : V) (a : ℕ)
      → k ≢ j
      → (step {E = E} dec ttl
          (record { cache = entry ttl k a u ∷ []; waiting = k ∷ [] })
          (start j a)).1
        ≡ record { cache = entry ttl k a u ∷ []; waiting = j ∷ k ∷ [] }
  unfolding step found clear_cache get
  came_in k j u a n = rw (le→leb a (a + ttl) (omega arith), if_neg (dec k j) n) refl

  ended_other :
      (k j : K) (u v : V) (a b : ℕ)
      → k ≢ j
      → (step {E = E} dec ttl
          (record { cache = entry ttl k a u ∷ []; waiting = j ∷ k ∷ [] })
          (finish j b (returned v))).1
        ≡ record { cache = entry ttl k a u ∷ entry ttl j b v ∷ []; waiting = k ∷ [] }
  unfolding step resume take_out set
  ended_other k j u v a b n = rw (if_pos (dec j j) refl, if_neg (dec k j) n) refl

  ended_last :
      (k j : K) (u v w : V) (a b c : ℕ)
      → (step {E = E} dec ttl
          (record { cache = entry ttl k a u ∷ entry ttl j b v ∷ []; waiting = k ∷ [] })
          (finish k c (returned w))).1
        ≡ record { cache = entry ttl k c w ∷ entry ttl j b v ∷ []; waiting = [] }
  unfolding step resume take_out set
  ended_last k j u v w a b c = rw (if_pos (dec k k) refl, if_pos (dec k k) refl) refl

  final-overlapping :
      (k j : K) (u v w : V) (t a b c : ℕ)
      → k ≢ j
      → final dec ttl initial (overlapping {E = E} k j u v w t a b c)
        ≡ record { cache = entry ttl k c w ∷ entry ttl j b v ∷ []; waiting = [] }
  unfolding final
  final-overlapping k j u v w t a b c n =
      let e6 : List (Event E K V) = finish k c (returned w) ∷ [] in
      let e5 : List (Event E K V) = finish j b (returned v) ∷ e6 in
      let e4 : List (Event E K V) = start j a ∷ e5 in
      let e3 : List (Event E K V) = finish k a (returned u) ∷ e4 in
      ap (λ s. final dec ttl s (start k t ∷ e3)) (started k t [])
      ∙ (ap (λ s. final dec ttl s e3) (started k t (k ∷ []))
          ∙ (ap (λ s. final dec ttl s e4) (ended_first k u a)
              ∙ (ap (λ s. final dec ttl s e5) (came_in k j u a n)
                  ∙ (ap (λ s. final dec ttl s e6) (ended_other k j u v a b n)
                      ∙ ended_last k j u v w a b c))))

  served_stale :
      (k j : K) (v w : V) (b c now : ℕ)
      → k ≢ j
      → now ≤ c + ttl
      → (step {E = E} dec ttl
          (record { cache = entry ttl k c w ∷ entry ttl j b v ∷ []; waiting = [] })
          (start j now)).0
        ≡ served (returned v)
  unfolding step found clear_cache get
  served_stale k j v w b c now n q =
      rw (le→leb now (c + ttl) q, if_neg (dec k j) n, if_pos (dec j j) refl) refl

  -- The result of the call that ends last takes the place of the first one, before the entry of the
  -- other arguments: that entry is then served past its expiration, as long as the renewed one has
  -- not expired.
  pub overlapping_stale :
      (k j : K) (u v w : V) (t a b c now : ℕ)
      → k ≢ j
      → b + ttl < now
      → now ≤ c + ttl
      → (step {E = E} dec ttl
          (final dec ttl initial (overlapping {E = E} k j u v w t a b c))
          (start j now)).0
        ≡ served (returned v)
  overlapping_stale k j u v w t a b c now n p q =
      rw (final-overlapping k j u v w t a b c n) (served_stale k j v w b c now n q)
