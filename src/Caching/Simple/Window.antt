-- ===== src/Caching/Simple/Window.antt =====
-- How often `SimpleCache` runs the function, and what a failure leaves behind.
use kh_common.Prelude.{
  ap, ◌∙◌, true, false, ℕ, ◌+◌, ◌<◌, ◌≤◌, ◌≡◌, refl, Option, some, List, [], ◌∷◌, ltb, arith,
  Bool-cases, inl, inr,
}
use kh_common.Prelude.Outcome.{returned, raised}
use kh_common.Caching.Simple.{State, Call, call, executed, final}

module _ {ℓ} {E V : Type ℓ} (ttl : ℕ) where
  -- The first run is after `t`, and each later one more than the TTL after the one before it.
  abbrev pub Spaced : ℕ → List (Call E V) → Type 0
  Spaced t [] = Unit
  Spaced t (c ∷ cs) = (t < c.now) × Spaced (c.run_at + ttl) cs

  expire-call_run :
      (s : State V) (c : Call E V)
      → ltb s.expire c.now ≡ true
      → (call ttl s c).1.expire ≡ c.run_at + ttl
  unfolding call
  expire-call_run s c h = ground arith

  call_kept : (s : State V) (c : Call E V) → ltb s.expire c.now ≡ false → (call ttl s c).1 ≡ s
  unfolding call
  call_kept s c h = ground arith

  -- Whatever the arguments, the times and the failures, two runs of the function are more than the
  -- TTL apart, and the first is after the expiration that the cache started with.
  pub executed-Spaced : (s : State V) (cs : List (Call E V)) → Spaced s.expire (executed ttl s cs)
  unfolding executed
  executed-Spaced s [] = tt
  executed-Spaced s (c ∷ cs) = elim (Bool-cases (ltb s.expire c.now)) [
    | inl run ↦
        rw run (ground arith, rw (← expire-call_run s c run) (executed-Spaced (call ttl s c).1 cs))
    | inr kept ↦ rw (kept, call_kept s c kept) (executed-Spaced s cs)
  ]

  pub stored_by : Option V → Call E V → Option V
  stored_by d c = elim c.outcome [ returned v ↦ some v | raised e ↦ d ]

  -- The result of the last of the calls that returned, or `d` if none did.
  abbrev pub latest : Option V → List (Call E V) → Option V
  latest d [] = d
  latest d (c ∷ cs) = latest (stored_by d c) cs

  data-call_run :
      (s : State V) (c : Call E V)
      → ltb s.expire c.now ≡ true
      → (call ttl s c).1.data_ ≡ stored_by s.data_ c
  unfolding call stored_by
  data-call_run s c h = ground arith

  data-final :
      (s : State V) (cs : List (Call E V))
      → (final ttl s cs).data_ ≡ latest s.data_ (executed ttl s cs)
  unfolding final executed
  data-final s [] = refl
  data-final s (c ∷ cs) = elim (Bool-cases (ltb s.expire c.now)) [
    | inl run ↦ rw run (
        data-final (call ttl s c).1 cs
        ∙ ap (λ d. latest d (executed ttl (call ttl s c).1 cs)) (data-call_run s c run))
    | inr kept ↦
        rw (kept, call_kept s c kept)
          (ap (λ (s' : State V). (final ttl s' cs).data_) (call_kept s c kept) ∙ data-final s cs)
  ]

  -- After any calls, a caller within the TTL is given the result of the last run that returned
  -- (what was stored at the start, if no run did), and the function is not run.
  pub call-final :
      (s : State V) (cs : List (Call E V)) (c : Call E V)
      → c.now ≤ (final ttl s cs).expire
      → call ttl (final ttl s cs) c
        ≡ (returned (latest s.data_ (executed ttl s cs)), final ttl s cs)
  unfolding call
  call-final s cs c h = rw (← data-final s cs) (ground arith)

  -- A run that raises still moves the expiration: the exception reaches its own caller only, and
  -- every caller for a TTL after it is given the old value, which is None at the start.
  pub call_after_raise :
      (s : State V) (c d : Call E V) (e : E)
      → s.expire < c.now
      → c.outcome ≡ raised e
      → d.now ≤ c.run_at + ttl
      → ((call ttl s c).0 ≡ raised e) × ((call ttl (call ttl s c).1 d).0 ≡ returned s.data_)
  unfolding call
  call_after_raise s c d e h r w = ground arith
