-- ===== src/Caching/Aerospike/Held.antt =====
-- What the calls of `AerospikeCache` leave of an entry of the local cache that has not expired.
use kh_common.Prelude.{
  ℕ, arith, ◌+◌, ◌≤◌, ◌≡◌, ◌≢◌, refl, ap, ◌∙◌, Option, none, some, List, [], ◌∷◌, true, Bool-cases,
  inl, inr,
}
use kh_common.Prelude.Outcome.{Outcome, returned, raised}
use kh_common.Prelude.Dict
use kh_common.Caching.Binding.{Arguments, bound}
use kh_common.Caching.Expiry.{clear_cache}
use kh_common.Caching.Store
use kh_common.Caching.Store.{StoreError, record_not_found, other_error, Client, Store}
use kh_common.Caching.Store.Reads.{get_hit, get-clear_cache_live}
use kh_common.Caching.Aerospike.{Settings, Times, after_put, compute, decide, with_key, call}

module _ {E K V A : Type 0} (dec : Discrete K) (client : Client K V)
    (settings : Settings E K V A) where
  -- The local cache has this entry for the key.
  abbrev pub Holds : K → ℕ × V → Store dec client → Type 0
  Holds key e s = Dict.get dec key s.cache ≡ some e

  keep-Holds :
      (later : ℕ) (key j : K) (e : ℕ × V) (w : V) (s : Store dec client)
      → j ≢ key
      → Holds key e s
      → Holds key e (Store.keep dec client later j w s)
  unfolding Store.keep
  keep-Holds later key j e w s n h = Dict.get-set_ne dec j key _ s.cache n ∙ h

  after_get-Holds :
      (later : ℕ) (key j : K) (e : ℕ × V) (o : Outcome StoreError V) (s : Store dec client)
      → j ≢ key
      → Holds key e s
      → Holds key e (Store.after_get dec client later j o s).1
  unfolding Store.after_get
  after_get-Holds later key j e (returned w) s n h = keep-Holds later key j e w s n h
  after_get-Holds later key j e (raised x) s n h = h

  look-Holds :
      (later : ℕ) (key j : K) (e : ℕ × V) (o : Option (ℕ × V)) (s : Store dec client)
      → j ≢ key
      → Holds key e s
      → Holds key e (Store.look dec client later j o s).1
  unfolding Store.look
  look-Holds later key j e (some f) s n h = h
  look-Holds later key j e none s n h = after_get-Holds later key j e (client.get j s.server) s n h

  put-Holds :
      (t ttl : ℕ) (key j : K) (e : ℕ × V) (w : V) (s : Store dec client)
      → j ≢ key
      → Holds key e s
      → Holds key e (Store.put dec client t j w ttl s).1
  unfolding Store.put Store.keep
  put-Holds t ttl key j e w s n h =
      ground (arith, Dict.get-set_ne dec j key (t + s.local_ttl, w) s.cache n)

  after_put-Holds :
      (key : K) (e : ℕ × V) (v : V) (r : Outcome StoreError (Unit {0}) × Store dec client)
      → Holds key e r.1
      → Holds key e (after_put dec client settings v r).1
  after_put-Holds key e v (returned u, s) h = h
  after_put-Holds key e v (raised x, s) h = h

  compute-Holds :
      (times : Times) (key j : K) (e : ℕ × V) (o : Outcome E V) (s : Store dec client)
      → j ≢ key
      → Holds key e s
      → Holds key e (compute dec client settings times j o s).1
  unfolding compute
  compute-Holds times key j e (raised x) s n h = h
  compute-Holds times key j e (returned w) s n h = elim (Bool-cases settings.writable) [
    | inl p ↦ rw p (
        after_put-Holds key e w (Store.put dec client times.kept j w settings.ttl s)
          (put-Holds times.kept settings.ttl key j e w s n h))
    | inr p ↦ rw p h
  ]

  decide-Holds :
      (times : Times) (key j : K) (e : ℕ × V) (o : Outcome E V)
      (r : Outcome StoreError V × Store dec client)
      → j ≢ key
      → Holds key e r.1
      → Holds key e (decide dec client settings times j o r).1
  unfolding decide
  decide-Holds times key j e o (returned w, s) n h = elim (Bool-cases (settings.has_type w)) [
    | inl p ↦ rw p h
    | inr p ↦ rw p (compute-Holds times key j e o s n h)
  ]
  decide-Holds times key j e o (raised record_not_found, s) n h =
      compute-Holds times key j e o s n h
  decide-Holds times key j e o (raised other_error, s) n h = h

  -- A call with the key of an entry that has not expired is given its value, and keeps it.
  pub with_key_hit :
      (times : Times) (key : K) (e : ℕ × V) (o : Outcome E V) (s : Store dec client)
      → times.cleared ≤ e.0
      → settings.has_type e.1 ≡ true
      → Holds key e s
      → with_key dec client settings times o (returned key) s
        ≡ (returned e.1, record s { cache = clear_cache times.cleared s.cache })
  unfolding with_key decide
  with_key_hit times key e o s c y h =
      rw
        (
          get_hit dec client times.cleared times.received key s e
              (get-clear_cache_live dec times.cleared key s.cache e c h),
          y,
        )
        refl

  with_key-Holds :
      (times : Times) (key : K) (e : ℕ × V) (o : Outcome E V) (k : Outcome E K)
      (s : Store dec client)
      → times.cleared ≤ e.0
      → settings.has_type e.1 ≡ true
      → Holds key e s
      → Holds key e (with_key dec client settings times o k s).1
  unfolding with_key Store.get
  with_key-Holds times key e o (raised x) s c y h = h
  with_key-Holds times key e o (returned j) s c y h =
      let live = get-clear_cache_live dec times.cleared key s.cache e c h in
      elim (dec j key) [
        | yes p ↦ rw (p, ap (λ r. r.1) (with_key_hit times key e o s c y h)) live
        | no n ↦
            decide-Holds times key j e o (Store.get dec client times.cleared times.received j s) n (
              look-Holds times.received key j e _
                (record s { cache = clear_cache times.cleared s.cache }) n live)
      ]

  -- What some calls leave of the store: for each its times, its arguments and what the function
  -- does if it is run.
  unfoldable pub after :
      List (Times × Arguments A × Outcome E V) → Store dec client → Store dec client
  after [] s = s
  after ((times, a, o) ∷ cs) s = after cs (call dec client settings times a o s).1

  abbrev pub AllBy : ℕ → List (Times × Arguments A × Outcome E V) → Type 0
  AllBy x [] = Unit
  AllBy x ((times, a, o) ∷ cs) = (times.cleared ≤ x) × AllBy x cs

  pub after-Holds :
      (key : K) (e : ℕ × V) (cs : List (Times × Arguments A × Outcome E V)) (s : Store dec client)
      → AllBy e.0 cs
      → settings.has_type e.1 ≡ true
      → Holds key e s
      → Holds key e (after cs s)
  unfolding after call
  after-Holds key e [] s b y h = h
  after-Holds key e ((times, a, o) ∷ cs) s (c, b) y h =
      after-Holds key e cs (call dec client settings times a o s).1 b y
        (with_key-Holds times key e o (settings.format (bound settings.signature a)) s c y h)
