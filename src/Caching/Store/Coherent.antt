-- ===== src/Caching/Store/Coherent.antt =====
-- When the local cache of `KeyValueStore` shows in what `get` gives.
use mathlib.Core.Logic.{if_pos, if_neg}
use kh_common.Prelude.{
  ℕ, ◌+◌, ◌≡◌, ◌≢◌, refl, sym, ◌∙◌, none, some, [], arith, Option-cases, inl, inr,
}
use kh_common.Prelude.Outcome.{Outcome, returned, raised}
use kh_common.Prelude.Dict
use kh_common.Prelude.Dict.{Unique}
use kh_common.Caching.Expiry.{clear_cache}
use kh_common.Caching.Expiry.Fresh.{clear_cache-Unique}
use kh_common.Caching.Store.{StoreError, Client, Store, put, get, remove}
use kh_common.Caching.Store.Reads.{get-clear_cache-some, put_returned, get_hit}

-- What is assumed of the aerospike client: a `put` that returns is read back, and `put` and
-- `remove` leave other keys alone. A server-side expiration is left out: no time passes there.
pub record IsLawful {ℓ} {K V : Type ℓ} (client : Client K V) : Type ℓ where
  pub get-put_self :
      (k : K) (v : V) (ttl : ℕ) (σ : client.Server)
      → (client.put k v ttl σ).0 ≡ returned tt
      → client.get k (client.put k v ttl σ).1 ≡ returned v
  pub get-put_ne :
      (k j : K) (v : V) (ttl : ℕ) (σ : client.Server)
      → k ≢ j
      → client.get j (client.put k v ttl σ).1 ≡ client.get j σ
  pub get-remove_ne :
      (k j : K) (σ : client.Server) → k ≢ j → client.get j (client.remove k σ).1 ≡ client.get j σ

module _ {ℓ} {K V : Type ℓ} (dec : Discrete K) (client : Client K V) where
  open client use {Server}

  pub record IsCoherent (s : Store dec client) : Type ℓ where
    pub unique : Unique dec s.cache
    pub agrees :
        (k : K) (e : ℕ × V) → Dict.get dec k s.cache ≡ some e → client.get k s.server ≡ returned e.1

  clear-IsCoherent :
      (now : ℕ) (s : Store dec client)
      → IsCoherent s
      → IsCoherent (record s { cache = clear_cache now s.cache })
  clear-IsCoherent now s c = record {
    unique = clear_cache-Unique dec now s.cache c.unique;
    agrees = λ k e h. c.agrees k e (get-clear_cache-some dec now k s.cache e c.unique h);
  }

  -- storing what the server holds
  set-IsCoherent :
      (k : K) (e : ℕ × V) (s : Store dec client) (σ : Server)
      → client.get k σ ≡ returned e.1
      → ((j : K) → k ≢ j → client.get j σ ≡ client.get j s.server)
      → IsCoherent s
      → IsCoherent (record s { cache = Dict.set dec k e s.cache; server = σ })
  set-IsCoherent k e s σ held others c = record {
    unique = Dict.set-Unique dec k e s.cache c.unique;
    agrees = λ j f h. elim (dec k j) [
      | yes p ↦
          let h' : some e ≡ some f = rw (Dict.get-set dec k j e s.cache, if_pos _ p) at h in
          let q : e ≡ f = cc in rw (← p, held, q)
      | no p ↦
          let h' : Dict.get dec j s.cache ≡ some f =
            rw (Dict.get-set dec k j e s.cache, if_neg _ p) at h in
          others j p ∙ c.agrees j f h'
    ];
  }

  client_returned :
      (t ttl : ℕ) (k : K) (v : V) (s : Store dec client)
      → (put dec client t k v ttl s).0 ≡ returned tt
      → (client.put k v ttl s.server).0 ≡ returned tt
  unfolding put
  client_returned t ttl k v s h = ground arith

  put-IsCoherent :
      IsLawful client
      → (t ttl : ℕ) (k : K) (v : V) (s : Store dec client)
      → (put dec client t k v ttl s).0 ≡ returned tt
      → IsCoherent s
      → IsCoherent (put dec client t k v ttl s).1
  put-IsCoherent law t ttl k v s h c = rw (put_returned dec client t ttl k v s h) (
      set-IsCoherent k (t + s.local_ttl, v) s (client.put k v ttl s.server).1
        (law.get-put_self k v ttl s.server (client_returned t ttl k v s h))
        (λ j p. law.get-put_ne k j v ttl s.server p) c)

  remove-IsCoherent :
      IsLawful client
      → (k : K) (s : Store dec client) → IsCoherent s
      → IsCoherent (remove dec client k s).1
  unfolding remove
  remove-IsCoherent law k s c = record {
    unique = Dict.remove-Unique dec k s.cache c.unique;
    agrees = λ j f h. elim (dec k j) [
      | yes p ↦
          let gone = Dict.get-remove_self dec k s.cache c.unique in
          let h' : Dict.get dec j (Dict.remove dec k s.cache) ≡ some f = h in cc
      | no p ↦
          law.get-remove_ne k j s.server p
          ∙ c.agrees j f (sym (Dict.get-remove_ne dec k j s.cache p) ∙ h)
    ];
  }

  get_miss :
      (now later : ℕ) (k : K) (s : Store dec client) (o : Outcome StoreError V)
      → Dict.get dec k (clear_cache now s.cache) ≡ none
      → client.get k s.server ≡ o
      → IsCoherent s
      → ((get dec client now later k s).0 ≡ o) × IsCoherent (get dec client now later k s).1
  unfolding get
  get_miss now later k s (returned v) m g c =
      rw (m, g)
        (
          refl,
          set-IsCoherent k (later + s.local_ttl, v) (record s { cache = clear_cache now s.cache })
              s.server g (λ j p. refl) (clear-IsCoherent now s c),
        )
  get_miss now later k s (raised e) m g c = rw (m, g) (refl, clear-IsCoherent now s c)

  get-eq-server :
      (now later : ℕ) (k : K) (s : Store dec client)
      → IsCoherent s
      → ((get dec client now later k s).0 ≡ client.get k s.server)
        × IsCoherent (get dec client now later k s).1
  get-eq-server now later k s c = elim (Option-cases (Dict.get dec k (clear_cache now s.cache))) [
    | inl m ↦ get_miss now later k s (client.get k s.server) m refl c
    | inr (e, h) ↦ rw (get_hit dec client now later k s e h) (
      sym (c.agrees k e (get-clear_cache-some dec now k s.cache e c.unique h)),
      clear-IsCoherent now s c,
    )
  ]

  -- The states of an object: it starts with an empty cache over any server, and its methods are
  -- called in any order and at any times. Only a `put` that raises is left out, since the server
  -- may have stored the value.
  pub data Reachable : Store dec client → Type ℓ where
    start :
        (local_ttl : ℕ) (σ : Server)
        → Reachable (record { cache = []; local_ttl = local_ttl; server = σ })
    after_get :
        {s : Store dec client} (now later : ℕ) (k : K)
        → Reachable s
        → Reachable (get dec client now later k s).1
    after_put :
        {s : Store dec client} (t ttl : ℕ) (k : K) (v : V)
        → (put dec client t k v ttl s).0 ≡ returned tt
        → Reachable s
        → Reachable (put dec client t k v ttl s).1
    after_remove :
        {s : Store dec client} (k : K) → Reachable s → Reachable (remove dec client k s).1

  Reachable-IsCoherent : {s : Store dec client} → IsLawful client → Reachable s → IsCoherent s
  unfolding Dict.get
  Reachable-IsCoherent law (start l σ) = record { unique = tt; agrees = λ k e h. cc }
  Reachable-IsCoherent law (after_get {s = s} now later k r) =
      (get-eq-server now later k s (Reachable-IsCoherent law r)).1
  Reachable-IsCoherent law (after_put {s = s} t ttl k v h r) =
      put-IsCoherent law t ttl k v s h (Reachable-IsCoherent law r)
  Reachable-IsCoherent law (after_remove {s = s} k r) =
      remove-IsCoherent law k s (Reachable-IsCoherent law r)

  -- Over a lawful client, after any calls of `get`, `remove` and `put` of which every `put`
  -- returned, in any order and at any times, a `get` returns or raises exactly what the server
  -- would for that key.
  pub get_transparent :
      {s : Store dec client} (now later : ℕ) (k : K)
      → IsLawful client
      → Reachable s
      → (get dec client now later k s).0 ≡ client.get k s.server
  get_transparent {s} now later k law r =
      (get-eq-server now later k s (Reachable-IsCoherent law r)).0
