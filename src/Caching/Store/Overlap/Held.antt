-- ===== src/Caching/Store/Overlap/Held.antt =====
-- The values that overlapping calls of `KeyValueStore` can serve.
use mathlib.Core.Path.{subst}
use kh_common.Prelude.{
  ℕ, zero, suc, ◌+◌, ◌≡◌, ◌⊎◌, inl, inr, refl, Option, none, some, List, [], ◌∷◌, ◌++◌,
}
use kh_common.Prelude.Outcome.{Outcome, returned, raised}
use kh_common.Prelude.Lists.{All}
use kh_common.Prelude.Dict
use kh_common.Caching.Expiry.{Cache, clear_cache}
use kh_common.Caching.Store.{StoreError, Client, keep}
use kh_common.Caching.Store.Overlap.Cached.{
  All-append, Cached, Cached-clear_cache, Cached-set, Cached-remove, Of, Cached-get,
}
use kh_common.Caching.Store.Overlap.{
  Phase, asked, fetched, Event, begin_get, fetch, finish_get, put_server, put_local, remove_local,
  remove_server, Shared, set_cache, begin_at, on_begin, after_fetch, on_fetch, on_finish,
  after_server, on_put, take_due, step, run,
}

-- What is assumed of the client: after a `put`, whether it returned or raised, a key has the value that
-- was put to it or the one it had before, and after a `remove` none but the one it had before.
pub record IsKeeping {ℓ} {K V : Type ℓ} (client : Client K V) : Type ℓ where
  pub get-put :
      (k j : K) (v w : V) (ttl : ℕ) (σ : client.Server)
      → client.get j (client.put k v ttl σ).1 ≡ returned w
      → (client.get j σ ≡ returned w) ⊎ ((k ≡ j) × (v ≡ w))
  pub get-remove :
      (k j : K) (w : V) (σ : client.Server)
      → client.get j (client.remove k σ).1 ≡ returned w
      → client.get j σ ≡ returned w

module _ {ℓ} {K V : Type ℓ} (dec : Discrete K) (client : Client K V) (P : K → V → Type 0) where
  abbrev PhaseHeld : Option (Phase K V) → Type 0
  PhaseHeld none = Unit
  PhaseHeld (some (asked k)) = Unit
  PhaseHeld (some (fetched k v)) = P k v

  -- The values of the server, of the local cache, of the calls that are under way, and those that were
  -- served
  pub record IsHeld (s : Shared dec client) : Type ℓ where
    pub on_server : (k : K) (v : V) → client.get k s.store.server ≡ returned v → P k v
    pub in_cache : Cached dec P s.store.cache
    pub in_get : PhaseHeld s.getting
    pub in_put : All (λ x. P x.0 x.1) s.due
    pub in_served : All (λ x. P x.0 x.1) s.served

  -- What an event puts
  abbrev pub Puts : Event K V → Type 0
  Puts (put_server k v ttl) = P k v
  Puts e = Unit

module _ {ℓ} {K V : Type ℓ} (dec : Discrete K) (client : Client K V) (law : IsKeeping client)
    (P : K → V → Type 0) where
  set_cache-IsHeld :
      (c : Cache K V) (s : Shared dec client)
      → Cached dec P c
      → IsHeld dec client P s
      → IsHeld dec client P (set_cache dec client c s)
  set_cache-IsHeld c s p h = record {
    on_server = h.on_server;
    in_cache = p;
    in_get = h.in_get;
    in_put = h.in_put;
    in_served = h.in_served;
  }

  begin_at-IsHeld :
      (k : K) (o : Option (ℕ × V)) (s : Shared dec client)
      → Of dec P k o
      → IsHeld dec client P s
      → IsHeld dec client P (begin_at dec client k o s)
  unfolding begin_at
  begin_at-IsHeld k none s p h = record {
    on_server = h.on_server;
    in_cache = h.in_cache;
    in_get = tt;
    in_put = h.in_put;
    in_served = h.in_served;
  }
  begin_at-IsHeld k (some e) s p h = record {
    on_server = h.on_server;
    in_cache = h.in_cache;
    in_get = h.in_get;
    in_put = h.in_put;
    in_served = (p, h.in_served);
  }

  found :
      (k : K) (c : Cache K V) (o : Option (ℕ × V))
      → Cached dec P c
      → Dict.get dec k c ≡ o
      → Of dec P k o
  found k c none p h = tt
  found k c (some e) p h = Cached-get dec P k e c p h

  on_begin-IsHeld :
      (now : ℕ) (k : K) (phase : Option (Phase K V)) (s : Shared dec client)
      → IsHeld dec client P s
      → IsHeld dec client P (on_begin dec client now k phase s)
  unfolding on_begin
  on_begin-IsHeld now k (some phase) s h = h
  on_begin-IsHeld now k none s h =
      let p = Cached-clear_cache dec P now s.store.cache h.in_cache in
      begin_at-IsHeld k _ (set_cache dec client (clear_cache now s.store.cache) s)
        (found k (clear_cache now s.store.cache) _ p refl)
        (set_cache-IsHeld (clear_cache now s.store.cache) s p h)

  after_fetch-IsHeld :
      (k : K) (o : Outcome StoreError V) (s : Shared dec client)
      → client.get k s.store.server ≡ o
      → IsHeld dec client P s
      → IsHeld dec client P (after_fetch dec client k o s)
  unfolding after_fetch
  after_fetch-IsHeld k (returned v) s e h = record {
    on_server = h.on_server;
    in_cache = h.in_cache;
    in_get = h.on_server k v e;
    in_put = h.in_put;
    in_served = h.in_served;
  }
  after_fetch-IsHeld k (raised x) s e h = record {
    on_server = h.on_server;
    in_cache = h.in_cache;
    in_get = tt;
    in_put = h.in_put;
    in_served = h.in_served;
  }

  on_fetch-IsHeld :
      (phase : Option (Phase K V)) (s : Shared dec client)
      → IsHeld dec client P s
      → IsHeld dec client P (on_fetch dec client phase s)
  unfolding on_fetch
  on_fetch-IsHeld none s h = h
  on_fetch-IsHeld (some (asked k)) s h = after_fetch-IsHeld k _ s refl h
  on_fetch-IsHeld (some (fetched k v)) s h = h

  on_finish-IsHeld :
      (later : ℕ) (phase : Option (Phase K V)) (s : Shared dec client)
      → PhaseHeld dec client P phase
      → IsHeld dec client P s
      → IsHeld dec client P (on_finish dec client later phase s)
  unfolding on_finish keep
  on_finish-IsHeld later none s p h = h
  on_finish-IsHeld later (some (asked k)) s p h = h
  on_finish-IsHeld later (some (fetched k v)) s p h = record {
    on_server = h.on_server;
    in_cache = Cached-set dec P k (later + s.store.local_ttl, v) s.store.cache p h.in_cache;
    in_get = tt;
    in_put = h.in_put;
    in_served = (p, h.in_served);
  }

  after_server-IsHeld :
      (k : K) (v : V) (o : Outcome StoreError (Unit {0})) (s : Shared dec client)
      → P k v
      → IsHeld dec client P s
      → IsHeld dec client P (after_server dec client k v o s)
  unfolding after_server
  after_server-IsHeld k v (returned u) s p h = record {
    on_server = h.on_server;
    in_cache = h.in_cache;
    in_get = h.in_get;
    in_put = All-append dec P s.due ((k, v) ∷ []) h.in_put (p, tt);
    in_served = h.in_served;
  }
  after_server-IsHeld k v (raised e) s p h = h

  put_value :
      (k j : K) (v w : V) (s : Shared dec client)
      → P k v
      → IsHeld dec client P s
      → (client.get j s.store.server ≡ returned w) ⊎ ((k ≡ j) × (v ≡ w))
      → P j w
  put_value k j v w s p h (inl e) = h.on_server j w e
  put_value k j v w s p h (inr (e, f)) = subst (λ u. P j u) f (subst (λ i. P i v) e p)

  on_put-IsHeld :
      (k : K) (v : V) (ttl : ℕ) (s : Shared dec client)
      → P k v
      → IsHeld dec client P s
      → IsHeld dec client P (on_put dec client k v ttl s)
  unfolding on_put
  on_put-IsHeld k v ttl s p h = after_server-IsHeld k v _ _ p (record {
    on_server = λ j w e. put_value k j v w s p h (law.get-put k j v w ttl s.store.server e);
    in_cache = h.in_cache;
    in_get = h.in_get;
    in_put = h.in_put;
    in_served = h.in_served;
  })

  take_due-IsHeld :
      (i t : ℕ) (before after : List (K × V)) (s : Shared dec client)
      → All (λ x. P x.0 x.1) before
      → All (λ x. P x.0 x.1) after
      → IsHeld dec client P s
      → IsHeld dec client P (take_due dec client i t before after s)
  unfolding take_due keep
  take_due-IsHeld i t before [] s p q h = h
  take_due-IsHeld zero t before ((k, v) ∷ after) s p q h = record {
    on_server = h.on_server;
    in_cache = Cached-set dec P k (t + s.store.local_ttl, v) s.store.cache q.0 h.in_cache;
    in_get = h.in_get;
    in_put = All-append dec P before after p q.1;
    in_served = h.in_served;
  }
  take_due-IsHeld (suc i) t before (x ∷ after) s p q h =
      take_due-IsHeld i t (before ++ x ∷ []) after s (All-append dec P before (x ∷ []) p (q.0, tt))
        q.1 h

  step-IsHeld :
      (e : Event K V) (s : Shared dec client)
      → Puts dec client P e
      → IsHeld dec client P s
      → IsHeld dec client P (step dec client e s)
  unfolding step
  step-IsHeld (begin_get now k) s p h = on_begin-IsHeld now k s.getting s h
  step-IsHeld fetch s p h = on_fetch-IsHeld s.getting s h
  step-IsHeld (finish_get later) s p h = on_finish-IsHeld later s.getting s h.in_get h
  step-IsHeld (put_server k v ttl) s p h = on_put-IsHeld k v ttl s p h
  step-IsHeld (put_local i t) s p h = take_due-IsHeld i t [] s.due s tt h.in_put h
  step-IsHeld (remove_local k) s p h =
      set_cache-IsHeld (Dict.remove dec k s.store.cache) s
        (Cached-remove dec P k s.store.cache h.in_cache) h
  step-IsHeld (remove_server k) s p h = record {
    on_server = λ j w e. h.on_server j w (law.get-remove k j w s.store.server e);
    in_cache = h.in_cache;
    in_get = h.in_get;
    in_put = h.in_put;
    in_served = h.in_served;
  }

  -- However calls of `get`, `put` and `remove` overlap, over a client that keeps what is put: if a
  -- property holds of the values that the server and the object have at first, and of every value
  -- that is put, then it holds of every value that a `get` is given. So no value is served for a key
  -- that was not put to this very key or held for it before.
  pub run-IsHeld :
      (events : List (Event K V)) (s : Shared dec client)
      → All (Puts dec client P) events
      → IsHeld dec client P s
      → IsHeld dec client P (run dec client s events)
  unfolding run
  run-IsHeld [] s p h = h
  run-IsHeld (e ∷ events) s p h =
      run-IsHeld events (step dec client e s) p.1 (step-IsHeld e s p.0 h)
