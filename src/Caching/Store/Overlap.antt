-- ===== src/Caching/Store/Overlap.antt =====
-- `get_async`, `put_async` and `remove_async` of kh_common/caching/key_value_store.py, whose threads
-- overlap. A step is the code between two points where another thread may come in: before and after
-- each call of the client; a thread that comes in within one is left out. Only `get_async` holds a
-- lock, so one `get` runs at a time.
pub mod Cached
pub mod Held
use kh_common.Prelude.{ℕ, zero, suc, ◌+◌, Option, none, some, List, [], ◌∷◌, ◌++◌}
use kh_common.Prelude.Outcome.{Outcome, returned, raised}
use kh_common.Prelude.Dict
use kh_common.Caching.Expiry.{Cache, clear_cache}
use kh_common.Caching.Store.{StoreError, Client, Store, keep}

-- A `get` before its call of the client, and after it
pub data Phase {ℓ} (K V : Type ℓ) : Type ℓ where
  asked : K → Phase K V
  fetched : K → V → Phase K V

-- The steps, with the times that they read. `put_local` is that of the put with this number among
-- those whose client call has returned.
pub data Event {ℓ} (K V : Type ℓ) : Type ℓ where
  begin_get : ℕ → K → Event K V
  fetch : Event K V
  finish_get : ℕ → Event K V
  put_server : K → V → ℕ → Event K V
  put_local : ℕ → ℕ → Event K V
  remove_local : K → Event K V
  remove_server : K → Event K V

module _ {ℓ} {K V : Type ℓ} (dec : Discrete K) (client : Client K V) where
  -- The store, the `get` that has the lock, the puts that have still to write to the local cache, and
  -- the values that calls of `get` were given.
  pub record Shared : Type ℓ where
    pub store : Store dec client
    pub getting : Option (Phase K V)
    pub due : List (K × V)
    pub served : List (K × V)

  abbrev pub set_cache : Cache K V → Shared → Shared
  set_cache cache s = record s { store = record s.store { cache = cache } }

  -- `key in self._cache`, and the value of the entry
  unfoldable pub begin_at : K → Option (ℕ × V) → Shared → Shared
  begin_at k (some e) s = record s { served = (k, e.1) ∷ s.served }
  begin_at k none s = record s { getting = some (asked k) }

  -- The lock, `__clear_cache__`, and the test of `_get`
  unfoldable pub on_begin : ℕ → K → Option (Phase K V) → Shared → Shared
  unfolding begin_at
  on_begin now k (some phase) s = s
  on_begin now k none s =
      let s' = set_cache (clear_cache now s.store.cache) s in
      begin_at k (Dict.get dec k s'.store.cache) s'

  unfoldable pub after_fetch : K → Outcome StoreError V → Shared → Shared
  after_fetch k (returned v) s = record s { getting = some (fetched k v) }
  after_fetch k (raised e) s = record s { getting = none }

  -- The call of the client in `_get`
  unfoldable pub on_fetch : Option (Phase K V) → Shared → Shared
  unfolding after_fetch
  on_fetch (some (asked k)) s = after_fetch k (client.get k s.store.server) s
  on_fetch phase s = s

  -- The rest of `_get`
  unfoldable pub on_finish : ℕ → Option (Phase K V) → Shared → Shared
  unfolding keep
  on_finish later (some (fetched k v)) s = record s {
    store = keep dec client later k v s.store;
    getting = none;
    served = (k, v) ∷ s.served;
  }
  on_finish later phase s = s

  unfoldable pub after_server : K → V → Outcome StoreError (Unit {0}) → Shared → Shared
  after_server k v (returned u) s = record s { due = s.due ++ (k, v) ∷ [] }
  after_server k v (raised e) s = s

  -- The call of the client in `put`
  unfoldable pub on_put : K → V → ℕ → Shared → Shared
  unfolding after_server
  on_put k v ttl s =
      let (o, server) = client.put k v ttl s.store.server in
      after_server k v o (record s { store = record s.store { server = server } })

  -- The rest of `put`, and the other puts that are due
  unfoldable pub take_due : ℕ → ℕ → List (K × V) → List (K × V) → Shared → Shared
  unfolding keep
  take_due i t before [] s = s
  take_due zero t before ((k, v) ∷ after) s = record s {
    store = keep dec client t k v s.store;
    due = before ++ after;
  }
  take_due (suc i) t before (put ∷ after) s = take_due i t (before ++ put ∷ []) after s

  unfoldable pub step : Event K V → Shared → Shared
  unfolding on_begin on_fetch on_finish on_put take_due
  step (begin_get now k) s = on_begin now k s.getting s
  step fetch s = on_fetch s.getting s
  step (finish_get later) s = on_finish later s.getting s
  step (put_server k v ttl) s = on_put k v ttl s
  step (put_local i t) s = take_due i t [] s.due s
  step (remove_local k) s = set_cache (Dict.remove dec k s.store.cache) s
  step (remove_server k) s = record s {
    store = record s.store { server = (client.remove k s.store.server).1 };
  }

  unfoldable pub run : Shared → List (Event K V) → Shared
  unfolding step
  run s [] = s
  run s (e ∷ events) = run (step e s) events
