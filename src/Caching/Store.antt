-- ===== src/Caching/Store.antt =====
-- `KeyValueStore` of kh_common/caching/key_value_store.py: a local cache in front of an aerospike
-- set. The client library is a parameter: an unknown server state and the operations that the
-- source calls, keyed by the third part of the (namespace, set, key) tuple, since the first two are
-- constants of the object. The `_async` methods run the same methods in a thread; Overlap has the
-- steps of these.
pub mod Reads
pub mod Coherent
pub mod Overlap
use mathlib.Core.Logic.{ite}
use kh_common.Prelude.{
  ℕ, ◌+◌, ◌≡◌, Option, none, some, List, [], ◌∷◌, ◌++◌, Bool, true, false, if◌then◌else◌,
}
use kh_common.Prelude.Outcome.{Outcome, returned, raised}
use kh_common.Prelude.Dict
use kh_common.Prelude.Dict.{Dict}
use kh_common.Caching.Expiry.{Cache, clear_cache}

-- What the client raises: the one exception that the source names, or any other.
pub data StoreError : Type 0 where
  record_not_found other_error : StoreError

-- The aerospike client. `get_many` gives a pair of each key with its bins, or with None where the
-- record's metadata is empty; `exists` gives whether the metadata is there.
pub record Client {ℓ} (K V : Type ℓ) : Type (ℓ + 1) where
  pub Server : Type ℓ
  pub put : K → V → ℕ → Server → Outcome StoreError (Unit {0}) × Server
  pub get : K → Server → Outcome StoreError V
  pub get_many : List K → Server → Outcome StoreError (List (K × Option V))
  pub remove : K → Server → Outcome StoreError (Unit {0}) × Server
  pub exists : K → Server → Outcome StoreError Bool
  pub truncate : Server → Server

module _ {ℓ} {K V : Type ℓ} (dec : Discrete K) (client : Client K V) where
  open client use {Server}

  -- An object of the class and the server behind it.
  pub record Store : Type ℓ where
    pub cache : Cache K V
    pub local_ttl : ℕ
    pub server : Server

  module _ (now : ℕ) where
    -- `self._cache[key] = (time() + self._local_TTL, data)`
    unfoldable pub keep : K → V → Store → Store
    keep key v s = record s { cache = Dict.set dec key (now + s.local_ttl, v) s.cache }

    after_put :
        K → V → Outcome StoreError (Unit {0}) → Store → Outcome StoreError (Unit {0}) × Store
    after_put key v (returned u) s = (returned u, keep key v s)
    after_put key v (raised e) s = (raised e, s)

    -- The client is called first: if it raises, the local cache is left alone.
    unfoldable pub put : K → V → ℕ → Store → Outcome StoreError (Unit {0}) × Store
    unfolding after_put keep
    put key v ttl s =
        let (o, server') = client.put key v ttl s.server in
        after_put key v o (record s { server = server' })

  -- `_get` after its first test: the value comes from the server and is kept.
  unfoldable pub after_get : ℕ → K → Outcome StoreError V → Store → Outcome StoreError V × Store
  unfolding keep
  after_get later key (returned v) s = (returned v, keep later key v s)
  after_get later key (raised e) s = (raised e, s)

  unfoldable pub look : ℕ → K → Option (ℕ × V) → Store → Outcome StoreError V × Store
  unfolding after_get
  look later key (some e) s = (returned e.1, s)
  look later key none s = after_get later key (client.get key s.server) s

  -- `now` is the time that `__clear_cache__` reads, and `later` the one at which a value from the
  -- server is kept.
  unfoldable pub get : ℕ → ℕ → K → Store → Outcome StoreError V × Store
  unfolding look
  get now later key s =
      let s' = record s { cache = clear_cache now s.cache } in
      look later key (Dict.get dec key s'.cache) s'

  -- `key in self._cache`
  pub cached : Cache K V → K → Bool
  cached cache key = elim (Dict.get dec key cache) [ none ↦ false | some e ↦ true ]

  -- `keys - self._cache.keys()`
  pub remote_keys : Cache K V → List K → List K
  unfolding cached
  remote_keys cache [] = []
  remote_keys cache (key ∷ keys) =
      let rest = remote_keys cache keys in if cached cache key then rest else key ∷ rest

  -- `keys - remote_keys`
  pub local_keys : Cache K V → List K → List K
  unfolding cached
  local_keys cache [] = []
  local_keys cache (key ∷ keys) =
      let rest = local_keys cache keys in if cached cache key then key ∷ rest else rest

  -- The loop over the records that the server sent: the map that is returned, and the local cache.
  receive : ℕ → List (K × Option V) → Dict K (Option V) × Cache K V → Dict K (Option V) × Cache K V
  receive exp [] (data_map, cache) = (data_map, cache)
  receive exp ((key, some v) ∷ rest) (data_map, cache) =
      receive exp rest (Dict.set dec key (some v) data_map, Dict.set dec key (exp, v) cache)
  receive exp ((key, none) ∷ rest) (data_map, cache) =
      receive exp rest (Dict.set dec key none data_map, cache)

  -- The values of keys that are cached, added to a map.
  local_values : Cache K V → List K → Dict K (Option V) → Dict K (Option V)
  local_values cache [] out = out
  local_values cache (key ∷ keys) out =
      local_values cache keys
        (elim (Dict.get dec key cache) [ none ↦ out | some e ↦ Dict.set dec key (some e.1) out ])

  after_get_many :
      ℕ
      → List K
      → Outcome StoreError (List (K × Option V))
      → Store
      → Outcome StoreError (Dict K (Option V)) × Store
  unfolding receive local_values local_keys
  after_get_many later keys (raised e) s = (raised e, s)
  after_get_many later keys (returned records) s =
      let (data_map, cache) = receive (later + s.local_ttl) records ([], s.cache) in
      (returned (local_values cache (local_keys s.cache keys) data_map), record s { cache = cache })

  look_many : ℕ → List K → List K → Store → Outcome StoreError (Dict K (Option V)) × Store
  unfolding after_get_many local_values
  look_many later keys [] s = (returned (local_values s.cache keys []), s)
  look_many later keys (key ∷ remote) s =
      after_get_many later keys (client.get_many (key ∷ remote) s.server) s

  -- `keys` lists the elements of `set(keys)`.
  unfoldable pub get_many : ℕ → ℕ → List K → Store → Outcome StoreError (Dict K (Option V)) × Store
  unfolding look_many remote_keys
  get_many now later keys s =
      let s' = record s { cache = clear_cache now s.cache } in
      look_many later keys (remote_keys s'.cache keys) s'

  -- The local entry is dropped before the server is asked.
  unfoldable pub remove : K → Store → Outcome StoreError (Unit {0}) × Store
  remove key s =
      let (o, server') = client.remove key s.server in
      (o, record s { cache = Dict.remove dec key s.cache; server = server' })

  unfoldable pub exists : K → Store → Outcome StoreError Bool
  exists key s = elim (client.exists key s.server) [
    | returned meta ↦ returned meta
    | raised record_not_found ↦ returned false
    | raised other_error ↦ raised other_error
  ]

  -- The local cache is not cleared.
  unfoldable pub truncate : Store → Store
  truncate s = record s { server = client.truncate s.server }
