-- ===== src/Caching/Counter.antt =====
-- `Integer` of kh_common/caching/integer.py: one number in aerospike, with a local cache that holds
-- it under the last part of its key. The client is a parameter, as that of Caching/Store is.
-- `get_async` runs the same two steps as `get`.
pub mod Expired
use kh_common.Prelude.{ℕ, ◌+◌, Option, none, some, List, [], ◌∷◌}
use kh_common.Prelude.Outcome.{Outcome, returned, raised}
use kh_common.Prelude.Dict
use kh_common.Prelude.Text.{Text, Text-discrete}
use kh_common.Caching.Expiry.{Cache, clear_cache}
use kh_common.Caching.Store.{StoreError}

pub record IntegerClient (V : Type 0) : Type 1 where
  pub Server : Type 0
  pub put : V → ℕ → Server → Outcome StoreError (Unit {0}) × Server
  pub get : Server → Outcome StoreError V
  pub increment : V → ℕ → Server → Outcome StoreError (Unit {0}) × Server

module _ {V : Type 0} (client : IntegerClient V) (key : Text) (local_ttl : ℕ) where
  open client use {Server}

  -- `_cache`, and the server behind the object
  pub record Integer : Type 0 where
    pub cache : Cache Text V
    pub server : Server

  -- `self._cache[self._key[-1]] = (time() + self._local_TTL, value)`
  abbrev pub remember : ℕ → V → Integer → Integer
  remember time value s = record s {
    cache = Dict.set Text-discrete key (time + local_ttl, value) s.cache;
  }

  abbrev pub after_put :
      ℕ → V → Outcome StoreError (Unit {0}) → Integer → Outcome StoreError (Unit {0}) × Integer
  after_put time value (returned u) s = (returned u, remember time value s)
  after_put time value (raised e) s = (raised e, s)

  unfoldable pub set_value : ℕ → V → ℕ → Integer → Outcome StoreError (Unit {0}) × Integer
  set_value time value ttl s =
      let (o, server') = client.put value ttl s.server in
      after_put time value o (record s { server = server' })

  abbrev pub fetched : ℕ → Outcome StoreError V → Integer → Outcome StoreError V × Integer
  fetched time (returned value) s = (returned value, remember time value s)
  fetched time (raised e) s = (raised e, s)

  -- `_get`
  abbrev pub look_up : ℕ → Option (ℕ × V) → Integer → Outcome StoreError V × Integer
  look_up time (some e) s = (returned e.1, s)
  look_up time none s = fetched time (client.get s.server) s

  -- `now` is the time of the clearing, and `time` the one at which a value is kept.
  unfoldable pub get_value : ℕ → ℕ → Integer → Outcome StoreError V × Integer
  get_value now time s =
      let s' = record s { cache = clear_cache now s.cache } in
      look_up time (Dict.get Text-discrete key s'.cache) s'

  -- The local cache is left as it is.
  unfoldable pub increment_value : V → ℕ → Integer → Outcome StoreError (Unit {0}) × Integer
  increment_value value ttl s =
      let (o, server') = client.increment value ttl s.server in (o, record s { server = server' })
