-- ===== src/Caching/Aerospike.antt =====
-- `AerospikeCache` of kh_common/caching/__init__.py: the results of a function kept in a
-- `KeyValueStore`. The two wrappers run the same steps. The times are those that the store reads:
-- the clearing's, that of keeping a value from the server, and that of keeping a result.
pub mod Held
pub mod Again
use kh_common.Prelude.{ℕ, ◌≡◌, Option, none, some, List, [], ◌∷◌, Bool, true, false, if◌then◌else◌}
use kh_common.Prelude.Outcome.{Outcome, returned, raised}
use kh_common.Prelude.Dict.{Dict}
use kh_common.Prelude.Text.{Text}
use kh_common.Caching.Binding.{Signature, Arguments, bound}
use kh_common.Caching.Store
use kh_common.Caching.Store.{StoreError, record_not_found, other_error, Client, Store}

-- What leaves the wrapper: an error of the function's own or of the formatting of the key, or one of
-- the store.
pub data CacheError (E : Type 0) : Type 0 where
  call_error : E → CacheError E
  store_error : StoreError → CacheError E

-- `has_type` is `type(data) == return_type`, and `format` is `key_format.format`.
pub record Settings (E K V A : Type 0) : Type 0 where
  pub signature : Signature A
  pub format : Dict Text A → Outcome E K
  pub has_type : V → Bool
  pub writable : Bool
  pub ttl : ℕ

pub record Times : Type 0 where
  pub cleared : ℕ
  pub received : ℕ
  pub kept : ℕ

module _ {E K V A : Type 0} (dec : Discrete K) (client : Client K V)
    (settings : Settings E K V A) where
  -- What `decorator.kvs.put` leaves to the caller of the wrapper.
  abbrev pub after_put :
      V
      → Outcome StoreError (Unit {0}) × Store dec client
      → Outcome (CacheError E) V × Store dec client
  after_put v (returned u, s) = (returned v, s)
  after_put v (raised e, s) = (raised (store_error e), s)

  -- The function is run, and its result is stored.
  unfoldable pub compute :
      Times → K → Outcome E V → Store dec client → Outcome (CacheError E) V × Store dec client
  compute times key (raised e) s = (raised (call_error e), s)
  compute times key (returned v) s =
      if settings.writable
      then after_put v (Store.put dec client times.kept key v settings.ttl s)
      else (returned v, s)

  -- The `try` statement; `outcome` is what the function does if it is run.
  unfoldable pub decide :
      Times
      → K
      → Outcome E V
      → Outcome StoreError V × Store dec client
      → Outcome (CacheError E) V × Store dec client
  unfolding compute
  decide times key outcome (returned v, s) =
      if settings.has_type v then (returned v, s) else compute times key outcome s
  decide times key outcome (raised record_not_found, s) = compute times key outcome s
  decide times key outcome (raised other_error, s) = (raised (store_error other_error), s)

  unfoldable pub with_key :
      Times
      → Outcome E V
      → Outcome E K
      → Store dec client
      → Outcome (CacheError E) V × Store dec client
  unfolding decide
  with_key times outcome (raised e) s = (raised (call_error e), s)
  with_key times outcome (returned key) s =
      decide times key outcome (Store.get dec client times.cleared times.received key s)

  -- The wrapper.
  unfoldable pub call :
      Times
      → Arguments A
      → Outcome E V
      → Store dec client
      → Outcome (CacheError E) V × Store dec client
  unfolding with_key
  call times arguments outcome s =
      with_key times outcome (settings.format (bound settings.signature arguments)) s
