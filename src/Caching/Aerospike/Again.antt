-- ===== src/Caching/Aerospike/Again.antt =====
-- What `AerospikeCache` keeps for later calls.
use mathlib.Core.Path.{subst}
use kh_common.Prelude.{sym, ap, List, ℕ, ◌+◌, ◌≤◌, ◌≡◌, refl, ◌∙◌, Option, none, some, true, false}
use kh_common.Prelude.Outcome.{Outcome, returned, raised}
use kh_common.Caching.Binding.{Arguments, bound}
use kh_common.Caching.Store
use kh_common.Caching.Store.{StoreError, record_not_found, other_error, Client, Store}
use kh_common.Caching.Store.Reads.{put_returned}
use kh_common.Prelude.Dict
use kh_common.Caching.Aerospike.Held.{Holds, with_key_hit, AllBy, after, after-Holds}
use kh_common.Caching.Aerospike.{Settings, Times, after_put, compute, decide, with_key, call}

module _ {E K V A : Type 0} (dec : Discrete K) (client : Client K V)
    (settings : Settings E K V A) where
  -- The store has no value of the right type for the key.
  abbrev pub IsMissing : Outcome StoreError V → Type 0
  IsMissing (returned v) = settings.has_type v ≡ false
  IsMissing (raised record_not_found) = Unit
  IsMissing (raised other_error) = ⊥

  after_put-value :
      (v w : V) (r : Outcome StoreError (Unit {0}) × Store dec client) (t : Store dec client)
      → after_put dec client settings v r ≡ (returned w, t)
      → (r.0 ≡ returned tt) × (r.1 ≡ t)
  after_put-value v w (returned u, s) t h = (refl, cc)
  after_put-value v w (raised e, s) t h = cc

  decide_missing :
      (times : Times) (key : K) (o : Outcome E V) (r : Outcome StoreError V × Store dec client)
      → IsMissing r.0
      → decide dec client settings times key o r ≡ compute dec client settings times key o r.1
  unfolding decide
  decide_missing times key o (returned v, s) m = rw m refl
  decide_missing times key o (raised record_not_found, s) m = refl
  decide_missing times key o (raised other_error, s) m = absurd m

  kept_ttl :
      (later : ℕ) (key : K) (o : Outcome StoreError V) (s : Store dec client)
      → (Store.after_get dec client later key o s).1.local_ttl ≡ s.local_ttl
  unfolding Store.after_get Store.keep
  kept_ttl later key (returned v) s = refl
  kept_ttl later key (raised e) s = refl

  look-local_ttl :
      (later : ℕ) (key : K) (e : Option (ℕ × V)) (s : Store dec client)
      → (Store.look dec client later key e s).1.local_ttl ≡ s.local_ttl
  unfolding Store.look
  look-local_ttl later key (some e) s = refl
  look-local_ttl later key none s = kept_ttl later key (client.get key s.server) s

  get-local_ttl :
      (now later : ℕ) (key : K) (s : Store dec client)
      → (Store.get dec client now later key s).1.local_ttl ≡ s.local_ttl
  unfolding Store.get
  get-local_ttl now later key s = look-local_ttl later key _ _

  stored :
      (times : Times) (key : K) (v : V) (s t : Store dec client)
      → settings.writable ≡ true
      → compute dec client settings times key (returned v) s ≡ (returned v, t)
      → ((Store.put dec client times.kept key v settings.ttl s).0 ≡ returned tt)
        × ((Store.put dec client times.kept key v settings.ttl s).1 ≡ t)
  unfolding compute
  stored times key v s t w h =
      let h' : after_put dec client settings v
            (Store.put dec client times.kept key v settings.ttl s)
          ≡ (returned v, t) =
        rw w at h in
      after_put-value v v _ t h'

  compute-Holds_stored :
      (times : Times) (key : K) (v : V) (s t : Store dec client)
      → settings.writable ≡ true
      → compute dec client settings times key (returned v) s ≡ (returned v, t)
      → Holds dec client settings key (times.kept + s.local_ttl, v) t
  compute-Holds_stored times key v s t w h =
      let (p, q) = stored times key v s t w h in
      let r = sym q ∙ put_returned dec client times.kept settings.ttl key v s p in
      rw (r) (Dict.get-set_self dec key _ s.cache)

  -- When a writable wrapper finds no value of the right type in the store, runs the function and
  -- returns its result, which has the right type, then, after any other calls, every call with the
  -- same key, however its arguments are passed, is given that result, whatever the function would
  -- do now; as long as the times at which that call and those between are made are not past the
  -- local TTL.
  pub call_again :
      (times later : Times) (a b : Arguments A) (o : Outcome E V) (key : K) (v : V)
      (s t : Store dec client) (between : List (Times × Arguments A × Outcome E V))
      → settings.format (bound settings.signature a) ≡ returned key
      → settings.format (bound settings.signature b) ≡ returned key
      → IsMissing (Store.get dec client times.cleared times.received key s).0
      → settings.writable ≡ true
      → settings.has_type v ≡ true
      → call dec client settings times a (returned v) s ≡ (returned v, t)
      → AllBy dec client settings (times.kept + s.local_ttl) between
      → later.cleared ≤ times.kept + s.local_ttl
      → (call dec client settings later b o (after dec client settings between t)).0 ≡ returned v
  unfolding call with_key
  call_again times later a b o key v s t between ka kb m w y h l c =
      let s' = (Store.get dec client times.cleared times.received key s).1 in
      let h' : with_key dec client settings times (returned v) (returned key) s ≡ (returned v, t) =
        rw ka at h in
      let h2 : compute dec client settings times key (returned v) s' ≡ (returned v, t) =
        sym (decide_missing times key (returned v) _ m) ∙ h' in
      let held : Holds dec client settings key (times.kept + s.local_ttl, v) t =
        subst (λ n. Holds dec client settings key (times.kept + n, v) t)
          (get-local_ttl times.cleared times.received key s)
          (compute-Holds_stored times key v s' t w h2) in
      rw kb (
        ap (λ r. r.0)
          (with_key_hit dec client settings later key (times.kept + s.local_ttl, v) o _ c y
            (after-Holds dec client settings key (times.kept + s.local_ttl, v) between t l y held)))
