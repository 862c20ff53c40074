-- ===== src/Caching/Counter/Expired.antt =====
-- What `Integer.get` gives, after any calls of the three methods.
use mathlib.Core.Logic.{if_pos}
use kh_common.Prelude.{
  ℕ, ◌+◌, ◌≡◌, refl, Option, none, some, [], ◌∷◌, leb, Bool-cases, inl, inr, ap, ◌∙◌,
}
use kh_common.Prelude.Outcome.{Outcome, returned, raised}
use kh_common.Prelude.Dict
use kh_common.Prelude.Text.{Text, Text-discrete}
use kh_common.Caching.Expiry.{Cache, clear_cache, Ordered}
use kh_common.Caching.Expiry.Fresh.{fresh, get-clear_cache}
use kh_common.Caching.Store.{StoreError}
use kh_common.Caching.Counter.{
  IntegerClient, Integer, after_put, set_value, look_up, get_value, increment_value,
}

module _ {V : Type 0} (client : IntegerClient V) (key : Text) (local_ttl : ℕ) where
  open client use {Server}

  -- The cache holds at most the one key.
  pub data IsSingle : Cache Text V → Type 0 where
    empty : IsSingle []
    single : (e : ℕ × V) → IsSingle ((key, e) ∷ [])

  set-IsSingle :
      (e : ℕ × V) {c : Cache Text V} → IsSingle c → IsSingle (Dict.set Text-discrete key e c)
  unfolding Dict.set
  set-IsSingle e empty = single e
  set-IsSingle e (single f) = rw (if_pos _ refl) (single e)

  clear-IsSingle : (now : ℕ) {c : Cache Text V} → IsSingle c → IsSingle (clear_cache now c)
  unfolding clear_cache
  clear-IsSingle now empty = empty
  clear-IsSingle now (single f) = elim (Bool-cases (leb now f.0)) [
    | inl p ↦ rw p (single f)
    | inr p ↦ rw p empty
  ]

  IsSingle-Ordered : {c : Cache Text V} → IsSingle c → Ordered c
  IsSingle-Ordered empty = tt
  IsSingle-Ordered (single f) = (tt, tt)

  IsSingle-Unique : {c : Cache Text V} → IsSingle c → Dict.Unique Text-discrete c
  unfolding Dict.get
  IsSingle-Unique empty = tt
  IsSingle-Unique (single f) = (refl, tt)

  -- The states of an object: it starts with an empty cache over any server.
  pub data Reachable : Integer client key local_ttl → Type 0 where
    start : (σ : Server) → Reachable (record { cache = []; server = σ })
    after_set :
        {s : Integer client key local_ttl} (time ttl : ℕ) (v : V)
        → Reachable s
        → Reachable (set_value client key local_ttl time v ttl s).1
    after_get :
        {s : Integer client key local_ttl} (now time : ℕ)
        → Reachable s
        → Reachable (get_value client key local_ttl now time s).1
    after_increment :
        {s : Integer client key local_ttl} (v : V) (ttl : ℕ)
        → Reachable s
        → Reachable (increment_value client key local_ttl v ttl s).1

  put-IsSingle :
      (time : ℕ) (v : V) (o : Outcome StoreError (Unit {0})) (s : Integer client key local_ttl)
      → IsSingle s.cache
      → IsSingle (after_put client key local_ttl time v o s).1.cache
  put-IsSingle time v (returned u) s i = set-IsSingle (time + local_ttl, v) i
  put-IsSingle time v (raised e) s i = i

  look_up-IsSingle :
      (time : ℕ) (o : Option (ℕ × V)) (r : Outcome StoreError V) (s : Integer client key local_ttl)
      → client.get s.server ≡ r
      → IsSingle s.cache
      → IsSingle (look_up client key local_ttl time o s).1.cache
  look_up-IsSingle time (some e) r s h i = i
  look_up-IsSingle time none (returned v) s h i = rw h (set-IsSingle (time + local_ttl, v) i)
  look_up-IsSingle time none (raised e) s h i = rw h i

  Reachable-IsSingle : {s : Integer client key local_ttl} → Reachable s → IsSingle s.cache
  unfolding set_value get_value increment_value
  Reachable-IsSingle (start σ) = empty
  Reachable-IsSingle (after_set {s = s} time ttl v r) =
      put-IsSingle time v (client.put v ttl s.server).0
        (record s { server = (client.put v ttl s.server).1 }) (Reachable-IsSingle r)
  Reachable-IsSingle (after_get {s = s} now time r) =
      look_up-IsSingle time _ (client.get s.server) (record s { cache = clear_cache now s.cache })
        refl (clear-IsSingle now (Reachable-IsSingle r))
  Reachable-IsSingle (after_increment {s = s} v ttl r) = Reachable-IsSingle r

  -- What `get` is to give: the local value, if it has not expired, and the server's otherwise.
  pub expected : Option (ℕ × V) → Server → Outcome StoreError V
  expected (some e) σ = returned e.1
  expected none σ = client.get σ

  look_up-expected :
      (time : ℕ) (o : Option (ℕ × V)) (r : Outcome StoreError V) (s : Integer client key local_ttl)
      → client.get s.server ≡ r
      → (look_up client key local_ttl time o s).0 ≡ expected o s.server
  unfolding expected
  look_up-expected time (some e) r s h = refl
  look_up-expected time none (returned v) s h = rw h refl
  look_up-expected time none (raised e) s h = rw h refl

  -- After any calls of `set`, `get` and `increment`, at any times, `get` gives the local value if
  -- it has not expired at the time of the call, and otherwise what the server answers.
  pub get_value-expected :
      {s : Integer client key local_ttl} (now time : ℕ)
      → Reachable s
      → (get_value client key local_ttl now time s).0
        ≡ expected (fresh now (Dict.get Text-discrete key s.cache)) s.server
  unfolding get_value
  get_value-expected {s} now time r =
      let i = Reachable-IsSingle r in
      look_up-expected time _ (client.get s.server) (record s { cache = clear_cache now s.cache })
        refl
      ∙ ap (λ o. expected o s.server)
          (get-clear_cache Text-discrete now key s.cache (IsSingle-Ordered i) (IsSingle-Unique i))
