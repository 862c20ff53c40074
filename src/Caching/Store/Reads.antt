-- ===== src/Caching/Store/Reads.antt =====
-- What `KeyValueStore.get` gives after a `put`, of the same key and of another one.
use mathlib.Core.Logic.{if_pos, if_neg}
use kh_common.Prelude.{
  le→leb, ℕ, ◌+◌, ◌≤◌, ◌≡◌, ◌≢◌, refl, ap, none, some, [], ◌∷◌, arith, leb, Bool-cases, inl, inr,
}
use kh_common.Prelude.Outcome.{returned}
use kh_common.Prelude.Dict
use kh_common.Prelude.Dict.{Unique}
use kh_common.Caching.Expiry.{Cache, clear_cache}
use kh_common.Caching.Store.{Client, Store, put, get}

module _ {ℓ} {K V : Type ℓ} (dec : Discrete K) where
  -- The clearing never brings in an entry, and it never drops one that has not expired.
  pub get-clear_cache-some :
      (now : ℕ) (k : K) (c : Cache K V) (e : ℕ × V)
      → Unique dec c
      → Dict.get dec k (clear_cache now c) ≡ some e
      → Dict.get dec k c ≡ some e
  unfolding clear_cache Dict.get
  get-clear_cache-some now k [] e u h = cc
  get-clear_cache-some now k ((j, f) ∷ c) e u h = elim (Bool-cases (leb now f.0)) [
    | inl keep ↦ let h' : Dict.get dec k ((j, f) ∷ c) ≡ some e = rw (keep) at h in h'
    | inr drop ↦
        let h' : Dict.get dec k (clear_cache now c) ≡ some e = rw (drop) at h in
        let ih = get-clear_cache-some now k c e u.1 h' in
        elim (dec j k) [
          | yes p ↦ let absent : Dict.get dec k c ≡ none = rw (← p) u.0 in cc
          | no p ↦ rw (if_neg _ p) ih
        ]
  ]

  pub get-clear_cache_live :
      (now : ℕ) (k : K) (c : Cache K V) (e : ℕ × V)
      → now ≤ e.0
      → Dict.get dec k c ≡ some e
      → Dict.get dec k (clear_cache now c) ≡ some e
  unfolding clear_cache Dict.get
  get-clear_cache_live now k [] e h g = cc
  get-clear_cache_live now k ((j, f) ∷ c) e h g = ground (arith, get-clear_cache_live now k c e h)

module _ {ℓ} {K V : Type ℓ} (dec : Discrete K) (client : Client K V) where
  open client use {Server}

  pub put_returned :
      (t ttl : ℕ) (k : K) (v : V) (s : Store dec client)
      → (put dec client t k v ttl s).0 ≡ returned tt
      → (put dec client t k v ttl s).1 ≡ record s {
        cache = Dict.set dec k (t + s.local_ttl, v) s.cache;
        server = (client.put k v ttl s.server).1;
      }
  unfolding put
  put_returned t ttl k v s h = ground arith

  pub get_hit :
      (now later : ℕ) (k : K) (s : Store dec client) (e : ℕ × V)
      → Dict.get dec k (clear_cache now s.cache) ≡ some e
      → get dec client now later k s ≡ (returned e.1, record s { cache = clear_cache now s.cache })
  unfolding get
  get_hit now later k s e h = rw h

  -- A value that `put` has stored is read back, with no other result, until its local TTL has
  -- passed, whatever the server answers in between and whatever else is cached.
  pub get-put :
      (t ttl now later : ℕ) (k : K) (v : V) (s : Store dec client)
      → (put dec client t k v ttl s).0 ≡ returned tt
      → now ≤ t + s.local_ttl
      → (get dec client now later k (put dec client t k v ttl s).1).0 ≡ returned v
  get-put t ttl now later k v s h w = rw (put_returned t ttl k v s h) (
      ap (λ o. o.0)
        (get_hit now later k _ (t + s.local_ttl, v)
          (get-clear_cache_live dec now k _ (t + s.local_ttl, v) w
            (Dict.get-set_self dec k _ s.cache))))

  -- An entry behind that of a key which is put again is served past its expiration `x`, for as long
  -- as the new entry is live: the clearing stops at the first entry, and `put` gives the key a
  -- later expiration in its old place.
  pub get_stale :
      (t ttl now later : ℕ) (k j : K) (v w : V) (x : ℕ) (e : ℕ × V) (rest : Cache K V)
      (s : Store dec client)
      → s.cache ≡ (k, e) ∷ rest
      → k ≢ j
      → Dict.get dec j rest ≡ some (x, w)
      → (put dec client t k v ttl s).0 ≡ returned tt
      → now ≤ t + s.local_ttl
      → (get dec client now later j (put dec client t k v ttl s).1).0 ≡ returned w
  unfolding Dict.get Dict.set clear_cache
  get_stale t ttl now later k j v w x e rest s c d g h b = rw (put_returned t ttl k v s h) (
      ap (λ o. o.0)
        (get_hit now later j _ (x, w) (rw (c, if_pos _ refl, le→leb _ _ b, if_neg _ d) g)))
