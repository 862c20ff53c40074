-- ===== src/Tests/Overlaps.antt =====
-- Overlapping calls of the key-value store of kh_common/caching/key_value_store.py at concrete inputs,
-- over a server that keeps its records as a function.
use kh_common.Prelude.{
  ℕ, ◌≤◌, ◌≡◌, ◌⊎◌, inl, inr, Option, none, some, List, [], ◌∷◌, true, ℕ_discrete, arith,
}
use kh_common.Prelude.Outcome.{Outcome, returned, raised}
use kh_common.Caching.Store.{StoreError, record_not_found, Client}
use kh_common.Caching.Store.Overlap.{
  Event, begin_get, fetch, finish_get, put_server, put_local, Shared, run,
}
use kh_common.Caching.Store.Overlap.Held.{IsKeeping, IsHeld, run-IsHeld}

abbrev read : Option ℕ → Outcome StoreError ℕ
read none = raised record_not_found
read (some v) = returned v

abbrev Table : Type 0
Table = ℕ → Option ℕ

abbrev changed : {k j : ℕ} → Dec (k ≡ j) → Option ℕ → Option ℕ → Option ℕ
changed (yes p) new old = new
changed (no p) new old = old

abbrev table : Client ℕ ℕ
table = record {
  Server = Table;
  put = λ k v ttl σ. (returned tt, λ j. changed (ℕ_discrete k j) (some v) (σ j));
  get = λ k σ. read (σ k);
  get_many = λ ks σ. returned [];
  remove = λ k σ. (returned tt, λ j. changed (ℕ_discrete k j) none (σ j));
  exists = λ k σ. returned true;
  truncate = λ σ j. none;
}

put_kept :
    (k j v w : ℕ) (d : Dec (k ≡ j)) (old : Option ℕ)
    → read (changed d (some v) old) ≡ returned w
    → (read old ≡ returned w) ⊎ ((k ≡ j) × (v ≡ w))
put_kept k j v w (yes p) old h = inr (p, cc)
put_kept k j v w (no p) old h = inl h

remove_kept :
    (k j w : ℕ) (d : Dec (k ≡ j)) (old : Option ℕ)
    → read (changed d none old) ≡ returned w
    → read old ≡ returned w
remove_kept k j w (yes p) old h = cc
remove_kept k j w (no p) old h = h

table-IsKeeping : IsKeeping table
table-IsKeeping = record {
  get-put = λ k j v w ttl σ h. put_kept k j v w (ℕ_discrete k j) (σ j) h;
  get-remove = λ k j w σ h. remove_kept k j w (ℕ_discrete k j) (σ j) h;
}

-- The server has 7 for every key.
abbrev fresh : Shared ℕ_discrete table
fresh = record {
  store = record { cache = []; local_ttl = 5; server = λ j. some 7 };
  getting = none;
  due = [];
  served = [];
}

abbrev AtLeast : ℕ → ℕ → Type 0
AtLeast k v = 7 ≤ v

read_seven : (v : ℕ) → read (some 7) ≡ returned v → 7 ≤ v
read_seven v h = let q : 7 ≡ v = cc in omega arith

fresh-IsHeld : IsHeld ℕ_discrete table AtLeast fresh
fresh-IsHeld = record {
  on_server = λ k v h. read_seven v h;
  in_cache = tt;
  in_get = tt;
  in_put = tt;
  in_served = tt;
}

-- A put comes in while a get has read the old value, which the local cache then keeps.
abbrev events : List (Event ℕ ℕ)
events =
    begin_get 10 1 ∷ fetch ∷ put_server 1 9 0 ∷ put_local 0 11 ∷ finish_get 12 ∷ begin_get 13 1 ∷ []

run-IsHeld_example : IsHeld ℕ_discrete table AtLeast (run ℕ_discrete table fresh events)
run-IsHeld_example =
    run-IsHeld ℕ_discrete table table-IsKeeping AtLeast events fresh
      (tt, (tt, (omega arith, (tt, (tt, (tt, tt)))))) fresh-IsHeld
