-- ===== src/Tests/Remote.antt =====
-- kh_common/caching/key_value_store.py over a server that keeps its records in a dictionary, and
-- kh_common/caching/integer.py over one that keeps a number.
use kh_common.Prelude.{
  ◌+◌, ℕ, ◌≡◌, refl, Option, none, some, List, [], ◌∷◌, Bool, true, false, ℕ_discrete, arith,
}
use kh_common.Prelude.Outcome.{Outcome, returned, raised}
use kh_common.Prelude.Dict
use kh_common.Prelude.Dict.{Dict}
use kh_common.Prelude.Text.{Text, Text-discrete, codes}
use kh_common.Caching.Binding
use kh_common.Caching.Aerospike
use kh_common.Caching.Aerospike.{Settings}
use kh_common.Caching.Aerospike.Held.{after}
use kh_common.Caching.Aerospike.Again.{call_again}
use kh_common.Caching.Expiry.{clear_cache}
use kh_common.Caching.Expiry.Fresh.{fresh}
use kh_common.Caching.Counter.{IntegerClient, Integer, set_value, get_value, increment_value}
use kh_common.Caching.Counter.Expired
use kh_common.Caching.Counter.Expired.{after_set, after_increment, expected, get_value-expected}
use kh_common.Caching.Store.{StoreError, record_not_found, Client, Store, put, get}
use kh_common.Caching.Store.Coherent.{IsLawful, start, after_get, after_put, get_transparent}

abbrev read : Option ℕ → Outcome StoreError ℕ
read none = raised record_not_found
read (some v) = returned v

abbrev is_present : Option ℕ → Bool
is_present none = false
is_present (some v) = true

abbrev read_many : List ℕ → Dict ℕ ℕ → List (ℕ × Option ℕ)
read_many [] d = []
read_many (k ∷ ks) d = (k, Dict.get ℕ_discrete k d) ∷ read_many ks d

abbrev dictionary : Client ℕ ℕ
dictionary = record {
  Server = Dict ℕ ℕ;
  put = λ k v ttl d. (returned tt, Dict.set ℕ_discrete k v d);
  get = λ k d. read (Dict.get ℕ_discrete k d);
  get_many = λ ks d. returned (read_many ks d);
  remove = λ k d. (returned tt, Dict.remove ℕ_discrete k d);
  exists = λ k d. returned (is_present (Dict.get ℕ_discrete k d));
  truncate = λ d. [];
}

dictionary-IsLawful : IsLawful dictionary
dictionary-IsLawful = record {
  get-put_self = λ k v ttl d h. rw (Dict.get-set_self ℕ_discrete k v d);
  get-put_ne = λ k j v ttl d h. rw (Dict.get-set_ne ℕ_discrete k j v d h);
  get-remove_ne = λ k j d h. rw (Dict.get-remove_ne ℕ_discrete k j d h);
}

abbrev empty_store : Store ℕ_discrete dictionary
empty_store = record { cache = []; local_ttl = 5; server = [] }

get_transparent_example :
    (get ℕ_discrete dictionary 30 30 2
      (get ℕ_discrete dictionary 20 21 1 (put ℕ_discrete dictionary 10 1 7 0 empty_store).1).1).0
    ≡ dictionary.get 2
        (get ℕ_discrete dictionary 20 21 1
          (put ℕ_discrete dictionary 10 1 7 0 empty_store).1).1.server
unfolding put
get_transparent_example =
    get_transparent ℕ_discrete dictionary 30 30 2 dictionary-IsLawful
      (after_get 20 21 1 (after_put 10 0 1 7 refl (start 5 [])))

abbrev number : IntegerClient ℕ
number = record {
  Server = ℕ;
  put = λ v ttl n. (returned tt, v);
  get = λ n. returned n;
  increment = λ v ttl n. (returned tt, n + v);
}

abbrev counted : Integer number (codes "views") 5
counted =
    (increment_value number (codes "views") 5 3 0
      (set_value number (codes "views") 5 10 4 0 (record { cache = []; server = 1 })).1).1

get_value-expected_example :
    (get_value number (codes "views") 5 12 12 counted).0
    ≡ expected number
        (codes "views")
        5
        (fresh 12 (Dict.get Text-discrete (codes "views") counted.cache))
        counted.server
get_value-expected_example =
    get_value-expected number (codes "views") 5 12 12
      (after_increment 3 0 (after_set 10 0 4 (Expired.Reachable.start 1)))

abbrev settings : Settings Text ℕ ℕ ℕ
settings = record {
  signature = record { names = codes "a" ∷ codes "b" ∷ []; defaults = (codes "b", 2) ∷ [] };
  format = λ d. elim (Dict.get Text-discrete (codes "b") d) [
    | some b ↦ returned b
    | none ↦ raised (codes "KeyError")
  ];
  has_type = λ v. true;
  writable = true;
  ttl = 60;
}

-- The same call, by position and by keyword.
-- A call with another key, and one with the same key, after the result was stored.
abbrev between : List (Aerospike.Times × Binding.Arguments ℕ × Outcome Text ℕ)
between =
    (
      record { cleared = 12; received = 12; kept = 12 },
      record { args = 1 ∷ 3 ∷ []; kwargs = [] },
      returned 5,
    )
    ∷ (
      record { cleared = 13; received = 13; kept = 13 },
      record { args = 4 ∷ []; kwargs = [] },
      returned 8,
    )
    ∷ []

call_again_example :
    (Aerospike.call ℕ_discrete dictionary settings
      (record { cleared = 14; received = 14; kept = 14 })
      (record { args = []; kwargs = (codes "b", 2) ∷ (codes "a", 1) ∷ [] })
      (returned 99)
      (after ℕ_discrete dictionary settings between
        (Aerospike.call ℕ_discrete dictionary settings
          (record { cleared = 10; received = 10; kept = 12 })
          (record { args = 1 ∷ []; kwargs = [] })
          (returned 7)
          empty_store).1)).0
    ≡ returned 7
unfolding Dict.get Dict.set Text-discrete ℕ_discrete Binding.bound Binding.zipped Dict.update get
    clear_cache Aerospike.call put
call_again_example =
    call_again ℕ_discrete dictionary settings (record { cleared = 10; received = 10; kept = 12 })
      (record { cleared = 14; received = 14; kept = 14 }) (record { args = 1 ∷ []; kwargs = [] })
      (record { args = []; kwargs = (codes "b", 2) ∷ (codes "a", 1) ∷ [] }) (returned 99) 2 7
      empty_store _ between refl refl tt refl refl refl (omega arith, (omega arith, tt))
      (omega arith)
