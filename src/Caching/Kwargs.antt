-- ===== src/Caching/Kwargs.antt =====
-- `KwargsCache` of kh_common/caching/__init__.py, with `_convert_item` and `_cache_stream`. As for
-- `ArgsCache`, a call that is alone in the wrapper is modelled.
pub mod Sorted
pub mod Canonical
use kh_common.Prelude.{
  ℕ, ◌≡◌, Option, none, some, List, [], ◌∷◌, Bool, true, false, ltb, ◌==◌, if◌then◌else◌,
  ℕ_discrete,
}
use kh_common.Prelude.Outcome.{Outcome, returned, raised}
use kh_common.Prelude.Dict.{Dict}
use kh_common.Prelude.Text.{Text, Text-discrete}
use kh_common.Caching.Expiry.{Cache}
use kh_common.Caching.Args
use kh_common.Caching.Binding.{Signature, Arguments, bound}

-- The arguments as `_convert_item` tells them apart: a str, any other value that is no Iterable, a
-- dict, and any other Iterable with its items in order. The keys of a dict are texts.
mutual
  pub data Value (A : Type 0) : Type 0 where
    text : Text → Value A
    atom : A → Value A
    items : Values A → Value A
    mapping : Entries A → Value A

  pub data Values (A : Type 0) : Type 0 where
    nil : Values A
    cons : Value A → Values A → Values A

  pub data Entries (A : Type 0) : Type 0 where
    end : Entries A
    entry : Text → Value A → Entries A → Entries A

-- What they are converted to.
mutual
  pub data Key (A : Type 0) : Type 0 where
    text : Text → Key A
    atom : A → Key A
    tuple : Keys A → Key A

  pub data Keys (A : Type 0) : Type 0 where
    nil : Keys A
    cons : Key A → Keys A → Keys A

unfoldable pub Key-discrete : {A : Type 0} → Discrete A → Discrete (Key A)
unfolding Text-discrete
Key-discrete dec = hlevel (dec, ℕ_discrete)

-- Python's order on texts: by code points, a proper prefix first.
unfoldable pub before : Text → Text → Bool
before s [] = false
before [] (d ∷ t) = true
before (c ∷ s) (d ∷ t) = if c == d then before s t else ltb c d

-- `sorted(stream.keys())`, each key with its value
unfoldable pub insert : {V : Type 0} → Text → V → Dict Text V → Dict Text V
unfolding before
insert k v [] = (k, v) ∷ []
insert k v ((j, w) ∷ d) = if before k j then (k, v) ∷ (j, w) ∷ d else (j, w) ∷ insert k v d

unfoldable pub sort : {V : Type 0} → Dict Text V → Dict Text V
unfolding insert
sort [] = []
sort ((k, v) ∷ d) = insert k v (sort d)

-- The tuple of pairs.
unfoldable pub pairs : {A : Type 0} → Dict Text (Key A) → Keys A
pairs [] = Keys.nil
pairs ((k, v) ∷ d) = Keys.cons (Key.tuple (Keys.cons (Key.text k) (Keys.cons v Keys.nil))) (pairs d)

-- `_convert_item`, and `_cache_stream` on a sequence and on a dict. No type that is in `_conversions`
-- gets as far as the loop over these, since both are Iterable.
unfoldable mutual
  unfolding pairs sort

  pub convert : {A : Type 0} → Value A → Key A
  convert (Value.text t) = Key.text t
  convert (Value.atom a) = Key.atom a
  convert (items vs) = Key.tuple (convert_items vs)
  convert (mapping es) = Key.tuple (pairs (sort (convert_entries es)))

  pub convert_items : {A : Type 0} → Values A → Keys A
  convert_items Values.nil = Keys.nil
  convert_items (Values.cons v vs) = Keys.cons (convert v) (convert_items vs)

  pub convert_entries : {A : Type 0} → Entries A → Dict Text (Key A)
  convert_entries end = []
  convert_entries (entry k v es) = (k, convert v) ∷ convert_entries es

unfoldable pub convert_values : {A : Type 0} → Dict Text (Value A) → Dict Text (Key A)
unfolding convert
convert_values [] = []
convert_values ((k, v) ∷ d) = (k, convert v) ∷ convert_values d

-- `_cache_stream({ **kw, **dict(zip(arg_spec, args)), **kwargs })`
unfoldable pub cache_key : {A : Type 0} → Signature (Value A) → Arguments (Value A) → Key A
unfolding convert_values sort pairs bound
cache_key signature arguments =
    Key.tuple (pairs (sort (convert_values (bound signature arguments))))

-- The wrapper.
unfoldable pub call :
    {A E V : Type 0}
    → Discrete A
    → ℕ
    → Signature (Value A)
    → Cache (Key A) V
    → Arguments (Value A)
    → ℕ
    → ℕ
    → Outcome E V
    → Outcome E V × Cache (Key A) V
unfolding Key-discrete cache_key
call dec ttl signature cache arguments now done outcome =
    Args.call (Key-discrete dec) ttl cache
      (record { key = cache_key signature arguments; now = now; done = done; outcome = outcome })
