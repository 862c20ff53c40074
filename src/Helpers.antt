-- ===== src/Helpers.antt =====
-- Small classes and functions: `Hashable` of kh_common/hashing.py, `Map` of kh_common/map.py, and
-- `flatten` of kh_common/utilities/__init__.py. The hash of a text and the query to the database are
-- parameters.
use kh_common.Prelude.{ℕ, suc, Option, none, some, List, [], ◌∷◌, ◌++◌}
use kh_common.Prelude.Outcome.{Outcome, returned, raised}
use kh_common.Prelude.Dict
use kh_common.Prelude.Dict.{Dict}
use kh_common.Prelude.Text.{Text, codes}

-- `Hashable.__init__`, over the number of objects so far: the hash of the object, and the number
-- after it. `decimal` is how a number is written.
unfoldable pub init_hash : (Text → ℕ) → (ℕ → Text) → Text → ℕ → ℕ × ℕ
init_hash hash decimal class_name count = (
  hash (codes "<class '" ++ (class_name ++ (codes "' " ++ (decimal count ++ codes ">")))),
  suc count,
)

-- A value as `flatten` takes it: a text, a dictionary by its values, another iterable by its elements,
-- or a value that is not iterable, for which `for` raises TypeError.
mutual
  pub data Item : Type 0 where
    text : Text → Item
    dict : Items → Item
    iterable : Items → Item
    atom : ℕ → Item

  pub data Items : Type 0 where
    no_item : Items
    and_item : Item → Items → Items

unfoldable mutual
  pub flatten : Item → List Item
  flatten (text t) = text t ∷ []
  flatten (dict items) = flatten_all items
  flatten (iterable items) = flatten_all items
  flatten (atom n) = atom n ∷ []

  pub flatten_all : Items → List Item
  flatten_all no_item = []
  flatten_all (and_item i items) = flatten i ++ flatten_all items

-- An error of the query, or the TypeError of `data[0]` where there is no row
pub data MapError : Type 0 where
  query_error type_error : MapError

module _ {ℓ} {K V : Type ℓ} (dec : Discrete K) (query : K → Outcome MapError (Option V)) where
  after_query : K → Outcome MapError (Option V) → Dict K V → Outcome MapError V × Dict K V
  after_query k (returned (some v)) d = (returned v, Dict.set dec k v d)
  after_query k (returned none) d = (raised type_error, d)
  after_query k (raised e) d = (raised e, d)

  look : K → Option V → Dict K V → Outcome MapError V × Dict K V
  unfolding after_query
  look k (some v) d = (returned v, d)
  look k none d = after_query k (query k) d

  -- `m[k]` with `Map.__missing__`
  unfoldable pub get_item : K → Dict K V → Outcome MapError V × Dict K V
  unfolding look
  get_item k d = look k (Dict.get dec k d) d
