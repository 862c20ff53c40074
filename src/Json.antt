-- ===== src/Json.antt =====
-- `json_stream` of kh_common/utilities/json.py, which makes a structure of plain JSON from a value. A
-- value is here what the function tells apart: the class by which it is converted, with what the
-- conversion reads. What `str`, `float`, `name` and `hex` give is part of the value.
pub mod Plain
pub mod Lookup
use kh_common.Prelude.{ℕ, zero, suc, Option, none, some, List, [], ◌∷◌, Bool, true, false}
use kh_common.Prelude.Outcome.{Outcome, returned, raised, ◌>>=◌}
use kh_common.Prelude.Text.{Text, Text-discrete, codes}

-- The four classes whose elements are listed.
pub data Sequence : Type 0 where
  list tuple set filter : Sequence

-- The AttributeError of `x.keys()` on a zip.
pub data JsonError : Type 0 where
  attribute_error : JsonError

-- `user` is a KhUser, without a token or with the token's fields; `model` is a BaseModel by the entries
-- of its `dict()`; `other` is a value of any other class, and whether it is truthy. The keys of a
-- dictionary are given by their `str`.
mutual
  pub data Value : Type 0 where
    null : Value
    boolean : Bool → Value
    number : ℕ → Value
    text : Text → Value
    datetime : Text → Value
    decimal : ℕ → Value
    enum : Text → Value
    uuid : Text → Value
    sequence : Sequence → Values → Value
    dict : Entries → Value
    zip : Value
    user : ℕ → Values → Value
    user_with : ℕ → Values → Text → Text → Value → Value
    model : Entries → Value
    other : ℕ → Bool → Value

  pub data Values : Type 0 where
    no_value : Values
    and_value : Value → Values → Values

  pub data Entries : Type 0 where
    no_entry : Entries
    and_entry : Text → Value → Entries → Entries

-- `bool(x)`, by which `filter(None, …)` chooses
unfoldable pub is_truthy : Value → Bool
is_truthy null = false
is_truthy (boolean b) = b
is_truthy (number zero) = false
is_truthy (text []) = false
is_truthy (decimal zero) = false
is_truthy (sequence filter vs) = true
is_truthy (sequence k no_value) = false
is_truthy (dict no_entry) = false
is_truthy (other n b) = b
is_truthy v = true

-- `d[k] = v`
unfoldable pub set_entry : Text → Value → Entries → Entries
set_entry k v no_entry = and_entry k v no_entry
set_entry k v (and_entry j w d) = elim (Text-discrete j k) [
  | yes p ↦ and_entry j v d
  | no p ↦ and_entry j w (set_entry k v d)
]

-- `d.update(e)`, which is also what `dict` and `**` do with pairs
unfoldable pub merge : Entries → Entries → Entries
unfolding set_entry
merge d no_entry = d
merge d (and_entry k v e) = merge (set_entry k v d) e

-- An element of a list, where it is kept, and the others
abbrev pub chosen :
    Bool → Outcome JsonError Value → Outcome JsonError Values → Outcome JsonError Values
chosen true converted rest = do item ← converted; items ← rest; returned (and_value item items)
chosen false converted rest = rest

abbrev pub user_entries : ℕ → Value → Value → Entries
user_entries user_id scope token =
    and_entry (codes "user_id") (number user_id)
      (and_entry (codes "scope") scope (and_entry (codes "token") token no_entry))

abbrev pub token_entries : Text → Text → Value → Entries
token_entries expires guid content =
    and_entry (codes "expires") (text expires)
      (and_entry (codes "guid") (text guid) (and_entry (codes "data") content no_entry))

unfoldable mutual
  unfolding is_truthy merge

  -- `json_stream`
  pub json_stream : Value → Outcome JsonError Value
  json_stream (datetime t) = returned (text t)
  json_stream (decimal n) = returned (number n)
  json_stream (enum name) = returned (text name)
  json_stream (uuid hex) = returned (text hex)
  json_stream (sequence k vs) = do items ← stream_values vs; returned (sequence list items)
  json_stream (dict es) = do entries ← stream_entries es; returned (dict (merge no_entry entries))
  json_stream zip = raised attribute_error
  json_stream (user user_id scope) = do
    scopes ← stream_values scope
    returned (dict (user_entries user_id (sequence list scopes) null))
  json_stream (user_with user_id scope expires guid content) = do
    scopes ← stream_values scope
    returned (
        dict
          (user_entries user_id (sequence list scopes) (dict (token_entries expires guid content))))
  json_stream (model es) = do entries ← stream_entries es; returned (dict (merge no_entry entries))
  json_stream v = returned v

  -- `list(map(json_stream, filter(None, x)))`; the elements that are dropped are not converted.
  pub stream_values : Values → Outcome JsonError Values
  stream_values no_value = returned no_value
  stream_values (and_value v vs) = chosen (is_truthy v) (json_stream v) (stream_values vs)

  -- The pairs of a dictionary
  pub stream_entries : Entries → Outcome JsonError Entries
  stream_entries no_entry = returned no_entry
  stream_entries (and_entry k v es) = do
    item ← json_stream v
    entries ← stream_entries es
    returned (and_entry k item entries)
