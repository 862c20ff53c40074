-- ===== src/Json/Plain.antt =====
-- What `json_stream` of kh_common/utilities/json.py gives is plain JSON.
use kh_common.Prelude.{Bool, true, false}
use kh_common.Prelude.Outcome.{Outcome, returned, raised, Yields, Yields-bind}
use kh_common.Prelude.{arith}
use kh_common.Prelude.Text.{Text}
use kh_common.Json.{
  list, JsonError, Value, null, boolean, number, text, datetime, decimal, enum, uuid, sequence,
  dict, zip, user, user_with, model, other, Values, no_value, and_value, Entries, no_entry,
  and_entry, is_truthy, set_entry, merge, chosen, json_stream, stream_values, stream_entries,
}

-- Texts, numbers, truth values, None, lists, and dictionaries with texts as keys
abbrev mutual
  pub IsPlain : Value → Type 0
  IsPlain null = Unit
  IsPlain (boolean b) = Unit
  IsPlain (number n) = Unit
  IsPlain (text t) = Unit
  IsPlain (sequence list vs) = ArePlain vs
  IsPlain (dict es) = EntriesPlain es
  IsPlain v = ⊥

  pub ArePlain : Values → Type 0
  ArePlain no_value = Unit
  ArePlain (and_value v vs) = IsPlain v × ArePlain vs

  pub EntriesPlain : Entries → Type 0
  EntriesPlain no_entry = Unit
  EntriesPlain (and_entry k v es) = IsPlain v × EntriesPlain es

-- No zip and no value of a class that the function does not know stands in it, and the content of a
-- token is plain.
abbrev mutual
  pub IsKnown : Value → Type 0
  IsKnown zip = ⊥
  IsKnown (other n b) = ⊥
  IsKnown (sequence k vs) = AreKnown vs
  IsKnown (dict es) = EntriesKnown es
  IsKnown (model es) = EntriesKnown es
  IsKnown (user n vs) = AreKnown vs
  IsKnown (user_with n vs e g content) = AreKnown vs × IsPlain content
  IsKnown v = Unit

  pub AreKnown : Values → Type 0
  AreKnown no_value = Unit
  AreKnown (and_value v vs) = IsKnown v × AreKnown vs

  pub EntriesKnown : Entries → Type 0
  EntriesKnown no_entry = Unit
  EntriesKnown (and_entry k v es) = IsKnown v × EntriesKnown es

set_entry-EntriesPlain :
    (k : Text) (v : Value) (d : Entries)
    → IsPlain v
    → EntriesPlain d
    → EntriesPlain (set_entry k v d)
unfolding set_entry
set_entry-EntriesPlain k v no_entry p q = (p, tt)
set_entry-EntriesPlain k v (and_entry j w d) p q =
    ground (arith, set_entry-EntriesPlain k v d p q.1)

pub merge-EntriesPlain :
    (d e : Entries) → EntriesPlain d → EntriesPlain e → EntriesPlain (merge d e)
unfolding merge
merge-EntriesPlain d no_entry p q = p
merge-EntriesPlain d (and_entry k v e) p q =
    merge-EntriesPlain (set_entry k v d) e (set_entry-EntriesPlain k v d q.0 p) q.1

chosen-ArePlain :
    (b : Bool) (converted : Outcome JsonError Value) (rest : Outcome JsonError Values)
    → Yields IsPlain converted
    → Yields ArePlain rest
    → Yields ArePlain (chosen b converted rest)
chosen-ArePlain true (returned v) (returned vs) p q = (p, q)
chosen-ArePlain true (raised e) rest p q = absurd p
chosen-ArePlain true (returned v) (raised e) p q = absurd q
chosen-ArePlain false converted rest p q = q

mutual
  unfolding json_stream stream_values stream_entries

  stream-IsPlain : (v : Value) → IsKnown v → Yields IsPlain (json_stream v)
  stream-IsPlain null h = tt
  stream-IsPlain (boolean b) h = tt
  stream-IsPlain (number n) h = tt
  stream-IsPlain (text t) h = tt
  stream-IsPlain (datetime t) h = tt
  stream-IsPlain (decimal n) h = tt
  stream-IsPlain (enum t) h = tt
  stream-IsPlain (uuid t) h = tt
  stream-IsPlain (sequence k vs) h =
      Yields-bind ArePlain IsPlain (stream_values vs) _ (stream_values-ArePlain vs h) λ items p. p
  stream-IsPlain (dict es) h =
      Yields-bind EntriesPlain IsPlain (stream_entries es) _ (stream_entries-EntriesPlain es h)
        λ entries p. merge-EntriesPlain no_entry entries tt p
  stream-IsPlain zip h = absurd h
  stream-IsPlain (user n vs) h =
      Yields-bind ArePlain IsPlain (stream_values vs) _ (stream_values-ArePlain vs h)
        λ items p. (tt, (p, (tt, tt)))
  stream-IsPlain (user_with n vs e g content) h =
      Yields-bind ArePlain IsPlain (stream_values vs) _ (stream_values-ArePlain vs h.0)
        λ items p. (tt, (p, ((tt, (tt, (h.1, tt))), tt)))
  stream-IsPlain (model es) h =
      Yields-bind EntriesPlain IsPlain (stream_entries es) _ (stream_entries-EntriesPlain es h)
        λ entries p. merge-EntriesPlain no_entry entries tt p
  stream-IsPlain (other n b) h = absurd h

  stream_values-ArePlain : (vs : Values) → AreKnown vs → Yields ArePlain (stream_values vs)
  stream_values-ArePlain no_value h = tt
  stream_values-ArePlain (and_value v vs) h =
      chosen-ArePlain (is_truthy v) (json_stream v) (stream_values vs) (stream-IsPlain v h.0)
        (stream_values-ArePlain vs h.1)

  pub stream_entries-EntriesPlain :
      (es : Entries) → EntriesKnown es → Yields EntriesPlain (stream_entries es)
  stream_entries-EntriesPlain no_entry h = tt
  stream_entries-EntriesPlain (and_entry k v es) h =
      Yields-bind IsPlain EntriesPlain (json_stream v) _ (stream-IsPlain v h.0) λ item p.
        Yields-bind EntriesPlain EntriesPlain (stream_entries es) _
          (stream_entries-EntriesPlain es h.1) λ entries q. (p, q)

-- A value without zips and values of unknown classes, whose token, if it is a user with one, has
-- plain content, is converted without an exception to plain JSON.
pub json_stream-IsPlain : (v : Value) → IsKnown v → Yields IsPlain (json_stream v)
json_stream-IsPlain = stream-IsPlain
