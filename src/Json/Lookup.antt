-- ===== src/Json/Lookup.antt =====
-- Looking a key up in the dictionaries of Json.antt.
use kh_common.Prelude.{◌≡◌, refl, ◌∙◌, Option, none, some, arith}
use kh_common.Prelude.Text.{Text, Text-discrete}
use kh_common.Json.{Value, Entries, no_entry, and_entry, set_entry, merge}

-- `d.get(k)`
unfoldable pub find : Text → Entries → Option Value
find k no_entry = none
find k (and_entry j v d) = elim (Text-discrete j k) [ yes p ↦ some v | no p ↦ find k d ]

abbrev pub or_else : Option Value → Option Value → Option Value
or_else (some v) w = some v
or_else none w = w

-- No key stands twice.
abbrev pub Distinct : Entries → Type 0
Distinct no_entry = Unit
Distinct (and_entry k v d) = (find k d ≡ none) × Distinct d

find-set_entry :
    (k j : Text) (v : Value) (d : Entries)
    → find k (set_entry j v d) ≡ elim (Text-discrete j k) [ yes p ↦ some v | no p ↦ find k d ]
unfolding find set_entry
find-set_entry k j v no_entry = refl
find-set_entry k j v (and_entry i w d) = ground (arith, find-set_entry k j v d)

set_entry-Distinct : (k : Text) (v : Value) (d : Entries) → Distinct d → Distinct (set_entry k v d)
unfolding find set_entry
set_entry-Distinct k v no_entry u = (refl, tt)
set_entry-Distinct k v (and_entry j w d) u =
    ground (arith, find-set_entry j k v d, set_entry-Distinct k v d)

merge-Distinct : (d e : Entries) → Distinct d → Distinct (merge d e)
unfolding merge
merge-Distinct d no_entry u = u
merge-Distinct d (and_entry k v e) u =
    merge-Distinct (set_entry k v d) e (set_entry-Distinct k v d u)

pub merged-Distinct : (e : Entries) → Distinct (merge no_entry e)
merged-Distinct e = merge-Distinct no_entry e tt

-- The later dictionary goes first.
pub find-merge :
    (k : Text) (d e : Entries) → Distinct e → find k (merge d e) ≡ or_else (find k e) (find k d)
unfolding find merge
find-merge k d no_entry u = refl
find-merge k d (and_entry j v e) u =
    find-merge k (set_entry j v d) e u.1 ∙ ground (arith, find-set_entry k j v d, u.0)
