-- ===== src/Utilities.antt =====
-- Small parts: `stringSlice` of kh_common/utilities/__init__.py, `Terminated` of
-- kh_common/utilities/signal.py, `CalcDict` of kh_common/caching/__init__.py, and `safeJoin` of
-- kh_common/safe_join.py.
use kh_common.Prelude.{
  ℕ, suc, ◌+◌, ◌-◌, ◌≡◌, refl, ap, ◌∙◌, Option, none, some, List, [], ◌∷◌, ◌++◌, Bool, true, false,
  ◌&&◌, if◌then◌else◌,
}
use kh_common.Prelude.Lists.{length, take, drop}
use kh_common.Prelude.Outcome.{Outcome, returned, raised}
use kh_common.Prelude.Dict
use kh_common.Prelude.Dict.{Dict}
use kh_common.Prelude.Text.{Text, starts_with, rfind}

pub data HelperError : Type 0 where
  assertion_error not_found : HelperError

-- `text.find(sub)`, with `none` for -1
unfoldable pub find : Text → Text → Option ℕ
unfolding starts_with
find [] sub = if starts_with [] sub then some 0 else none
find (c ∷ text) sub =
    let rest = find text sub in
    if starts_with (c ∷ text) sub
    then some 0
    else (elim rest [ some i ↦ some (suc i) | none ↦ none ])

-- `string.rfind(start) + len(start) if start else None`, where the slice begins; a missing `start`
-- counts as found at -1.
unfoldable pub slice_start : Text → Text → ℕ
unfolding rfind
slice_start text [] = 0
slice_start text (c ∷ start) = elim (rfind text (c ∷ start)) [
  | some i ↦ i + length (c ∷ start)
  | none ↦ length (c ∷ start) - 1
]

-- `string.find(end) if end else None`, where the slice ends; -1 is the place before the last
-- character.
unfoldable pub slice_end : Text → Text → ℕ
unfolding find
slice_end text [] = length text
slice_end text (c ∷ end) = elim (find text (c ∷ end)) [ some i ↦ i | none ↦ length text - 1 ]

-- `start or end`, on texts
abbrev pub either_set : Text → Text → Bool
either_set [] [] = false
either_set start end = true

-- `stringSlice`; an argument that is not given is the empty text.
unfoldable pub string_slice : Text → Text → Text → Outcome HelperError (Option Text)
unfolding slice_start slice_end
string_slice [] start end = returned none
string_slice (c ∷ text) start end =
    if either_set start end
    then returned (
        some (
          take (slice_end (c ∷ text) end - slice_start (c ∷ text) start)
            (drop (slice_start (c ∷ text) start) (c ∷ text))))
    else raised assertion_error

-- `Terminated`: whether the process goes on, and the functions that run at its end.
pub record Terminated (F : Type 0) : Type 0 where
  pub alive : Bool
  pub run_on_term : List F

unfoldable pub on_terminate : {F : Type 0} → F → Terminated F → Terminated F
on_terminate f s = record s { run_on_term = s.run_on_term ++ f ∷ [] }

-- The loop over the functions, up to one that raises: those that were called, and whether all were.
unfoldable pub run_all : {F : Type 0} → (F → Bool) → List F → List F × Bool
run_all returns [] = ([], true)
run_all returns (f ∷ fs) =
    let (called, all) = run_all returns fs in
    if returns f then (f ∷ called, all) else (f ∷ [], false)

-- `terminate`: if a function raises, the process stays alive, and the functions are kept.
unfoldable pub terminate : {F : Type 0} → (F → Bool) → Terminated F → List F × Terminated F
unfolding run_all
terminate returns s =
    let (called, all) = run_all returns s.run_on_term in
    (called, (if all then record { alive = false; run_on_term = [] } else s))

-- `CalcDict`, and its `default`
pub record CalcDict (E K V : Type 0) : Type 0 where
  pub entries : Dict K V
  pub default : K → Outcome E V

unfoldable pub setdefault : {E K V : Type 0} → (K → Outcome E V) → CalcDict E K V → CalcDict E K V
setdefault default d = record d { default = default }

module _ {E K V : Type 0} (dec : Discrete K) where
  -- `self[key] = self.default(key); return self[key]`
  unfoldable pub missing : K → CalcDict E K V → Outcome E V → Outcome E V × CalcDict E K V
  missing key d (returned v) = (returned v, record d { entries = Dict.set dec key v d.entries })
  missing key d (raised e) = (raised e, d)

  unfoldable pub present : K → CalcDict E K V → Option V → Outcome E V × CalcDict E K V
  unfolding missing
  present key d (some v) = (returned v, d)
  present key d none = missing key d (d.default key)

  -- `d[key]`
  unfoldable pub get_item : K → CalcDict E K V → Outcome E V × CalcDict E K V
  unfolding present
  get_item key d = present key d (Dict.get dec key d.entries)

  missing-set :
      (key : K) (d : CalcDict E K V) (o : Outcome E V) (v : V) (t : CalcDict E K V)
      → missing key d o ≡ (returned v, t)
      → Dict.get dec key t.entries ≡ some v
  unfolding missing
  missing-set key d (returned w) v t h =
      let e : t ≡ record d { entries = Dict.set dec key w d.entries } = cc in
      let f : w ≡ v = cc in
      ap (λ x. Dict.get dec key (x.entries)) e ∙ (Dict.get-set_self dec key w d.entries ∙ ap some f)
  missing-set key d (raised e) v t h = cc

  present-set :
      (key : K) (d : CalcDict E K V) (o : Option V) (v : V) (t : CalcDict E K V)
      → Dict.get dec key d.entries ≡ o
      → present key d o ≡ (returned v, t)
      → Dict.get dec key t.entries ≡ some v
  unfolding present
  present-set key d (some w) v t g h =
      let e : t ≡ d = cc in
      let f : w ≡ v = cc in ap (λ x. Dict.get dec key (x.entries)) e ∙ (g ∙ ap some f)
  present-set key d none v t g h = missing-set key d (d.default key) v t h

  -- A value that was read is read again, whatever the default has become.
  pub get_item-again :
      (key : K) (d t : CalcDict E K V) (v : V) (default : K → Outcome E V)
      → get_item key d ≡ (returned v, t)
      → (get_item key (setdefault default t)).0 ≡ returned v
  unfolding get_item setdefault present
  get_item-again key d t v default h =
      let e = present-set key d (Dict.get dec key d.entries) v t refl h in rw e refl

-- `safeJoin` after `realpath`; `exists` is `os.path.exists`, and `contains` is `folder in path`.
module _ (contains : Text → Text → Bool) (exists : Text → Bool) where
  unfoldable pub none_in : Text → List Text → Bool
  none_in path [] = true
  none_in path (folder ∷ folders) = if contains folder path then false else none_in path folders

  unfoldable pub safe_join : Text → List Text → Text → Outcome HelperError Text
  unfolding none_in starts_with
  safe_join cwd folders path =
      if starts_with path cwd && (none_in path folders && exists path)
      then returned path
      else raised not_found
