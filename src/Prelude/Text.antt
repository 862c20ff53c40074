-- ===== src/Prelude/Text.antt =====
-- Text as the list of its code points.
use Prim.Native.Char.{code}
use Prim.Native.String.{String}
use Prim.Native.Nat.{ℕ, zero, suc, ◌+◌, ◌≤◌}
use mathlib.Core.List.{List, [], ◌∷◌, ◌++◌}
use mathlib.Core.Option.{Option, none, some}
use mathlib.Core.Bool.{Bool, true, false, ◌&&◌}
use kh_common.Prelude.Lists.{length, take, drop}
use mathlib.Core.Path.{◌≡◌, refl}
use mathlib.Core.Logic.{inl, inr}
use native.Mathlib.Nat.{zero-add, add-zero, suc-add}
use native.Mathlib.Omega.{arith}
use kh_common.Prelude.Tests.{Bool-cases, Option-cases, leb, ◌==◌, if◌then◌else◌}
use native.Mathlib.Decide.{ℕ_discrete}

abbrev pub Text : Type 0
Text = List ℕ

abbrev pub codes : String → Text
codes String.[] = []
codes (String.◌∷◌ c s) = code c ∷ codes s

-- How often a character stands in a text.
unfoldable pub count : ℕ → Text → ℕ
count c [] = 0
count c (x ∷ xs) = if x == c then suc (count c xs) else count c xs

unfoldable pub total : ℕ → List Text → ℕ
unfolding count
total c [] = 0
total c (t ∷ ts) = count c t + total c ts

-- `sep.join(ts)`
unfoldable pub join_text : Text → List Text → Text
join_text sep [] = []
join_text sep (t ∷ []) = t
join_text sep (t ∷ u ∷ ts) = t ++ (sep ++ join_text sep (u ∷ ts))

pub count-append : (c : ℕ) (s t : Text) → count c (s ++ t) ≡ count c s + count c t
unfolding count
count-append c [] t = omega arith
count-append c (x ∷ s) t = ground (arith, count-append c s t)

pub count-join_text :
    (c : ℕ) (sep : Text) (ts : List Text)
    → count c sep ≡ 0
    → count c (join_text sep ts) ≡ total c ts
unfolding join_text total count
count-join_text c sep [] h = refl
count-join_text c sep (t ∷ []) h = omega arith
count-join_text c sep (t ∷ u ∷ ts) h = omega (
  arith,
  count-append c t (sep ++ join_text sep (u ∷ ts)),
  count-append c sep (join_text sep (u ∷ ts)),
  count-join_text c sep (u ∷ ts) h,
)

pub total-append : (c : ℕ) (ss ts : List Text) → total c (ss ++ ts) ≡ total c ss + total c ts
unfolding total
total-append c [] ts = omega arith
total-append c (s ∷ ss) ts = omega (arith, total-append c ss ts)

-- `str.startswith`
unfoldable pub starts_with : Text → Text → Bool
starts_with text [] = true
starts_with [] (c ∷ prefix) = false
starts_with (x ∷ text) (c ∷ prefix) = if x == c then starts_with text prefix else false

-- `text.rfind(sub)`, with `none` for -1
unfoldable pub rfind : Text → Text → Option ℕ
unfolding starts_with
rfind [] sub = if starts_with [] sub then some 0 else none
rfind (c ∷ text) sub = elim (rfind text sub) [
  | some i ↦ some (suc i)
  | none ↦ if starts_with (c ∷ text) sub then some 0 else none
]

pub starts_with-drop :
    (text sub : Text) → starts_with text sub ≡ true → text ≡ sub ++ drop (length sub) text
unfolding starts_with
starts_with-drop text [] h = refl
starts_with-drop [] (c ∷ sub) h = cc
starts_with-drop (x ∷ text) (c ∷ sub) h = ground (arith, starts_with-drop text sub)

-- What `rfind` finds stands there.
pub rfind-starts_with :
    (text sub : Text) (i : ℕ) → rfind text sub ≡ some i → starts_with (drop i text) sub ≡ true
unfolding rfind
rfind-starts_with [] sub i h = elim (Bool-cases (starts_with [] sub)) [
  | inl yes_ ↦ let h' : some 0 ≡ some i = rw yes_ at h in let e : 0 ≡ i = cc in rw (← e) yes_
  | inr no_ ↦ let h' : none ≡ some i = rw no_ at h in cc
]
rfind-starts_with (c ∷ text) sub i h = elim (Option-cases (rfind text sub)) [
  | inr (j, found) ↦
      let h' : some (suc j) ≡ some i = rw found at h in
      let e : suc j ≡ i = cc in rw (← e) (rfind-starts_with text sub j found)
  | inl missing ↦ elim (Bool-cases (starts_with (c ∷ text) sub)) [
    | inl yes_ ↦
        let h' : some 0 ≡ some i = rw (missing, yes_) at h in let e : 0 ≡ i = cc in rw (← e) yes_
    | inr no_ ↦ let h' : none ≡ some i = rw (missing, no_) at h in cc
  ]
]

pub drop-drop {ℓ} : {A : Type ℓ} (i n : ℕ) (xs : List A) → drop n (drop i xs) ≡ drop (i + n) xs
drop-drop zero n xs = rw zero-add
drop-drop (suc i) zero [] = rw (add-zero)
drop-drop (suc i) (suc n) [] = rw suc-add
drop-drop (suc i) n (x ∷ xs) = rw suc-add (drop-drop i n xs)

pub rfind-le : (text sub : Text) (i : ℕ) → rfind text sub ≡ some i → i ≤ length text
unfolding rfind
rfind-le [] sub i h = ground arith
rfind-le (c ∷ text) sub i h = elim (Option-cases (rfind text sub)) [
  | inr (j, found) ↦
      let h' : some (suc j) ≡ some i = rw found at h in
      let e : suc j ≡ i = cc in omega (arith, rfind-le text sub j found)
  | inl missing ↦ ground arith
]

pub starts_with-le : (text sub : Text) → starts_with text sub ≡ true → length sub ≤ length text
unfolding starts_with
starts_with-le text [] h = omega arith
starts_with-le [] (c ∷ sub) h = cc
starts_with-le (x ∷ text) (c ∷ sub) h = ground (arith, starts_with-le text sub)

starts_with-take :
    (n : ℕ) (text sub : Text) → starts_with (take n text) sub ≡ true → starts_with text sub ≡ true
unfolding starts_with
starts_with-take n text [] h = refl
starts_with-take zero text (c ∷ sub) h = cc
starts_with-take (suc n) [] (c ∷ sub) h = h
starts_with-take (suc n) (x ∷ text) (c ∷ sub) h = ground (arith, starts_with-take n text sub)

pub starts_with-drop-take :
    (i n : ℕ) (text sub : Text)
    → starts_with (drop i (take n text)) sub ≡ true
    → starts_with (drop i text) sub ≡ true
unfolding starts_with
starts_with-drop-take zero n text sub h = starts_with-take n text sub h
starts_with-drop-take (suc i) zero text [] h = refl
starts_with-drop-take (suc i) zero text (c ∷ sub) h = cc
starts_with-drop-take (suc i) (suc n) [] sub h = h
starts_with-drop-take (suc i) (suc n) (x ∷ text) sub h = starts_with-drop-take i n text sub h

unfoldable pub Text-discrete : Discrete Text
Text-discrete = hlevel ℕ_discrete

-- `str.lower`, on ASCII letters
unfoldable pub lower : Text → Text
lower [] = []
lower (c ∷ text) = (if leb b'A' c && leb c b'Z' then c + 32 else c) ∷ lower text

-- `if text:`
abbrev pub is_set : Option Text → Bool
is_set none = false
is_set (some []) = false
is_set (some (c ∷ text)) = true
