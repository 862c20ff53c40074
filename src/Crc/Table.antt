-- ===== src/Crc/Table.antt =====
-- The table of kh_common/crc.py: the entry at `i` is the register after `i`, in its top byte, was
-- moved out of it by eight advances.
use kh_common.Prelude.{
  ℕ, zero, suc, ◌+◌, ◌-◌, ◌*◌, ◌≤◌, ◌<◌, ◌≡◌, refl, sym, ap, ◌∙◌, List, [], ◌∷◌, ◌++◌, map, ◌⊎◌,
  inl, inr, arith,
}
use mathlib.Core.Path.{subst}
use kh_common.Prelude.Lists.{length, length-append, length-map}
use kh_common.Prelude.Bits.{power, ◌⊕◌}
use kh_common.Prelude.Bits.Shifts.{power-pos, xor-shift, xor_disjoint}
use kh_common.Crc.{advance, build_table, at}
use kh_common.Crc.Linear.{advances, advances-xor, advances_after, advances_low, power-pred}

at-append_left : (xs ys : List ℕ) (i : ℕ) → i < length xs → at (xs ++ ys) i ≡ at xs i
unfolding at
at-append_left [] ys i h = absurd (omega arith)
at-append_left (x ∷ xs) ys zero h = refl
at-append_left (x ∷ xs) ys (suc i) h = at-append_left xs ys i (omega arith)

at-append_right : (xs ys : List ℕ) (i : ℕ) → at (xs ++ ys) (length xs + i) ≡ at ys i
unfolding at
at-append_right [] ys i = let same : 0 + i ≡ i = omega arith in ap (at ys) same
at-append_right (x ∷ xs) ys i =
    let same : suc (length xs) + i ≡ suc (length xs + i) = omega arith in
    ap (at (x ∷ xs ++ ys)) same ∙ at-append_right xs ys i

at-map : (f : ℕ → ℕ) (xs : List ℕ) (i : ℕ) → i < length xs → at (map f xs) i ≡ f (at xs i)
unfolding at
at-map f [] i h = absurd (omega arith)
at-map f (x ∷ xs) zero h = refl
at-map f (x ∷ xs) (suc i) h = at-map f xs i (omega arith)

pub side : (i n : ℕ) → i < n ⊎ n ≤ i
side i n = ground arith

assoc : (x y : ℕ) → 2 * (x * y) ≡ 2 * x * y
assoc x y = grind arith

pub power-add : (a b : ℕ) → power (a + b) ≡ power a * power b
power-add zero b = let same : 0 + b ≡ b = omega arith in omega (arith, ap power same)
power-add (suc a) b =
    let same : suc a + b ≡ suc (a + b) = omega arith in
    ap power same ∙ (ap (λ n. 2 * n) (power-add a b) ∙ assoc (power a) (power b))

module _ (w polynomial : ℕ) (wide : 8 ≤ w) where
  -- The register with a byte at its top, after eight advances
  abbrev pub moved_out : ℕ → ℕ
  moved_out i = advances w polynomial 8 (i * power (w - 8))

  moved_out-xor : (i j : ℕ) → moved_out (i ⊕ j) ≡ moved_out i ⊕ moved_out j
  moved_out-xor i j =
      ap (advances w polynomial 8) (xor-shift (w - 8) i j)
      ∙ advances-xor w polynomial 8 (i * power (w - 8)) (j * power (w - 8))

  reach : (k : ℕ) → k < 8 → power k * power (w - 8) * power (7 - k) ≡ power (w - 1)
  reach k h =
      let sum : k + (w - 8) + (7 - k) ≡ w - 1 = omega arith in
      ap (λ n. n * power (7 - k)) (sym (power-add k (w - 8)))
      ∙ (sym (power-add (k + (w - 8)) (7 - k)) ∙ ap power sum)

  -- The register of the loop in round `k`, with the digit at `k` moved out of it.
  moved_out-power :
      (k : ℕ) → k < 8 → moved_out (power k) ≡ advances w polynomial (suc k) (power (w - 1))
  moved_out-power k h =
      let bits : 8 ≡ 7 - k + suc k = omega arith in
      let start : ℕ = power k * power (w - 8) in
      let low : start * power (7 - k) < power w =
        omega (arith, reach k h, power-pred w (omega arith), power-pos (w - 1)) in
      ap (λ n. advances w polynomial n start) bits
      ∙ (sym (advances_after w polynomial (suc k) (7 - k) start)
          ∙ ap (advances w polynomial (suc k))
              (advances_low w polynomial (7 - k) start (omega arith) low ∙ reach k h))

  -- The table of `power k` entries that the loop has built by round `k`
  abbrev Entries : ℕ → List ℕ → Type 0
  Entries k table = (length table ≡ power k) × ((i : ℕ) → i < power k → at table i ≡ moved_out i)

  module _ (k : ℕ) (below : k < 8) (table : List ℕ) (entries : Entries k table) where
    abbrev mark : ℕ
    mark = moved_out (power k)

    abbrev doubled : List ℕ
    doubled = table ++ map (λ entry. mark ⊕ entry) table

    entry_low : (i : ℕ) → i < power k → at doubled i ≡ moved_out i
    entry_low i h =
        at-append_left table (map (λ entry. mark ⊕ entry) table) i (omega (arith, entries.0))
        ∙ entries.1 i h

    mark-xor : (j : ℕ) → j < power k → mark ⊕ moved_out j ≡ moved_out (power k + j)
    mark-xor j h =
        let once : 1 * power k ≡ power k = omega arith in
        sym (moved_out-xor (power k) j)
        ∙ ap moved_out (ap (λ n. n ⊕ j) (sym once) ∙ (xor_disjoint k 1 j h ∙ ap (λ n. n + j) once))

    entry_high : (j : ℕ) → j < power k → at doubled (power k + j) ≡ moved_out (power k + j)
    entry_high j h =
        ap (λ n. at doubled (n + j)) (sym entries.0)
        ∙ (at-append_right table (map (λ entry. mark ⊕ entry) table) j
            ∙ (at-map (λ entry. mark ⊕ entry) table j (omega (arith, entries.0))
                ∙ (ap (λ n. mark ⊕ n) (entries.1 j h) ∙ mark-xor j h)))

    entry_doubled :
        (i : ℕ) → i < power (suc k) → i < power k ⊎ power k ≤ i → at doubled i ≡ moved_out i
    entry_doubled i h (inl l) = entry_low i l
    entry_doubled i h (inr l) =
        let place : i ≡ power k + (i - power k) = omega arith in
        ap (at doubled) place ∙ (entry_high (i - power k) (omega arith) ∙ ap moved_out (sym place))

    -- A round doubles the table.
    Entries-doubled : Entries (suc k) doubled
    Entries-doubled = (
      omega (
        arith,
        entries.0,
        length-append table (map (λ entry. mark ⊕ entry) table),
        length-map (λ entry. mark ⊕ entry) table,
      ),
      λ i h. entry_doubled i h (side i (power k)),
    )

  next_mark :
      (k : ℕ)
      → k < 8
      → advance w polynomial (advances w polynomial k (power (w - 1))) ≡ moved_out (power k)
  unfolding advances
  next_mark k h =
      let once : k + 1 ≡ suc k = omega arith in
      advances_after w polynomial 1 k (power (w - 1))
      ∙ (ap (λ n. advances w polynomial n (power (w - 1))) once ∙ sym (moved_out-power k h))

  -- The rounds after `k`
  Entries-build_table :
      (rounds k crc : ℕ) (table : List ℕ)
      → k + rounds ≡ 8
      → crc ≡ advances w polynomial k (power (w - 1))
      → Entries k table
      → Entries 8 (build_table w polynomial rounds crc table)
  unfolding build_table
  Entries-build_table zero k crc table h e entries =
      let full : k ≡ 8 = omega arith in subst (λ n. Entries n table) full entries
  Entries-build_table (suc rounds) k crc table h e entries =
      let next : advance w polynomial crc ≡ moved_out (power k) =
        ap (advance w polynomial) e ∙ next_mark k (omega arith) in
      Entries-build_table rounds (suc k) (advance w polynomial crc)
        (table ++ map (λ entry. advance w polynomial crc ⊕ entry) table) (omega arith)
        (next ∙ moved_out-power k (omega arith))
        (subst (λ m. Entries (suc k) (table ++ map (λ entry. m ⊕ entry) table)) (sym next)
          (Entries-doubled k (omega arith) table entries))

  moved_out_zero : moved_out 0 ≡ 0
  moved_out_zero =
      let low : 0 * power (w - 8) * power 8 < power w = omega (arith, power-pos w) in
      advances_low w polynomial 8 (0 * power (w - 8)) (omega arith) low ∙ omega arith

  first_entry : Entries 0 (0 ∷ [])
  unfolding at
  first_entry = (
    refl,
    λ i h.
        let first : i ≡ 0 = omega arith in
        ap (at (0 ∷ [])) first ∙ (sym moved_out_zero ∙ ap moved_out (sym first)),
  )

  -- Every entry of a table that the loop has built.
  pub at-build_table :
      (i : ℕ) → i < 256 → at (build_table w polynomial 8 (power (w - 1)) (0 ∷ [])) i ≡ moved_out i
  unfolding advances
  at-build_table i h =
      (Entries-build_table 8 0 (power (w - 1)) (0 ∷ []) (omega arith) refl first_entry).1 i h
