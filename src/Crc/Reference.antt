-- ===== src/Crc/Reference.antt =====
-- The check of kh_common/crc.py against a division that goes bit by bit, without a table.
use kh_common.Prelude.{
  ℕ, zero, suc, ◌+◌, ◌-◌, ◌*◌, ◌/◌, ◌%◌, ◌≤◌, ◌<◌, ◌≡◌, refl, sym, ap, ◌∙◌, List, [], ◌∷◌, ltb,
  if◌then◌else◌, ◌⊎◌, inl, inr, arith,
}
use mathlib.Core.Path.{ap₂}
use kh_common.Prelude.Bits.{power, ◌⊕◌, xor_comm, xor_assoc}
use kh_common.Prelude.Bits.Shifts.{power-pos, xor-shift, xor_disjoint, xor-mod}
use native.Mathlib.Nat.{
  mod-lt, mul-le-mul_right, mod-eq_of_lt, div-add-mod', div-eq_of_lt-le, mod-eq-sub-mod,
  mul-add-mod_self_right, div-lt_iff_lt-mul,
}
use kh_common.Crc.{advance}
use kh_common.Crc.Linear.{
  advances, advances_low, power-pred, advance_lem, advance_low, top, selected,
}
use kh_common.Crc.Table.{power-add, side}

-- One digit of a long division: the register moves up, and where its top digit leaves it, the
-- polynomial is taken from the rest.
abbrev pub divide_bit : ℕ → ℕ → ℕ → ℕ
divide_bit w polynomial a =
    if ltb (a * 2) (power w) then a * 2 else (a * 2 - power w) ⊕ polynomial % power w

abbrev pub divide_bits : ℕ → ℕ → ℕ → ℕ → ℕ
divide_bits w polynomial zero a = a
divide_bits w polynomial (suc k) a = divide_bits w polynomial k (divide_bit w polynomial a)

-- The bytes, most significant digit first
abbrev pub divide : ℕ → ℕ → ℕ → List ℕ → ℕ
divide w polynomial a [] = a
divide w polynomial a (byte ∷ bytes) =
    divide w polynomial (divide_bits w polynomial 8 (a ⊕ byte * power (w - 8))) bytes

pub below_xor : (k a b : ℕ) → a < power k → b < power k → a ⊕ b < power k
below_xor k a b h l =
    let same : a % power k ⊕ b % power k ≡ a ⊕ b =
      ap₂ (λ x y. x ⊕ y) (mod-eq_of_lt h) (mod-eq_of_lt l) in
    omega (arith, mod-lt (a ⊕ b) (power-pos k), xor-mod k a b, same)

div_top : (a p : ℕ) → a < 2 * p → p ≤ a → a / p ≡ 1
div_top a p h l = div-eq_of_lt-le p (omega arith) (omega arith)

regrouped : (h s l : ℕ) → (h * s + l) * 256 ≡ h * (s * 256) + l * 256
regrouped h s l = grind arith

module _ {n m : ℕ} (x y : ℕ) where
  pub if_below : n < m → (if ltb n m then x else y) ≡ x
  if_below h = ground arith

  pub if_above : m ≤ n → (if ltb n m then x else y) ≡ y
  if_above h = ground arith

module _ (w polynomial : ℕ) (wide : 8 ≤ w) where
  pub advance-below : (a : ℕ) → advance w polynomial a < power w
  advance-below a = omega (
    arith,
    advance_lem w polynomial a,
    mod-lt (a * 2 ⊕ selected (top w polynomial a) polynomial) (power-pos w),
  )

  -- The top digit leaves the register.
  divided : (a : ℕ) → a < power w → power w ≤ a * 2 → a * 2 % power w ≡ a * 2 - power w
  divided a h l = mod-eq-sub-mod l ∙ mod-eq_of_lt (omega arith)

  top_high : (a : ℕ) → a < power w → power w ≤ a * 2 → top w polynomial a ≡ 1
  top_high a h l =
      let half : power w ≡ 2 * power (w - 1) = power-pred w (omega arith) in
      ap (λ n. n % 2) (div_top a (power (w - 1)) (omega arith) (omega arith))

  advance_high :
      (a : ℕ)
      → a < power w
      → power w ≤ a * 2
      → advance w polynomial a ≡ (a * 2 - power w) ⊕ polynomial % power w
  advance_high a h l =
      advance_lem w polynomial a
      ∙ (ap (λ t. (a * 2 ⊕ selected t polynomial) % power w) (top_high a h l)
          ∙ (xor-mod w (a * 2) polynomial ∙ ap (λ n. n ⊕ polynomial % power w) (divided a h l)))

  divide_bit_on :
      (a : ℕ)
      → a < power w
      → a * 2 < power w ⊎ power w ≤ a * 2
      → divide_bit w polynomial a ≡ advance w polynomial a
  divide_bit_on a h (inl l) =
      if_below (a * 2) (a * 2 - power w ⊕ polynomial % power w) l
      ∙ sym (advance_low w polynomial a (omega arith) l)
  divide_bit_on a h (inr l) =
      if_above (a * 2) (a * 2 - power w ⊕ polynomial % power w) l ∙ sym (advance_high a h l)

  pub divide_bit-advance :
      (a : ℕ) → a < power w → divide_bit w polynomial a ≡ advance w polynomial a
  divide_bit-advance a h = divide_bit_on a h (side (a * 2) (power w))

  pub divide_bits-advances :
      (k a : ℕ) → a < power w → divide_bits w polynomial k a ≡ advances w polynomial k a
  unfolding advances
  divide_bits-advances zero a h = refl
  divide_bits-advances (suc k) a h =
      ap (divide_bits w polynomial k) (divide_bit-advance a h)
      ∙ divide_bits-advances k (advance w polynomial a) (advance-below a)

  -- The digits of the register above and below its top byte
  abbrev pub high : ℕ → ℕ
  high a = a / power (w - 8)

  abbrev pub low : ℕ → ℕ
  low a = a % power (w - 8)

  parts : (a : ℕ) → a ≡ high a * power (w - 8) ⊕ low a
  parts a = sym (
      xor_disjoint (w - 8) (high a) (low a) (mod-lt a (power-pos (w - 8)))
      ∙ div-add-mod' a (power (w - 8)))

  whole : power w ≡ power (w - 8) * 256
  whole = let parted : w ≡ w - 8 + 8 = omega arith in ap power parted ∙ power-add (w - 8) 8

  pub high-below : (a : ℕ) → a < power w → high a < 256
  high-below a h =
      (div-lt_iff_lt-mul {k = power (w - 8)} {x = a} {y = 256} (power-pos (w - 8))).1
        (omega (arith, whole))

  pub low_moved : (a : ℕ) → advances w polynomial 8 (low a) ≡ a * 256 % power w
  low_moved a =
      let small : low a * 256 < power w = omega (arith, mod-lt a (power-pos (w - 8)), whole) in
      let split : a * 256 ≡ high a * power w + low a * 256 =
        ap (λ n. n * 256) (sym (div-add-mod' a (power (w - 8))))
        ∙ (regrouped (high a) (power (w - 8)) (low a)
            ∙ ap (λ n. high a * n + low a * 256) (sym whole)) in
      advances_low w polynomial 8 (low a) (omega arith) small
      ∙ sym (
          ap (λ n. n % power w) split
          ∙ (mul-add-mod_self_right (high a) (power w) (low a * 256) ∙ mod-eq_of_lt small))

  -- The byte is added at the top before the table is read.
  pub byte_added : (a byte : ℕ) → (byte ⊕ high a) * power (w - 8) ⊕ low a ≡ a ⊕ byte * power (w - 8)
  byte_added a byte =
      ap (λ n. n ⊕ low a) (xor-shift (w - 8) byte (high a))
      ∙ (xor_assoc (byte * power (w - 8)) (high a * power (w - 8)) (low a)
          ∙ (ap (λ n. byte * power (w - 8) ⊕ n) (sym (parts a))
              ∙ xor_comm (byte * power (w - 8)) a))

  pub advances-below : (k a : ℕ) → advances w polynomial (suc k) a < power w
  unfolding advances
  advances-below zero a = advance-below a
  advances-below (suc k) a = advances-below k (advance w polynomial a)

  pub byte_added-below :
      (a byte : ℕ) → a < power w → byte < 256 → a ⊕ byte * power (w - 8) < power w
  byte_added-below a byte h l =
      let top_byte : byte * power (w - 8) < power w = omega (
        arith,
        whole,
        mul-le-mul_right {m = byte} {n = 255} (power (w - 8)) (omega arith),
        power-pos (w - 8),
      ) in
      below_xor w a (byte * power (w - 8)) h top_byte
