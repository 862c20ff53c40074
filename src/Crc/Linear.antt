-- ===== src/Crc/Linear.antt =====
-- Advancing the register of kh_common/crc.py by one bit, and by several, as an operation that is
-- linear in the exclusive or.
use kh_common.Prelude.{
  ℕ, zero, suc, ◌+◌, ◌-◌, ◌*◌, ◌/◌, ◌%◌, ◌<◌, ◌≡◌, refl, sym, ap, ◌∙◌, Bool, ◌==◌, if◌then◌else◌,
  arith,
}
use mathlib.Core.Path.{ap₂}
use native.Mathlib.Nat.{div-eq_of_lt, mod-eq_of_lt, le-mul_of_pos_right}
use kh_common.Prelude.Bits.{
  power, ◌⊕◌, xor_zero_left, xor_zero_right, xor_self, xor_comm, xor_assoc, xor_odd, xor_double,
}
use kh_common.Prelude.Bits.Shifts.{power-pos, xor-mod, xor-div}
use kh_common.Crc.{top_bit, advance}

-- The polynomial, where the digit is 1
abbrev pub selected : ℕ → ℕ → ℕ
selected zero polynomial = 0
selected (suc t) polynomial = polynomial

abbrev chosen : Bool → ℕ → ℕ → ℕ
chosen b x polynomial = if b then x ⊕ polynomial else x

chosen_digit :
    (t x polynomial : ℕ) → t < 2 → chosen (t == 1) x polynomial ≡ x ⊕ selected t polynomial
chosen_digit zero x polynomial h = sym (xor_zero_right x)
chosen_digit (suc zero) x polynomial h = refl
chosen_digit (suc (suc t)) x polynomial h = absurd (omega arith)

selected-xor : (s t p : ℕ) → s < 2 → t < 2 → selected ((s + t) % 2) p ≡ selected s p ⊕ selected t p
selected-xor zero zero p h k = sym (xor_zero_left 0)
selected-xor zero (suc zero) p h k = sym (xor_zero_left p)
selected-xor (suc zero) zero p h k = sym (xor_zero_right p)
selected-xor (suc zero) (suc zero) p h k = sym (xor_self p)
selected-xor (suc (suc s)) t p h k = absurd (omega arith)
selected-xor s (suc (suc t)) p h k = absurd (omega arith)

twice : (a : ℕ) → a * 2 ≡ 2 * a
twice a = omega arith

xor-twice : (a b : ℕ) → (a ⊕ b) * 2 ≡ a * 2 ⊕ b * 2
xor-twice a b =
    twice (a ⊕ b) ∙ (sym (xor_double a b) ∙ ap₂ (λ x y. x ⊕ y) (sym (twice a)) (sym (twice b)))

xor_swap : (a b c d : ℕ) → a ⊕ b ⊕ (c ⊕ d) ≡ a ⊕ c ⊕ (b ⊕ d)
xor_swap a b c d =
    xor_assoc a b (c ⊕ d)
    ∙ (ap (λ x. a ⊕ x) (sym (xor_assoc b c d) ∙ (ap (λ x. x ⊕ d) (xor_comm b c) ∙ xor_assoc c b d))
        ∙ sym (xor_assoc a c (b ⊕ d)))

pub moved : (a s : ℕ) → a * 2 * s ≡ a * (2 * s)
moved a s = grind arith

twice_below : (a s n : ℕ) → 0 < s → a * (2 * s) < n → a * 2 < n
twice_below a s n p h = omega (arith, moved a s, le-mul_of_pos_right (a * 2) p)

pub power-pred : (w : ℕ) → 0 < w → power w ≡ 2 * power (w - 1)
power-pred zero h = absurd (omega arith)
power-pred (suc w) h = let same : w ≡ suc w - 1 = omega arith in ap (λ n. 2 * power n) same

module _ (w polynomial : ℕ) where
  -- The top digit of the register, as a number
  abbrev pub top : ℕ → ℕ
  top a = a / power (w - 1) % 2

  abbrev pub advanced : ℕ → ℕ
  advanced a = a * 2 ⊕ selected (top a) polynomial

  -- The register moves up, and the polynomial is added where the top digit is 1.
  pub advance_lem : (a : ℕ) → advance w polynomial a ≡ advanced a % power w
  unfolding advance top_bit
  advance_lem a = ap (λ x. x % power w) (chosen_digit (top a) (a * 2) polynomial (omega arith))

  top-xor : (a b : ℕ) → top (a ⊕ b) ≡ (top a + top b) % 2
  top-xor a b = omega (
    arith,
    ap (λ x. x % 2) (xor-div (w - 1) a b),
    xor_odd (a / power (w - 1)) (b / power (w - 1)),
  )

  top_low : (a : ℕ) → 0 < w → a * 2 < power w → top a ≡ 0
  top_low a p h =
      omega (arith, div-eq_of_lt {n = a} {m = power (w - 1)} (omega (arith, power-pred w p)))

  advanced-xor : (a b : ℕ) → advanced (a ⊕ b) ≡ advanced a ⊕ advanced b
  advanced-xor a b =
      ap₂ (λ x y. x ⊕ y) (xor-twice a b)
        (ap (λ t. selected t polynomial) (top-xor a b)
          ∙ selected-xor (top a) (top b) polynomial (omega arith) (omega arith))
      ∙ xor_swap (a * 2) (b * 2) (selected (top a) polynomial) (selected (top b) polynomial)

  pub advance-xor :
      (a b : ℕ) → advance w polynomial (a ⊕ b) ≡ advance w polynomial a ⊕ advance w polynomial b
  advance-xor a b =
      advance_lem (a ⊕ b)
      ∙ (ap (λ x. x % power w) (advanced-xor a b)
          ∙ (xor-mod w (advanced a) (advanced b)
              ∙ sym (ap₂ (λ x y. x ⊕ y) (advance_lem a) (advance_lem b))))

  -- Several bits
  unfoldable pub advances : ℕ → ℕ → ℕ
  advances zero a = a
  advances (suc k) a = advances k (advance w polynomial a)

  pub advances-xor : (k a b : ℕ) → advances k (a ⊕ b) ≡ advances k a ⊕ advances k b
  unfolding advances
  advances-xor zero a b = refl
  advances-xor (suc k) a b =
      ap (advances k) (advance-xor a b)
      ∙ advances-xor k (advance w polynomial a) (advance w polynomial b)

  pub advances_after : (j k a : ℕ) → advances j (advances k a) ≡ advances (k + j) a
  unfolding advances
  advances_after j zero a = let same : j ≡ 0 + j = omega arith in ap (λ n. advances n a) same
  advances_after j (suc k) a =
      let same : k + suc j ≡ suc k + j = omega arith in
      let once : suc (k + j) ≡ k + suc j = omega arith in
      advances_after j k (advance w polynomial a) ∙ ap (λ n. advances n a) (once ∙ same)

  -- Below the top digit the register only moves up.
  pub advance_low : (a : ℕ) → 0 < w → a * 2 < power w → advance w polynomial a ≡ a * 2
  advance_low a p h =
      advance_lem a
      ∙ (ap (λ t. (a * 2 ⊕ selected t polynomial) % power w) (top_low a p h)
          ∙ (ap (λ x. x % power w) (xor_zero_right (a * 2)) ∙ mod-eq_of_lt h))

  pub advances_low : (k a : ℕ) → 0 < w → a * power k < power w → advances k a ≡ a * power k
  unfolding advances
  advances_low zero a p h = omega arith
  advances_low (suc k) a p h =
      ap (advances k)
        (advance_low a p (twice_below a (power k) (power w) (power-pos k) (omega arith)))
      ∙ (advances_low k (a * 2) p (omega (arith, moved a (power k))) ∙ moved a (power k))
