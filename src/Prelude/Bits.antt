-- ===== src/Prelude/Bits.antt =====
-- The exclusive or of numbers, digit by digit, and its laws, with 0 and with itself.
pub mod Shifts
use Prim.Native.Nat.{
  ℕ, zero, suc, ◌+◌, ◌*◌, ◌/◌, ◌%◌, ◌≤◌, ◌<◌, bit_xor, digits, differ, bit_xor-bitwise,
}
use mathlib.Core.Path.{◌≡◌, refl, sym, ap, ap₂, ◌∙◌}
use native.Mathlib.Omega.{arith}

-- 2 to the power of a number
abbrev pub power : ℕ → ℕ
power zero = 1
power (suc n) = 2 * power n

infixl 55 ◌⊕◌
abbrev pub ◌⊕◌ : ℕ → ℕ → ℕ
a ⊕ b = bit_xor a b

digit_differ : (x y : ℕ) → x < 2 → y < 2 → differ x y ≡ (x + y) % 2
digit_differ zero zero p q = refl
digit_differ zero (suc zero) p q = refl
digit_differ (suc zero) zero p q = refl
digit_differ (suc zero) (suc zero) p q = refl
digit_differ (suc (suc x)) y p q = absurd (omega arith)
digit_differ x (suc (suc y)) p q = absurd (omega arith)

last_digit : (a b : ℕ) → differ (a % 2) (b % 2) ≡ (a + b) % 2
last_digit a b = omega (arith, digit_differ (a % 2) (b % 2) (omega arith) (omega arith))

abbrev xor_digits : ℕ → ℕ → ℕ → ℕ
xor_digits n a b = digits (λ b. b) differ n a b

xor_digits_zero : (n b : ℕ) → xor_digits n 0 b ≡ b
xor_digits_zero zero b = refl
xor_digits_zero (suc n) b = refl

-- The count of digits makes no difference once it is large enough.
xor_digits_fuel : (n m a b : ℕ) → a ≤ n → a ≤ m → xor_digits n a b ≡ xor_digits m a b
xor_digits_fuel n m zero b p q = xor_digits_zero n b ∙ sym (xor_digits_zero m b)
xor_digits_fuel zero m (suc a) b p q = absurd (omega arith)
xor_digits_fuel (suc n) zero (suc a) b p q = absurd (omega arith)
xor_digits_fuel (suc n) (suc m) (suc a) b p q =
    ap (λ d. d * 2 + differ (suc a % 2) (b % 2))
      (xor_digits_fuel n m (suc a / 2) (b / 2) (omega arith) (omega arith))

pub xor_zero_left : (b : ℕ) → 0 ⊕ b ≡ b
xor_zero_left b = bit_xor-bitwise 0 b

-- The last digit, and the digits before it.
pub xor_step : (a b : ℕ) → a ⊕ b ≡ 2 * (a / 2 ⊕ b / 2) + (a + b) % 2
xor_step zero b = omega (arith, xor_zero_left b, xor_zero_left (b / 2))
xor_step (suc a) b = omega (
  arith,
  bit_xor-bitwise (suc a) b,
  bit_xor-bitwise (suc a / 2) (b / 2),
  xor_digits_fuel a (suc a / 2) (suc a / 2) (b / 2) (omega arith) (omega arith),
  last_digit (suc a) b,
)

pub xor-half : (a b : ℕ) → (a ⊕ b) / 2 ≡ a / 2 ⊕ b / 2
xor-half a b = omega (arith, xor_step a b)

pub xor_odd : (a b : ℕ) → (a ⊕ b) % 2 ≡ (a + b) % 2
xor_odd a b = omega (arith, xor_step a b)

xor_comm_fuel : (n a b : ℕ) → a ≤ n → b ≤ n → a ⊕ b ≡ b ⊕ a
xor_comm_fuel zero zero zero p q = refl
xor_comm_fuel zero (suc a) b p q = absurd (omega arith)
xor_comm_fuel zero a (suc b) p q = absurd (omega arith)
xor_comm_fuel (suc n) a b p q =
    omega (
      arith,
      xor_step a b,
      xor_step b a,
      xor_comm_fuel n (a / 2) (b / 2) (omega arith) (omega arith),
    )

pub xor_comm : (a b : ℕ) → a ⊕ b ≡ b ⊕ a
xor_comm a b = xor_comm_fuel (a + b) a b (omega arith) (omega arith)

pub xor_zero_right : (a : ℕ) → a ⊕ 0 ≡ a
xor_zero_right a = xor_comm a 0 ∙ xor_zero_left a

xor_assoc_fuel : (n a b c : ℕ) → a ≤ n → b ≤ n → c ≤ n → a ⊕ b ⊕ c ≡ a ⊕ (b ⊕ c)
xor_assoc_fuel zero zero b c p q r = rw (xor_zero_left, xor_zero_left) refl
xor_assoc_fuel zero (suc a) b c p q r = absurd (omega arith)
xor_assoc_fuel (suc n) a b c p q r = omega (
  arith,
  xor_step (a ⊕ b) c,
  ap (λ x. x ⊕ c / 2) (xor-half a b),
  xor_odd a b,
  xor_step a (b ⊕ c),
  ap (λ x. a / 2 ⊕ x) (xor-half b c),
  xor_odd b c,
  xor_assoc_fuel n (a / 2) (b / 2) (c / 2) (omega arith) (omega arith) (omega arith),
)

pub xor_assoc : (a b c : ℕ) → a ⊕ b ⊕ c ≡ a ⊕ (b ⊕ c)
xor_assoc a b c = xor_assoc_fuel (a + b + c) a b c (omega arith) (omega arith) (omega arith)

xor_self_fuel : (n a : ℕ) → a ≤ n → a ⊕ a ≡ 0
xor_self_fuel zero zero h = refl
xor_self_fuel zero (suc a) h = absurd (omega arith)
xor_self_fuel (suc n) a h = omega (arith, xor_step a a, xor_self_fuel n (a / 2) (omega arith))

pub xor_self : (a : ℕ) → a ⊕ a ≡ 0
xor_self a = xor_self_fuel a a (omega arith)

half : (a : ℕ) → 2 * a / 2 ≡ a
half a = omega arith

pub xor_double : (a b : ℕ) → 2 * a ⊕ 2 * b ≡ 2 * (a ⊕ b)
xor_double a b = omega (arith, xor_step (2 * a) (2 * b), ap₂ (λ x y. x ⊕ y) (half a) (half b))
