-- ===== src/Prelude/Bits/Shifts.antt =====
-- The exclusive or across shifts and masks by powers of two.
use Prim.Native.Nat.{ℕ, zero, suc, ◌+◌, ◌*◌, ◌/◌, ◌%◌, ◌<◌}
use mathlib.Core.Path.{◌≡◌, sym, ap, ap₂, ◌∙◌}
use native.Mathlib.Nat.{div-div-eq-div-mul, div-add-mod}
use native.Mathlib.Omega.{arith}
use kh_common.Prelude.Bits.{
  power, ◌⊕◌, xor_step, xor-half, xor_odd, xor_double, xor_zero_left, xor_zero_right,
}

pub power-pos : (k : ℕ) → 0 < power k
power-pos zero = omega arith
power-pos (suc k) = omega (arith, power-pos k)

div-power_suc : (n k : ℕ) → n / (2 * power k) ≡ n / 2 / power k
div-power_suc n k = sym (div-div-eq-div-mul n 2 (power k))

pub mod-power_suc : (n k : ℕ) → n % (2 * power k) ≡ 2 * (n / 2 % power k) + n % 2
mod-power_suc n k =
    grind (arith, div-power_suc n k, div-add-mod n (2 * power k), div-add-mod (n / 2) (power k))

half_mod : (n k : ℕ) → n % (2 * power k) / 2 ≡ n / 2 % power k
half_mod n k = omega (arith, mod-power_suc n k)

mod_one : (n : ℕ) → n % 1 ≡ 0
mod_one n = omega arith

pub xor-mod : (k a b : ℕ) → (a ⊕ b) % power k ≡ a % power k ⊕ b % power k
xor-mod zero a b =
    mod_one (a ⊕ b) ∙ sym (ap₂ (λ x y. x ⊕ y) (mod_one a) (mod_one b) ∙ xor_zero_left 0)
xor-mod (suc k) a b = omega (
  arith,
  mod-power_suc (a ⊕ b) k,
  ap (λ x. x % power k) (xor-half a b),
  xor_odd a b,
  xor-mod k (a / 2) (b / 2),
  xor_step (a % (2 * power k)) (b % (2 * power k)),
  mod-power_suc a k,
  mod-power_suc b k,
  ap₂ (λ x y. x ⊕ y) (half_mod a k) (half_mod b k),
)

div_one : (n : ℕ) → n / 1 ≡ n
div_one n = omega arith

mul_one : (n : ℕ) → n * 1 ≡ n
mul_one n = omega arith

mul-power_suc : (n k : ℕ) → n * (2 * power k) ≡ 2 * (n * power k)
mul-power_suc n k = grind arith

half_mul : (n k : ℕ) → n * (2 * power k) / 2 ≡ n * power k
half_mul n k = omega (arith, mul-power_suc n k)

pub xor-div : (k a b : ℕ) → (a ⊕ b) / power k ≡ a / power k ⊕ b / power k
xor-div zero a b = omega (arith, ap₂ (λ x y. x ⊕ y) (div_one a) (div_one b))
xor-div (suc k) a b =
    div-power_suc (a ⊕ b) k
    ∙ (ap (λ x. x / power k) (xor-half a b)
        ∙ (xor-div k (a / 2) (b / 2)
            ∙ ap₂ (λ x y. x ⊕ y) (sym (div-power_suc a k)) (sym (div-power_suc b k))))

pub xor-shift : (k a b : ℕ) → (a ⊕ b) * power k ≡ a * power k ⊕ b * power k
xor-shift zero a b = omega (arith, ap₂ (λ x y. x ⊕ y) (mul_one a) (mul_one b))
xor-shift (suc k) a b = omega (
  arith,
  mul-power_suc (a ⊕ b) k,
  ap₂ (λ x y. x ⊕ y) (mul-power_suc a k) (mul-power_suc b k),
  xor_double (a * power k) (b * power k),
  xor-shift k a b,
)

below_one : (n : ℕ) → n < 1 → n ≡ 0
below_one n h = omega arith

-- Numbers with no digit in common are added.
pub xor_disjoint : (k high low : ℕ) → low < power k → high * power k ⊕ low ≡ high * power k + low
xor_disjoint zero high low h =
    omega (arith, ap (λ x. high * 1 ⊕ x) (below_one low h), xor_zero_right (high * 1))
xor_disjoint (suc k) high low h = omega (
  arith,
  xor_step (high * (2 * power k)) low,
  mul-power_suc high k,
  ap (λ x. x ⊕ low / 2) (half_mul high k),
  xor_disjoint k high (low / 2) (omega arith),
)
