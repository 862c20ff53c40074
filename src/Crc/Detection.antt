-- ===== src/Crc/Detection.antt =====
-- The errors that the check of kh_common/crc.py shows.
use mathlib.Core.Path.{subst}
use kh_common.Prelude.{
  ℕ, zero, suc, ◌-◌, ◌*◌, ◌/◌, ◌%◌, ◌≤◌, ◌<◌, ◌≡◌, ◌≢◌, ◌⊎◌, inl, inr, sym, ap, ◌∙◌, Option, List,
  [], ◌∷◌, ◌++◌, arith,
}
use native.Mathlib.Nat.{mul-div_cancel}
use kh_common.Prelude.Lists.{All}
use kh_common.Prelude.Outcome.{Outcome, returned}
use kh_common.Prelude.Bits.{
  power, ◌⊕◌, xor_self, xor_assoc, xor_comm, xor_zero_left, xor_zero_right, xor_odd,
}
use kh_common.Prelude.Bits.Shifts.{power-pos, mod-power_suc}
use kh_common.Crc.{CrcError, Crc, or_mask, run, update, init, call, advance}
use kh_common.Crc.Linear.{advances, advances-xor, power-pred}
use kh_common.Crc.Table.{side}
use kh_common.Crc.Reference.{
  divide_bit, divide_bit-advance, advance-below, if_above, if_below, byte_added-below, below_xor,
}
use kh_common.Crc.Check.{built, self, added, update-advances, update-below, init_returns}

cancel : (a b : ℕ) → a ⊕ b ≡ 0 → a ≡ b
cancel a b h =
    sym (xor_zero_right a)
    ∙ (ap (λ n. a ⊕ n) (sym (xor_self b))
        ∙ (sym (xor_assoc a b b) ∙ (ap (λ n. n ⊕ b) h ∙ xor_zero_left b)))

equal_xor : (a b : ℕ) → a ≡ b → a ⊕ b ≡ 0
equal_xor a b h = ap (λ n. n ⊕ b) h ∙ xor_self b

cancel_left : (a b c : ℕ) → a ⊕ b ≡ a ⊕ c → b ≡ c
cancel_left a b c h = sym (removed a b) ∙ (ap (λ n. a ⊕ n) h ∙ removed a c)
  where
    removed : (a b : ℕ) → a ⊕ (a ⊕ b) ≡ b
    removed a b = sym (xor_assoc a a b) ∙ (ap (λ n. n ⊕ b) (xor_self a) ∙ xor_zero_left b)

cancel_right : (a b c : ℕ) → b ⊕ a ≡ c ⊕ a → b ≡ c
cancel_right a b c h = cancel_left a b c (xor_comm a b ∙ (h ∙ xor_comm c a))

cancel_shift : (b c s : ℕ) → 0 < s → b * s ≡ c * s → b ≡ c
cancel_shift b c s p h = sym (mul-div_cancel b p) ∙ (ap (λ n. n / s) h ∙ mul-div_cancel c p)

module _ (w polynomial : ℕ) (wide : 8 ≤ w) (odd : polynomial % 2 ≡ 1) where
  odd_rest : polynomial % power w % 2 ≡ 1
  odd_rest =
      let whole : power w ≡ 2 * power (w - 1) = power-pred w (omega arith) in
      ap (λ n. polynomial % n % 2) whole ∙ omega (arith, mod-power_suc polynomial (w - 1))

  kernel_on : (z : ℕ) → z * 2 < power w ⊎ power w ≤ z * 2 → divide_bit w polynomial z ≡ 0 → z ≡ 0
  kernel_on z (inl l) h =
      let h' : z * 2 ≡ 0 = sym (if_below (z * 2) (z * 2 - power w ⊕ polynomial % power w) l) ∙ h in
      omega arith
  kernel_on z (inr l) h =
      let h' : z * 2 - power w ⊕ polynomial % power w ≡ 0 =
        sym (if_above (z * 2) (z * 2 - power w ⊕ polynomial % power w) l) ∙ h in
      absurd (
        omega (
          arith,
          odd_rest,
          xor_odd (z * 2 - power w) (polynomial % power w),
          h',
          power-pred w (omega arith),
        ))

  -- The register is 0 after an advance only if it was before.
  kernel : (z : ℕ) → z < power w → advance w polynomial z ≡ 0 → z ≡ 0
  kernel z l h = kernel_on z (side (z * 2) (power w)) (divide_bit-advance w polynomial wide z l ∙ h)

  kernels : (k z : ℕ) → z < power w → advances w polynomial k z ≡ 0 → z ≡ 0
  unfolding advances
  kernels zero z l h = h
  kernels (suc k) z l h =
      kernel z l (kernels k (advance w polynomial z) (advance-below w polynomial wide z) h)

  advances_injective :
      (k a b : ℕ)
      → a < power w
      → b < power w
      → advances w polynomial k a ≡ advances w polynomial k b
      → a ≡ b
  advances_injective k a b l m h =
      cancel a b (
        kernels k (a ⊕ b) (below_xor w a b l m) (advances-xor w polynomial k a b ∙ equal_xor _ _ h))

  module _ (init_value xor_out : ℕ) where
    abbrev crc : Crc
    crc = self w polynomial init_value xor_out wide

    advanced :
        (a b x y : ℕ)
        → a < power w
        → b < power w
        → x < 256
        → y < 256
        → update crc a x ≡ update crc b y
        → added w polynomial init_value xor_out wide a x
          ≡ added w polynomial init_value xor_out wide b y
    advanced a b x y l m n o h =
        advances_injective 8 _ _ (byte_added-below w polynomial wide a x l n)
          (byte_added-below w polynomial wide b y m o)
          (sym (update-advances w polynomial init_value xor_out wide a x l n)
            ∙ (h ∙ update-advances w polynomial init_value xor_out wide b y m o))

    -- The same byte keeps two registers apart, and so do the same bytes.
    run_injective :
        (a b : ℕ) (bytes : List ℕ)
        → a < power w
        → b < power w
        → All (λ byte. byte < 256) bytes
        → run crc a bytes ≡ run crc b bytes
        → a ≡ b
    unfolding run
    run_injective a b [] l m all h = h
    run_injective a b (x ∷ bytes) l m all h = cancel_right (x * power (w - 8)) a b (
        advanced a b x x l m all.0 all.0 (
          run_injective (update crc a x) (update crc b x) bytes
            (update-below w polynomial init_value xor_out wide a x l all.0)
            (update-below w polynomial init_value xor_out wide b x m all.0) all.1 h))

    -- Another byte gives another register.
    byte_injective :
        (a x y : ℕ) → a < power w → x < 256 → y < 256 → update crc a x ≡ update crc a y → x ≡ y
    byte_injective a x y l m n h =
        cancel_shift x y (power (w - 8)) (power-pos (w - 8))
          (cancel_left a (x * power (w - 8)) (y * power (w - 8)) (advanced a a x y l l m n h))

    run_detects :
        (a x y : ℕ) (before after : List ℕ)
        → a < power w
        → x < 256
        → y < 256
        → All (λ byte. byte < 256) before
        → All (λ byte. byte < 256) after
        → run crc a (before ++ x ∷ after) ≡ run crc a (before ++ y ∷ after)
        → x ≡ y
    unfolding run
    run_detects a x y [] after l m n p q h = byte_injective a x y l m n (
        run_injective (update crc a x) (update crc a y) after
          (update-below w polynomial init_value xor_out wide a x l m)
          (update-below w polynomial init_value xor_out wide a y l n) q h)
    run_detects a x y (z ∷ before) after l m n p q h =
        run_detects (update crc a z) x y before after
          (update-below w polynomial init_value xor_out wide a z l p.0) m n p.1 q h

unwrapped : {c d : Crc} → ◌≡◌ {A = Outcome CrcError Crc} (returned c) (returned d) → c ≡ d
unwrapped h = cc

-- For a bit length that is a positive multiple of 8, an odd polynomial and a start value that fits, two messages
-- that differ in exactly one byte never have the same check.
pub call-detects :
    (bitlength polynomial : ℕ) (init_value xor_out : Option ℕ) (c : Crc) (before after : List ℕ)
    (x y : ℕ)
    → init bitlength polynomial init_value xor_out ≡ returned c
    → bitlength % 8 ≡ 0
    → 0 < bitlength
    → polynomial % 2 ≡ 1
    → or_mask bitlength init_value < power bitlength
    → All (λ byte. byte < 256) before
    → x < 256
    → All (λ byte. byte < 256) after
    → y < 256
    → x ≢ y
    → call c (before ++ x ∷ after) ≢ call c (before ++ y ∷ after)
unfolding call
call-detects bitlength polynomial init_value xor_out c before after x y made m p odd fits q k r l n
      h =
    let wide : 8 ≤ bitlength = omega arith in
    let start : ℕ = or_mask bitlength init_value in
    let last : ℕ = or_mask bitlength xor_out in
    let same : built bitlength polynomial start last ≡ c =
      unwrapped (sym (init_returns bitlength polynomial init_value xor_out m p) ∙ made) in
    n (
      run_detects bitlength polynomial wide odd start last start x y before after fits k l q r (
        cancel_right last _ _
          (subst (λ c. call c (before ++ x ∷ after) ≡ call c (before ++ y ∷ after)) (sym same) h)))
