-- ===== src/Crc/Check.antt =====
-- A check that kh_common/crc.py computes by its table is what the division gives.
use kh_common.Prelude.{
  ℕ, ◌-◌, ◌*◌, ◌%◌, ◌≤◌, ◌<◌, ◌≡◌, refl, sym, ap, ◌∙◌, List, [], ◌∷◌, Option, arith, Bool, true,
  ◌==◌, ltb, ◌&&◌, if◌then◌else◌,
}
use mathlib.Core.Path.{ap₂}
use native.Mathlib.Nat.{mod-eq_of_lt}
use kh_common.Prelude.Lists.{All}
use kh_common.Prelude.Outcome.{returned, raised, ◌>>=◌}
use kh_common.Prelude.Bits.{power, ◌⊕◌}
use kh_common.Crc.{value_error, Crc, or_mask, build_table, at, update, run, init, call}
use kh_common.Crc.Linear.{advances, advances-xor}
use kh_common.Crc.Table.{moved_out, at-build_table}
use kh_common.Crc.Reference.{
  divide, divide_bits-advances, advances-below, below_xor, high-below, low_moved, byte_added,
  byte_added-below, high, low,
}

-- What `__init__` keeps
abbrev pub built : ℕ → ℕ → ℕ → ℕ → Crc
built w polynomial init_value xor_out = record {
  bitlength = w;
  polynomial = polynomial;
  init_value = init_value;
  xor_out = xor_out;
  table = build_table w polynomial 8 (power (w - 1)) (0 ∷ []);
}

module _ (w polynomial init_value xor_out : ℕ) (wide : 8 ≤ w) where
  abbrev pub self : Crc
  self = built w polynomial init_value xor_out

  looked_up :
      (a byte : ℕ)
      → a < power w
      → byte < 256
      → at self.table (byte ⊕ high w polynomial wide a % 256)
        ≡ moved_out w polynomial wide (byte ⊕ high w polynomial wide a)
  looked_up a byte h l =
      let top : ℕ = high w polynomial wide a in
      at-build_table w polynomial wide (byte ⊕ top % 256)
        (below_xor 8 byte (top % 256) l (omega arith))
      ∙ ap (λ n. moved_out w polynomial wide (byte ⊕ n))
          (mod-eq_of_lt (high-below w polynomial wide a h))

  -- The register after a byte
  abbrev pub added : ℕ → ℕ → ℕ
  added a byte = a ⊕ byte * power (w - 8)

  pub update-advances :
      (a byte : ℕ)
      → a < power w
      → byte < 256
      → update self a byte ≡ advances w polynomial 8 (added a byte)
  unfolding update
  update-advances a byte h l =
      let top : ℕ = high w polynomial wide a in
      ap₂ (λ x y. x ⊕ y) (looked_up a byte h l) (sym (low_moved w polynomial wide a))
      ∙ (sym (advances-xor w polynomial 8 ((byte ⊕ top) * power (w - 8)) (low w polynomial wide a))
          ∙ ap (advances w polynomial 8) (byte_added w polynomial wide a byte))

  pub update-below : (a byte : ℕ) → a < power w → byte < 256 → update self a byte < power w
  update-below a byte h l =
      omega (arith, update-advances a byte h l, advances-below w polynomial wide 7 (added a byte))

  run-divide :
      (a : ℕ) (bytes : List ℕ)
      → a < power w
      → All (λ byte. byte < 256) bytes
      → run self a bytes ≡ divide w polynomial a bytes
  unfolding run
  run-divide a [] h all = refl
  run-divide a (byte ∷ bytes) h all =
      run-divide (update self a byte) bytes (update-below a byte h all.0) all.1
      ∙ ap (λ n. divide w polynomial n bytes)
          (update-advances a byte h all.0
            ∙ sym (
                divide_bits-advances w polynomial wide 8 (added a byte)
                  (byte_added-below w polynomial wide a byte h all.0)))

  call-built :
      (bytes : List ℕ)
      → init_value < power w
      → All (λ byte. byte < 256) bytes
      → call self bytes ≡ divide w polynomial init_value bytes ⊕ xor_out
  unfolding call
  call-built bytes h all = ap (λ n. n ⊕ xor_out) (run-divide init_value bytes h all)

fits_bytes : (n : ℕ) → n % 8 ≡ 0 → 0 < n → (n % 8 == 0 && ltb 0 n) ≡ true
fits_bytes n h p = ground arith

taken {ℓ} : {A : Type ℓ} {b : Bool} (x y : A) → b ≡ true → (if b then x else y) ≡ x
taken x y h = ap (λ b. if b then x else y) h

module _ (bitlength polynomial : ℕ) (init_value xor_out : Option ℕ) where
  pub init_returns :
      bitlength % 8 ≡ 0
      → 0 < bitlength
      → init bitlength polynomial init_value xor_out
        ≡ returned
            (built bitlength polynomial (or_mask bitlength init_value) (or_mask bitlength xor_out))
  unfolding init
  init_returns h p =
      taken
        (returned
          (built bitlength polynomial (or_mask bitlength init_value) (or_mask bitlength xor_out)))
        (raised value_error) (fits_bytes bitlength h p)

  -- For a bit length that is a positive multiple of 8, a start value that fits it and a message of
  -- bytes, the object is made, and its check, which goes by the table, is what the division of the
  -- message digit by digit leaves, with the last mask added.
  pub call-divide :
      (bytes : List ℕ)
      → bitlength % 8 ≡ 0
      → 0 < bitlength
      → or_mask bitlength init_value < power bitlength
      → All (λ byte. byte < 256) bytes
      → (init bitlength polynomial init_value xor_out >>= λ c. returned (call c bytes))
        ≡ returned (
            divide bitlength polynomial (or_mask bitlength init_value) bytes
            ⊕ or_mask bitlength xor_out)
  call-divide bytes h p fits all =
      ap (λ made. made >>= λ c. returned (call c bytes)) (init_returns h p)
      ∙ ap returned (
          call-built bitlength polynomial (or_mask bitlength init_value) (or_mask bitlength xor_out)
            (omega arith) bytes fits all)
