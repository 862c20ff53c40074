-- ===== src/Bytes/RoundTrip.antt =====
-- A number is read back from its bytes.
use kh_common.Prelude.{
  ℕ, zero, suc, ◌+◌, ◌*◌, ◌/◌, ◌%◌, ◌≤◌, ◌<◌, ◌≡◌, refl, ◌∙◌, List, [], ◌∷◌, ◌++◌, ◌==◌, Bool-cases,
  inl, inr, arith,
}
use kh_common.Prelude.Outcome.{Outcome, returned}
use kh_common.Auth.Parse.{int_from_bytes}
use kh_common.Bytes.{BytesError, bits, bit_length, to_bytes, int_to_bytes}

-- 2 to the power of a number
power : ℕ → ℕ
power zero = 1
power (suc b) = 2 * power b

lt-power-bits : (fuel n : ℕ) → n ≤ fuel → n < power (bits fuel n)
unfolding bits power
lt-power-bits zero n h = omega arith
lt-power-bits (suc fuel) n h = elim (Bool-cases (n == 0)) [
  | inl p ↦ rw p (ground arith)
  | inr p ↦ rw p (omega (arith, lt-power-bits fuel (n / 2) (ground arith)))
]

-- One byte less.
drop_byte : (b n l : ℕ) → n < power b → b ≤ 8 * suc l → (c : ℕ) × (n / 256 < power c) × (c ≤ 8 * l)
unfolding power
drop_byte (suc (suc (suc (suc (suc (suc (suc (suc b)))))))) n l h g = (b, omega arith, omega arith)
drop_byte zero n l h g = (0, omega arith, omega arith)
drop_byte (suc zero) n l h g = (0, omega arith, omega arith)
drop_byte (suc (suc zero)) n l h g = (0, omega arith, omega arith)
drop_byte (suc (suc (suc zero))) n l h g = (0, omega arith, omega arith)
drop_byte (suc (suc (suc (suc zero)))) n l h g = (0, omega arith, omega arith)
drop_byte (suc (suc (suc (suc (suc zero))))) n l h g = (0, omega arith, omega arith)
drop_byte (suc (suc (suc (suc (suc (suc zero)))))) n l h g = (0, omega arith, omega arith)
drop_byte (suc (suc (suc (suc (suc (suc (suc zero))))))) n l h g = (0, omega arith, omega arith)

int_from_bytes-append :
    (acc d : ℕ) (bytes : List ℕ)
    → int_from_bytes acc (bytes ++ d ∷ []) ≡ int_from_bytes acc bytes * 256 + d
unfolding int_from_bytes
int_from_bytes-append acc d [] = refl
int_from_bytes-append acc d (b ∷ bytes) = int_from_bytes-append (acc * 256 + b) d bytes

Reads : ℕ → Outcome BytesError (List ℕ) → Type 0
Reads n o = (bytes : List ℕ) × (o ≡ returned bytes) × (int_from_bytes 0 bytes ≡ n)

to_bytes-Reads : (l b n : ℕ) → n < power b → b ≤ 8 * l → Reads n (to_bytes l n)
unfolding Reads to_bytes power int_from_bytes
to_bytes-Reads zero zero n h g = elim (Bool-cases (n == 0)) [
  | inl p ↦ rw p ([], refl, omega arith)
  | inr p ↦ absurd (ground arith)
]
to_bytes-Reads zero (suc b) n h g = absurd (omega arith)
to_bytes-Reads (suc l) b n h g =
    let (c, p, q) = drop_byte b n l h g in
    let (bytes, r, s) = to_bytes-Reads l c (n / 256) p q in
    (bytes ++ (n % 256) ∷ [], rw r refl, int_from_bytes-append 0 (n % 256) bytes ∙ omega arith)

-- Every number has a text of bytes, from which it is read back: the length that is computed for it
-- is always enough.
pub int_from_bytes-int_to_bytes :
    (n : ℕ) → (bytes : List ℕ) × (int_to_bytes n ≡ returned bytes) × (int_from_bytes 0 bytes ≡ n)
unfolding Reads int_to_bytes bit_length
int_from_bytes-int_to_bytes n =
    to_bytes-Reads ((bits n n + 7) / 8) (bits n n) n (lt-power-bits n n (omega arith)) (omega arith)
