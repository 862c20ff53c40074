-- ===== src/Crc.antt =====
-- kh_common/crc.py: a cyclic redundancy check that goes by a table. The numbers are kept below
-- 2 to the bit length by the masks of the source, written as remainders; `<<` and `>>` are products
-- and quotients.
pub mod Linear
pub mod Table
pub mod Reference
pub mod Check
pub mod Detection
use kh_common.Prelude.{
  ℕ, zero, suc, ◌+◌, ◌-◌, ◌*◌, ◌/◌, ◌%◌, Option, none, some, List, [], ◌∷◌, ◌++◌, map, Bool, true,
  false, ◌==◌, ltb, ◌&&◌, if◌then◌else◌,
}
use kh_common.Prelude.Bits.{power, ◌⊕◌}
use kh_common.Prelude.Outcome.{Outcome, returned, raised}

-- The ValueError of a bit length that is no multiple of 8, and that of the negative shift of 0.
pub data CrcError : Type 0 where
  value_error : CrcError

pub record Crc : Type 0 where
  pub bitlength : ℕ
  pub polynomial : ℕ
  pub init_value : ℕ
  pub xor_out : ℕ
  pub table : List ℕ

-- `crc & msbMask`, as a test
unfoldable pub top_bit : ℕ → ℕ → Bool
top_bit bitlength crc = crc / power (bitlength - 1) % 2 == 1

-- The shift of the source's `if`, and the mask after it.
unfoldable pub advance : ℕ → ℕ → ℕ → ℕ
unfolding top_bit
advance bitlength polynomial crc =
    (if top_bit bitlength crc then crc * 2 ⊕ polynomial else crc * 2) % power bitlength

-- `while i < 256`, with the rounds left. The entries from `i` on, which are 0 until they are set, are
-- left out of the table, so that its length is `i`.
unfoldable pub build_table : ℕ → ℕ → ℕ → ℕ → List ℕ → List ℕ
unfolding advance
build_table bitlength polynomial zero crc table = table
build_table bitlength polynomial (suc rounds) crc table =
    let next_crc = advance bitlength polynomial crc in
    build_table bitlength polynomial rounds next_crc
      (table ++ map (λ entry. next_crc ⊕ entry) table)

abbrev pub or_mask : ℕ → Option ℕ → ℕ
or_mask bitlength none = power bitlength - 1
or_mask bitlength (some n) = n

-- `__init__`; eight rounds take `i` from 1 to 256.
unfoldable pub init : ℕ → ℕ → Option ℕ → Option ℕ → Outcome CrcError Crc
unfolding build_table
init bitlength polynomial init_value xor_out =
    if bitlength % 8 == 0 && ltb 0 bitlength
    then returned (record {
      bitlength = bitlength;
      polynomial = polynomial;
      init_value = or_mask bitlength init_value;
      xor_out = or_mask bitlength xor_out;
      table = build_table bitlength polynomial 8 (power (bitlength - 1)) (0 ∷ []);
    })
    else raised value_error

-- `table[i]`; the index is below 256 wherever it is used on bytes.
unfoldable pub at : List ℕ → ℕ → ℕ
at [] i = 0
at (x ∷ xs) zero = x
at (x ∷ xs) (suc i) = at xs i

-- One round of the loop over the bytes.
unfoldable pub update : Crc → ℕ → ℕ → ℕ
unfolding at
update c crc byte =
    at c.table (byte ⊕ crc / power (c.bitlength - 8) % 256) ⊕ crc * 256 % power c.bitlength

unfoldable pub run : Crc → ℕ → List ℕ → ℕ
unfolding update
run c crc [] = crc
run c crc (byte ∷ bytes) = run c (update c crc byte) bytes

-- `__call__`
unfoldable pub call : Crc → List ℕ → ℕ
unfolding run
call c bytes = run c c.init_value bytes ⊕ c.xor_out
