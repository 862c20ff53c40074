-- ===== src/Tests/Checks.antt =====
-- The check of kh_common/crc.py at the sixteen digits of CRC-16/CCITT-FALSE.
use kh_common.Prelude.{ℕ, ◌≡◌, ◌≢◌, refl, List, [], ◌∷◌, none, some, arith}
use kh_common.Prelude.Outcome.{returned, ◌>>=◌}
use kh_common.Crc.{init, call}
use kh_common.Crc.Check.{built, call-divide}
use kh_common.Crc.Detection.{call-detects}

-- b'123456789'
abbrev message : List ℕ
message = 49 ∷ 50 ∷ 51 ∷ 52 ∷ 53 ∷ 54 ∷ 55 ∷ 56 ∷ 57 ∷ []

call-divide_example :
    (init 16 4129 none (some 0) >>= λ c. returned (call c message)) ≡ returned 10673
call-divide_example =
    call-divide 16 4129 none (some 0) message refl (ground arith) (ground arith) (ground arith)

-- Five of the digits, with another one in their middle
call-detects_example :
    call (built 16 4129 65535 0) (49 ∷ 50 ∷ 51 ∷ 52 ∷ 53 ∷ [])
    ≢ call (built 16 4129 65535 0) (49 ∷ 50 ∷ 57 ∷ 52 ∷ 53 ∷ [])
unfolding init
call-detects_example =
    call-detects 16 4129 none (some 0) (built 16 4129 65535 0) (49 ∷ 50 ∷ []) (52 ∷ 53 ∷ []) 51 57
      refl refl (ground arith) refl (ground arith) (ground arith) (omega arith) (ground arith)
      (omega arith) (λ h. absurd (omega arith))
