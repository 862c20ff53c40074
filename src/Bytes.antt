-- ===== src/Bytes.antt =====
-- `int_to_bytes` of kh_common/utilities/__init__.py. `int_from_bytes` is beside the tokens, which are
-- its user.
pub mod RoundTrip
use kh_common.Prelude.{
  ℕ, zero, suc, ◌+◌, ◌/◌, ◌%◌, List, [], ◌∷◌, ◌++◌, Bool, true, false, ◌==◌, if◌then◌else◌,
}
use kh_common.Prelude.Outcome.{Outcome, returned, raised, ◌>>=◌}

pub data BytesError : Type 0 where
  overflow : BytesError

-- `int.bit_length`. The fuel is enough if it is at least the number, which each round halves.
unfoldable pub bits : ℕ → ℕ → ℕ
bits zero n = 0
bits (suc fuel) n = let rest = bits fuel (n / 2) in if n == 0 then 0 else suc rest

unfoldable pub bit_length : ℕ → ℕ
unfolding bits
bit_length n = bits n n

-- `int.to_bytes(length, 'big')`
unfoldable pub to_bytes : ℕ → ℕ → Outcome BytesError (List ℕ)
to_bytes zero n = if n == 0 then returned [] else raised overflow
to_bytes (suc length) n = to_bytes length (n / 256) >>= λ bytes. returned (bytes ++ (n % 256) ∷ [])

-- `integer.to_bytes(ceil(integer.bit_length() / 8), 'big')`
unfoldable pub int_to_bytes : ℕ → Outcome BytesError (List ℕ)
unfolding bit_length to_bytes
int_to_bytes n = to_bytes ((bit_length n + 7) / 8) n
