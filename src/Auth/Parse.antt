-- ===== src/Auth/Parse.antt =====
-- The text operations that `v1token` and `verifyToken` of kh_common/auth/__init__.py make on a token,
-- and `int_from_bytes` of kh_common/utilities/__init__.py. Text and bytes are lists of numbers.
use kh_common.Prelude.{
  ℕ, zero, suc, ◌+◌, ◌-◌, ◌*◌, ◌%◌, Option, none, some, List, [], ◌∷◌, ◌++◌, ◌==◌, if◌then◌else◌,
}
use kh_common.Prelude.Lists.{length, take}
use kh_common.Prelude.Text.{Text}

-- `text.partition(sep)` for one character, with `none` where it does not stand in the text
unfoldable pub cut_first : ℕ → Text → Option (Text × Text)
cut_first sep [] = none
cut_first sep (c ∷ text) =
    if c == sep
    then some ([], text)
    else (elim (cut_first sep text) [ none ↦ none | some (a, b) ↦ some (c ∷ a, b) ])

-- `text.rsplit(sep, 1)`
unfoldable pub cut_last : ℕ → Text → Option (Text × Text)
cut_last sep [] = none
cut_last sep (c ∷ text) = elim (cut_last sep text) [
  | some (a, b) ↦ some (c ∷ a, b)
  | none ↦ if c == sep then some ([], text) else none
]

-- `text.split(sep, n)`
unfoldable pub split_at_most : ℕ → ℕ → Text → List Text
unfolding cut_first
split_at_most zero sep text = text ∷ []
split_at_most (suc n) sep text = elim (cut_first sep text) [
  | none ↦ text ∷ []
  | some (a, b) ↦ a ∷ split_at_most n sep b
]

-- `text[text.find(sep) + 1:]`: the whole text, where `find` gives -1
unfoldable pub after_first : ℕ → Text → Text
unfolding cut_first
after_first sep text = elim (cut_first sep text) [ none ↦ text | some (a, b) ↦ b ]

-- `text[:text.find(sep)]`: all but the last character, where `find` gives -1
unfoldable pub before_first : ℕ → Text → Text
unfolding cut_first
before_first sep text = elim (cut_first sep text) [
  | none ↦ take (length text - 1) text
  | some (a, b) ↦ a
]

-- `int.from_bytes(bytestring, 'big')`
unfoldable pub int_from_bytes : ℕ → Text → ℕ
int_from_bytes acc [] = acc
int_from_bytes acc (b ∷ bytes) = int_from_bytes (acc * 256 + b) bytes

unfoldable pub pad : ℕ → Text
pad zero = []
pad (suc n) = b'=' ∷ pad n

-- What `b64decode` of kh_common/base64.py hands to `urlsafe_b64decode`: one to four signs of padding.
unfoldable pub padded : Text → Text
unfolding pad
padded text = text ++ pad (4 - length text % 4)
