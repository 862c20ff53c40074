-- ===== src/Telegram/Split.antt =====
-- `Listener.splitMessage` of kh_common/telegram/__init__.py.
pub mod Chunks
use kh_common.Prelude.{
  ℕ, zero, suc, ◌+◌, Option, none, some, List, [], ◌∷◌, Bool, true, false, ltb, if◌then◌else◌,
}
use kh_common.Prelude.Lists.{length, take, drop}
use kh_common.Prelude.Text.{Text, rfind}

-- The `for` over the breaks: the first that stands in `t` past its start, and its last place there.
unfoldable pub find_break : Text → List Text → Option (ℕ × Text)
unfolding rfind
find_break t [] = none
find_break t (splitter ∷ breaks) = elim (rfind t splitter) [
  | some (suc i) ↦ some (suc i, splitter)
  | some zero ↦ find_break t breaks
  | none ↦ find_break t breaks
]

-- `t_split` and `splitter` after `if t_split <= 0`
unfoldable pub choose : ℕ → Text → List Text → ℕ × Text
unfolding find_break
choose limit t breaks = elim (find_break t breaks) [ none ↦ (limit, []) | some p ↦ p ]

-- The `while`; `none` is the fuel running out.
unfoldable pub split_loop : ℕ → ℕ → List Text → Text → Option (List Text)
unfolding choose
split_loop zero limit breaks text = none
split_loop (suc fuel) limit breaks text =
    let cut = choose limit (take limit text) breaks in
    let rest = split_loop fuel limit breaks (drop (cut.0 + length cut.1) text) in
    if ltb limit (length text)
    then (elim rest [ none ↦ none | some messages ↦ some (take cut.0 text ∷ messages) ])
    else some (text ∷ [])

-- A text that fits is returned whole, which is also what the loop does with it.
unfoldable pub split_message : ℕ → List Text → Text → Option (List Text)
split_message limit breaks text =
    if ltb limit (length text)
    then split_loop (suc (length text)) limit breaks text
    else some (text ∷ [])
