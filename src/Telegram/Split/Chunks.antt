-- ===== src/Telegram/Split/Chunks.antt =====
-- What the pieces of a split message are.
use mathlib.Core.Path.{subst}
use kh_common.Prelude.{
  ℕ, zero, suc, ◌+◌, ◌≤◌, ◌<◌, ◌≡◌, refl, ◌⊎◌, inl, inr, ◌∙◌, sym, ap, Option, none, some, List, [],
  ◌∷◌, ◌++◌, true, ltb, arith, Bool-cases, Option-cases,
}
use kh_common.Prelude.Lists.{length, take, drop, All, length-take-le, length-drop, take-append-drop}
use kh_common.Prelude.Text.{
  Text, rfind, rfind-starts_with, rfind-le, starts_with, starts_with-drop, starts_with-drop-take,
  drop-drop,
}
use kh_common.Telegram.Split.{find_break, choose, split_loop, split_message}

-- Nothing, or one of the breaks.
abbrev pub IsBreak : List Text → Text → Type 0
IsBreak [] s = s ≡ []
IsBreak (b ∷ breaks) s = (s ≡ b) ⊎ IsBreak breaks s

IsBreak-nil : (breaks : List Text) → IsBreak breaks []
IsBreak-nil [] = refl
IsBreak-nil (b ∷ breaks) = inr (IsBreak-nil breaks)

-- The pieces in order make up the text, with nothing or one break dropped between two.
pub data Pieces (breaks : List Text) : Text → List Text → Type 0 where
  whole : (text : Text) → Pieces breaks text (text ∷ [])
  cut :
      {text rest : Text} {messages : List Text} (piece separator : Text)
      → IsBreak breaks separator
      → text ≡ piece ++ (separator ++ rest)
      → Pieces breaks rest messages
      → Pieces breaks text (piece ∷ messages)

-- A place to cut, and what is dropped there.
pub record IsCut (limit : ℕ) (breaks : List Text) (text : Text) (place : ℕ) (s : Text)
    : Type 0 where
  pub positive : 0 < place
  pub fits : place ≤ limit
  pub separator : IsBreak breaks s
  pub there : starts_with (drop place text) s ≡ true

IsCut-rfind :
    (limit : ℕ) (breaks : List Text) (text b : Text) (i : ℕ)
    → rfind (take limit text) b ≡ some (suc i)
    → IsCut limit (b ∷ breaks) text (suc i) b
IsCut-rfind limit breaks text b i h = record {
  positive = omega arith;
  fits = omega (arith, rfind-le (take limit text) b (suc i) h, length-take-le {0} limit text);
  separator = inl refl;
  there =
      starts_with-drop-take (suc i) limit text b (rfind-starts_with (take limit text) b (suc i) h);
}

IsCut-more :
    {limit : ℕ} {breaks : List Text} {text : Text} {place : ℕ} {s : Text} (b : Text)
    → IsCut limit breaks text place s
    → IsCut limit (b ∷ breaks) text place s
IsCut-more b c = record {
  positive = c.positive;
  fits = c.fits;
  separator = inr c.separator;
  there = c.there;
}

find_break-IsCut :
    (limit : ℕ) (breaks : List Text) (text : Text) (p : ℕ × Text)
    → find_break (take limit text) breaks ≡ some p
    → IsCut limit breaks text p.0 p.1
unfolding find_break
find_break-IsCut limit [] text p h = cc
find_break-IsCut limit (b ∷ breaks) text p h =
    go (rfind (take limit text) b) refl (find_break-IsCut limit breaks text p)
  where
    go :
        (o : Option ℕ)
        → rfind (take limit text) b ≡ o
        → (find_break (take limit text) breaks ≡ some p → IsCut limit breaks text p.0 p.1)
        → IsCut limit (b ∷ breaks) text p.0 p.1
    go none e later = IsCut-more b (later (rw (e, find_break) at h))
    go (some zero) e later = IsCut-more b (later (rw (e, find_break) at h))
    go (some (suc i)) e later =
        let h' : some (suc i, b) ≡ some p = rw (e, find_break) at h in
        let q : (suc i, b) ≡ p = cc in
        subst (λ x. IsCut limit (b ∷ breaks) text x.0 x.1) q (IsCut-rfind limit breaks text b i e)

choose-none :
    (limit : ℕ) (t : Text) (breaks : List Text)
    → find_break t breaks ≡ none
    → choose limit t breaks ≡ (limit, [])
unfolding choose
choose-none limit t breaks h = rw (h, choose)

choose-some :
    (limit : ℕ) (t : Text) (breaks : List Text) (p : ℕ × Text)
    → find_break t breaks ≡ some p
    → choose limit t breaks ≡ p
unfolding choose
choose-some limit t breaks p h = rw (h, choose)

choose-IsCut :
    (limit : ℕ) (breaks : List Text) (text : Text)
    → 0 < limit
    → IsCut limit breaks text
        (choose limit (take limit text) breaks).0
        (choose limit (take limit text) breaks).1
unfolding starts_with
choose-IsCut limit breaks text h = elim (Option-cases (find_break (take limit text) breaks)) [
  | inl e ↦
      rw (choose-none limit _ breaks e)
        (record { positive = h; fits = omega arith; separator = IsBreak-nil breaks; there = refl })
  | inr (p, e) ↦ rw (choose-some limit _ breaks p e) (find_break-IsCut limit breaks text p e)
]

IsCut-split :
    {limit : ℕ} {breaks : List Text} (text : Text) (place : ℕ) (s : Text)
    → IsCut limit breaks text place s
    → text ≡ take place text ++ (s ++ drop (place + length s) text)
IsCut-split text place s c =
    sym (take-append-drop place text)
    ∙ ap (λ t. take place text ++ t)
        (starts_with-drop (drop place text) s c.there
          ∙ ap (λ t. s ++ t) (drop-drop place (length s) text))

-- What the loop comes to.
pub record IsSplit (limit : ℕ) (breaks : List Text) (text : Text) (messages : List Text)
    : Type 0 where
  pub pieces : Pieces breaks text messages
  pub short : All (λ m. length m ≤ limit) messages

split_loop_lem :
    (fuel limit : ℕ) (breaks : List Text) (text : Text)
    → 0 < limit
    → length text < fuel
    → (messages : List Text) × (split_loop fuel limit breaks text ≡ some messages)
      × IsSplit limit breaks text messages
unfolding split_loop
split_loop_lem zero limit breaks text h f = elim f [ ]
split_loop_lem (suc fuel) limit breaks text h f = elim (Bool-cases (ltb limit (length text))) [
  | inr small ↦ (text ∷ [], rw small, record { pieces = whole text; short = (ground arith, tt) })
  | inl big ↦
      let p = choose limit (take limit text) breaks in
      let c = choose-IsCut limit breaks text h in
      let rest = drop (p.0 + length p.1) text in
      let (ms, e, s) =
        split_loop_lem fuel limit breaks rest h
          (ground (arith, length-drop (p.0 + length p.1) text, c.positive)) in
      (
        take p.0 text ∷ ms,
        rw (big, e),
        record {
          pieces = cut (take p.0 text) p.1 c.separator (IsCut-split text p.0 p.1 c) s.pieces;
          short = (omega (arith, length-take-le {0} p.0 text, c.fits), s.short);
        },
      )
]

-- With a positive limit `splitMessage` ends, for every text and every list of breaks. No message is
-- longer than the limit, and the messages in order make up the text, with nothing or one of the
-- breaks left out between two of them.
pub split_message_lem :
    (limit : ℕ) (breaks : List Text) (text : Text)
    → 0 < limit
    → (messages : List Text) × (split_message limit breaks text ≡ some messages)
      × IsSplit limit breaks text messages
unfolding split_message
split_message_lem limit breaks text h = elim (Bool-cases (ltb limit (length text))) [
  | inr small ↦ (text ∷ [], rw small, record { pieces = whole text; short = (ground arith, tt) })
  | inl big ↦ rw big (split_loop_lem (suc (length text)) limit breaks text h (omega arith))
]
