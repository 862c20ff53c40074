-- ===== src/Caching/Kwargs/Sorted.antt =====
-- Dictionaries sorted by their keys: a lookup sees the same before and after the sorting, and a
-- sorted dictionary is made up of its lookups.
use mathlib.Core.Logic.{ite, if_pos, if_neg}
use kh_common.Prelude.{
  ◌≡◌, ◌≢◌, refl, sym, ap, ◌∙◌, inl, inr, none, some, [], ◌∷◌, true, false, arith, Bool-cases,
}
use kh_common.Prelude.Dict.{Dict, get, Unique}
use kh_common.Prelude.Text.{Text, Text-discrete}
use kh_common.Caching.Kwargs.{before, insert, sort}

before_irrefl : (s : Text) → before s s ≡ false
unfolding before
before_irrefl [] = refl
before_irrefl (c ∷ s) = ground (arith, before_irrefl s)

pub before_ne : (s t : Text) → before s t ≡ true → s ≢ t
before_ne s t h e = let h' : before t t ≡ true = rw e at h in let q = before_irrefl t in cc

before_trans : (r s t : Text) → before r s ≡ true → before s t ≡ true → before r t ≡ true
unfolding before
before_trans r [] t h g = cc
before_trans r (c ∷ s) [] h g = cc
before_trans [] (c ∷ s) (d ∷ t) h g = refl
before_trans (b ∷ r) (c ∷ s) (d ∷ t) h g = ground (arith, before_trans r s t)

pub before_connex : (s t : Text) → before s t ≡ false → before t s ≡ false → s ≡ t
unfolding before
before_connex [] [] h g = refl
before_connex [] (d ∷ t) h g = cc
before_connex (c ∷ s) [] h g = cc
before_connex (c ∷ s) (d ∷ t) h g = ground (arith, before_connex s t)

module _ {V : Type 0} where
  -- Every key comes after `k`.
  abbrev pub After : Text → Dict Text V → Type 0
  After k [] = Unit
  After k ((j, w) ∷ d) = (before k j ≡ true) × After k d

  abbrev pub IsSorted : Dict Text V → Type 0
  IsSorted [] = Unit
  IsSorted ((k, v) ∷ d) = After k d × IsSorted d

  After-trans : (i k : Text) (d : Dict Text V) → before i k ≡ true → After k d → After i d
  After-trans i k [] h a = tt
  After-trans i k ((j, w) ∷ d) h a = (before_trans i k j h a.0, After-trans i k d h a.1)

  get-After : (k : Text) (d : Dict Text V) → After k d → get Text-discrete k d ≡ none
  unfolding get
  get-After k [] a = refl
  get-After k ((j, w) ∷ d) a =
      rw (if_neg (Text-discrete j k) (λ e. before_ne k j a.0 (sym e))) (get-After k d a.1)

  get-insert :
      (k j : Text) (v : V) (d : Dict Text V)
      → get Text-discrete k d ≡ none
      → get Text-discrete j (insert k v d)
        ≡ ite (Text-discrete k j) (some v) (get Text-discrete j d)
  unfolding get insert
  get-insert k j v [] h = refl
  get-insert k j v ((i, w) ∷ d) h = ground (arith, get-insert k j v d)

  After-insert :
      (i k : Text) (v : V) (d : Dict Text V)
      → before i k ≡ true
      → After i d
      → After i (insert k v d)
  unfolding insert
  After-insert i k v [] h a = (h, tt)
  After-insert i k v ((j, w) ∷ d) h a = elim (Bool-cases (before k j)) [
    | inl e ↦ rw e (h, a)
    | inr e ↦ rw e (a.0, After-insert i k v d h a.1)
  ]

  insert-IsSorted :
      (k : Text) (v : V) (d : Dict Text V)
      → get Text-discrete k d ≡ none
      → IsSorted d
      → IsSorted (insert k v d)
  unfolding insert get
  insert-IsSorted k v [] h s = (tt, tt)
  insert-IsSorted k v ((j, w) ∷ d) h s = elim (Text-discrete j k) [
    | yes p ↦ let h' : some w ≡ none = rw (if_pos (Text-discrete j k) p) at h in cc
    | no p ↦
        let h' : get Text-discrete k d ≡ none = rw (if_neg (Text-discrete j k) p) at h in
        elim (Bool-cases (before k j)) [
          | inl e ↦ rw e ((e, After-trans k j d e s.0), s)
          | inr e ↦ elim (Bool-cases (before j k)) [
            | inl f ↦ rw e (After-insert j k v d f s.0, insert-IsSorted k v d h' s.1)
            | inr f ↦ absurd (p (before_connex j k f e))
          ]
        ]
  ]

  -- On a dict, sorting changes no lookup.
  pub get-sort :
      (d : Dict Text V) (n : Text)
      → Unique Text-discrete d
      → get Text-discrete n (sort d) ≡ get Text-discrete n d
  unfolding sort get
  get-sort [] n u = refl
  get-sort ((k, v) ∷ d) n u =
      get-insert k n v (sort d) (get-sort d k u.1 ∙ u.0) ∙ rw (get-sort d n u.1) refl

  pub sort-IsSorted : (d : Dict Text V) → Unique Text-discrete d → IsSorted (sort d)
  unfolding sort
  sort-IsSorted [] u = tt
  sort-IsSorted ((k, v) ∷ d) u =
      insert-IsSorted k v (sort d) (get-sort d k u.1 ∙ u.0) (sort-IsSorted d u.1)

  get-head : (k : Text) (v : V) (d : Dict Text V) → get Text-discrete k ((k, v) ∷ d) ≡ some v
  unfolding get
  get-head k v d = rw (if_pos (Text-discrete k k) refl) refl

  get-head_eq :
      (k j : Text) (v : V) (d : Dict Text V) → k ≡ j → get Text-discrete k ((j, v) ∷ d) ≡ some v
  unfolding get
  get-head_eq k j v d h = rw (if_pos (Text-discrete j k) (sym h)) refl

  get-tail :
      (k n : Text) (v : V) (d : Dict Text V)
      → k ≢ n
      → get Text-discrete n ((k, v) ∷ d) ≡ get Text-discrete n d
  unfolding get
  get-tail k n v d h = rw (if_neg (Text-discrete k n) h) refl

  tails-agree :
      (k : Text) (v : V) (d e : Dict Text V)
      → After k d
      → After k e
      → ((n : Text) → get Text-discrete n ((k, v) ∷ d) ≡ get Text-discrete n ((k, v) ∷ e))
      → (n : Text) → get Text-discrete n d ≡ get Text-discrete n e
  tails-agree k v d e a b h n = elim (Text-discrete k n) [
    | yes p ↦ rw (← p) (get-After k d a ∙ sym (get-After k e b))
    | no p ↦ sym (get-tail k n v d p) ∙ (h n ∙ get-tail k n v e p)
  ]

  -- Two sorted dictionaries with the same lookups are the same.
  pub IsSorted-unique :
      (d e : Dict Text V)
      → IsSorted d
      → IsSorted e
      → ((n : Text) → get Text-discrete n d ≡ get Text-discrete n e)
      → d ≡ e
  unfolding get
  IsSorted-unique [] [] s t h = refl
  IsSorted-unique [] ((k, v) ∷ e) s t h = let q : none ≡ some v = h k ∙ get-head k v e in cc
  IsSorted-unique ((k, v) ∷ d) [] s t h = let q : some v ≡ none = sym (get-head k v d) ∙ h k in cc
  IsSorted-unique ((k, v) ∷ d) ((j, w) ∷ e) s t h = elim (Bool-cases (before k j)) [
    | inl p ↦
        let q : some v ≡ none =
          sym (get-head k v d) ∙ (h k ∙ get-After k ((j, w) ∷ e) (p, After-trans k j e p t.0)) in
        cc
    | inr p ↦ elim (Bool-cases (before j k)) [
      | inl r ↦
          let q : none ≡ some w =
            sym (get-After j ((k, v) ∷ d) (r, After-trans j k d r s.0)) ∙ (h j ∙ get-head j w e) in
          cc
      | inr r ↦
          let m : k ≡ j = before_connex k j p r in
          let i : some v ≡ some w = sym (get-head k v d) ∙ (h k ∙ get-head_eq k j w e m) in
          let i' : v ≡ w = cc in
          let b : After k e = rw m t.0 in
          let h' : (n : Text)
              → get Text-discrete n ((k, v) ∷ d) ≡ get Text-discrete n ((k, v) ∷ e) =
            λ n. h n ∙ ap (λ x. get Text-discrete n (x ∷ e)) (sym (rw (m, i') refl)) in
          let c : d ≡ e = IsSorted-unique d e s.1 t.1 (tails-agree k v d e s.0 b h') in cc
    ]
  ]
