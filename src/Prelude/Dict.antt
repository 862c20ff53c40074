-- ===== src/Prelude/Dict.antt =====
-- Python's `dict` and `OrderedDict` over keys with a decidable equality: the entries in order of
-- insertion. Assignment to a present key keeps its place; a new key goes to the end.
use mathlib.Core.List.{List, [], ◌∷◌, ◌++◌}
use mathlib.Core.Logic.{ite, if_pos, if_neg, ◌≢◌}
use mathlib.Core.Option.{Option, none, some}
use mathlib.Core.Path.{◌≡◌, refl, ◌∙◌}
use native.Mathlib.Omega.{arith}

abbrev pub Dict {ℓ} : Type ℓ → Type ℓ → Type ℓ
Dict K V = List (K × V)

module _ {ℓ} {K V : Type ℓ} (dec : Discrete K) where
  -- `d[k]`, or `none` where Python raises KeyError
  unfoldable pub get : K → Dict K V → Option V
  get k [] = none
  get k ((j, v) ∷ d) = ite (dec j k) (some v) (get k d)

  -- `d[k] = v`
  unfoldable pub set : K → V → Dict K V → Dict K V
  set k v [] = (k, v) ∷ []
  set k v ((j, w) ∷ d) = ite (dec j k) ((j, v) ∷ d) ((j, w) ∷ set k v d)

  -- `del d[k]`; a missing key changes nothing here, and callers test for it
  unfoldable pub remove : K → Dict K V → Dict K V
  remove k [] = []
  remove k ((j, w) ∷ d) = ite (dec j k) d ((j, w) ∷ remove k d)

  -- No key stands twice.
  abbrev pub Unique : Dict K V → Type ℓ
  Unique [] = Unit
  Unique ((k, v) ∷ d) = (get k d ≡ none) × Unique d

  pub get-set :
      (k j : K) (v : V) (d : Dict K V) → get j (set k v d) ≡ ite (dec k j) (some v) (get j d)
  unfolding get set
  get-set k j v [] = refl
  get-set k j v ((i, w) ∷ d) = ground (arith, get-set k j v d)

  pub get-set_self : (k : K) (v : V) (d : Dict K V) → get k (set k v d) ≡ some v
  get-set_self k v d = ground (arith, get-set k k v d)

  pub get-set_ne : (k j : K) (v : V) (d : Dict K V) → k ≢ j → get j (set k v d) ≡ get j d
  get-set_ne k j v d h = ground (arith, get-set k j v d)

  pub set_absent : (k : K) (v : V) (d : Dict K V) → get k d ≡ none → set k v d ≡ d ++ (k, v) ∷ []
  unfolding get set
  set_absent k v [] h = refl
  set_absent k v ((j, w) ∷ d) h = ground (arith, set_absent k v d)

  pub set-Unique : (k : K) (v : V) (d : Dict K V) → Unique d → Unique (set k v d)
  unfolding get set
  set-Unique k v [] u = ground arith
  set-Unique k v ((j, w) ∷ d) u = ground (arith, get-set k j v d, set-Unique k v d)

  pub get-remove_ne : (k j : K) (d : Dict K V) → k ≢ j → get j (remove k d) ≡ get j d
  unfolding get remove
  get-remove_ne k j [] h = refl
  get-remove_ne k j ((i, w) ∷ d) h = ground (arith, get-remove_ne k j d)

  pub get-remove_self : (k : K) (d : Dict K V) → Unique d → get k (remove k d) ≡ none
  unfolding get remove
  get-remove_self k [] u = refl
  get-remove_self k ((j, w) ∷ d) u = ground (arith, get-remove_self k d)

  remove_absent : (k j : K) (d : Dict K V) → get k d ≡ none → get k (remove j d) ≡ none
  unfolding get remove
  remove_absent k j [] h = refl
  remove_absent k j ((i, w) ∷ d) h = ground (arith, remove_absent k j d)

  pub remove-Unique : (k : K) (d : Dict K V) → Unique d → Unique (remove k d)
  unfolding get remove
  remove-Unique k [] u = tt
  remove-Unique k ((j, w) ∷ d) u = ground (arith, remove_absent j k d, remove-Unique k d)

  -- `d.update(e)`
  unfoldable pub update : Dict K V → Dict K V → Dict K V
  update d [] = d
  update d ((k, v) ∷ e) = update (set k v d) e

  pub get-update_absent : (k : K) (d e : Dict K V) → get k e ≡ none → get k (update d e) ≡ get k d
  unfolding get update
  get-update_absent k d [] h = refl
  get-update_absent k d ((j, v) ∷ e) h = elim (dec j k) [
    | yes p ↦ let h' : some v ≡ none = rw (if_pos _ p) at h in cc
    | no p ↦
        let h' : get k e ≡ none = rw (if_neg _ p) at h in
        get-update_absent k (set j v d) e h' ∙ get-set_ne j k v d p
  ]

  pub get-update_present :
      (k : K) (v : V) (d e : Dict K V) → Unique e → get k e ≡ some v → get k (update d e) ≡ some v
  unfolding get update
  get-update_present k v d [] u h = cc
  get-update_present k v d ((j, w) ∷ e) u h = elim (dec j k) [
    | yes p ↦
        let h' : some w ≡ some v = rw (if_pos _ p) at h in
        get-update_absent k (set j w d) e (rw (← p) u.0) ∙ rw (← p, get-set_self j w d) h'
    | no p ↦
        let h' : get k e ≡ some v = rw (if_neg _ p) at h in
        get-update_present k v (set j w d) e u.1 h'
  ]
