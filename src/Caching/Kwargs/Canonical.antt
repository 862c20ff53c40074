-- ===== src/Caching/Kwargs/Canonical.antt =====
-- When two calls of a function under `KwargsCache` share an entry of the cache.
use mathlib.Core.Logic.{if_pos, if_neg}
use kh_common.Prelude.{◌≡◌, refl, sym, ap, ◌∙◌, ◌↔◌, Option, none, some, [], ◌∷◌}
use kh_common.Prelude.Dict.{Dict, get, Unique}
use kh_common.Prelude.Text.{Text, Text-discrete}
use kh_common.Caching.Binding.{Signature, Arguments, bound, bound-Unique}
use kh_common.Caching.Kwargs.{Value, Key, sort, pairs, convert, convert_values, cache_key}
use kh_common.Caching.Kwargs.Sorted.{get-sort, sort-IsSorted, IsSorted-unique}

module _ {A : Type 0} where
  -- The converted value of a parameter.
  abbrev pub converted : Option (Value A) → Option (Key A)
  converted none = none
  converted (some v) = some (convert v)

  get-convert_values :
      (d : Dict Text (Value A)) (n : Text)
      → get Text-discrete n (convert_values d) ≡ converted (get Text-discrete n d)
  unfolding get convert_values
  get-convert_values [] n = refl
  get-convert_values ((k, v) ∷ d) n = elim (Text-discrete k n) [
    | yes p ↦ rw (if_pos (Text-discrete k n) p, if_pos (Text-discrete k n) p) refl
    | no p ↦
        rw (if_neg (Text-discrete k n) p, if_neg (Text-discrete k n) p) (get-convert_values d n)
  ]

  convert_values-Unique :
      (d : Dict Text (Value A)) → Unique Text-discrete d → Unique Text-discrete (convert_values d)
  unfolding convert_values
  convert_values-Unique [] u = tt
  convert_values-Unique ((k, v) ∷ d) u =
      (get-convert_values d k ∙ rw u.0 refl, convert_values-Unique d u.1)

  pairs-inj : (d e : Dict Text (Key A)) → pairs d ≡ pairs e → d ≡ e
  unfolding pairs
  pairs-inj [] [] h = refl
  pairs-inj [] ((j, w) ∷ e) h = cc
  pairs-inj ((k, v) ∷ d) [] h = cc
  pairs-inj ((k, v) ∷ d) ((j, w) ∷ e) h =
      let t : pairs d ≡ pairs e = cc in let i = pairs-inj d e t in cc

  -- What a lookup in the sorted and converted arguments gives.
  get-sorted :
      (d : Dict Text (Value A)) (n : Text)
      → Unique Text-discrete d
      → get Text-discrete n (sort (convert_values d)) ≡ converted (get Text-discrete n d)
  get-sorted d n u =
      get-sort (convert_values d) n (convert_values-Unique d u) ∙ get-convert_values d n

  -- Where no parameter has two defaults, two calls use the same entry of the cache exactly when each
  -- name has the same converted value in both, or none in both, once the arguments by position, by
  -- keyword and by default are put together.
  pub cache_key-canonical :
      (signature : Signature (Value A)) (a b : Arguments (Value A))
      → Unique Text-discrete signature.defaults
      → (cache_key signature a ≡ cache_key signature b) ↔ (
          (n : Text)
          → converted (get Text-discrete n (bound signature a))
            ≡ converted (get Text-discrete n (bound signature b)))
  unfolding cache_key
  cache_key-canonical signature a b u =
      let p = bound-Unique signature a u in
      let q = bound-Unique signature b u in
      let sa = sort (convert_values (bound signature a)) in
      let sb = sort (convert_values (bound signature b)) in
      (
        λ h n.
            let e : sa ≡ sb = pairs-inj sa sb cc in
            sym (get-sorted (bound signature a) n p)
            ∙ (ap (get Text-discrete n) e ∙ get-sorted (bound signature b) n q),
        λ h.
            ap (λ d. Key.tuple (pairs d))
              (IsSorted-unique sa sb
                (sort-IsSorted (convert_values (bound signature a)) (convert_values-Unique _ p))
                (sort-IsSorted (convert_values (bound signature b)) (convert_values-Unique _ q))
                λ n.
                  get-sorted (bound signature a) n p
                  ∙ (h n ∙ sym (get-sorted (bound signature b) n q))),
      )
