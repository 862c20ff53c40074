-- ===== src/Caching/Aggregate/Sums.antt =====
-- The sums of `SumAggregator`, name by name.
use mathlib.Core.Logic.{if_pos, if_neg}
use mathlib.Core.Path.{subst}
use kh_common.Prelude.{◌≡◌, ◌≢◌, refl, sym, ap, ◌∙◌, none, some, List, [], ◌∷◌}
use kh_common.Prelude.Lists.{All}
use kh_common.Prelude.Dict
use kh_common.Prelude.Dict.{
  Dict, get, set, update, Unique, get-set, get-set_self, get-set_ne, set-Unique, get-remove_ne,
  remove-Unique, get-update_absent, get-update_present,
}
use kh_common.Prelude.Text.{Text, Text-discrete}
use kh_common.Exceptions.Handler.{without}
use kh_common.Caching.Aggregate.{Arithmetic, read, value, sum_update}

module _ {V : Type 0} (arithmetic : Arithmetic V) where
  open arithmetic use {zero_value, plus}

  -- What whole numbers satisfy.
  pub record IsAdditive : Type 0 where
    pub assoc : (a b c : V) → plus (plus a b) c ≡ plus a (plus b c)
    pub zero_left : (a : V) → plus zero_value a ≡ a
    pub zero_right : (a : V) → plus a zero_value ≡ a

  value-get_none :
      (k : Text) (d : Dict Text V)
      → get Text-discrete k d ≡ none
      → value arithmetic k d ≡ zero_value
  value-get_none k d h = rw h refl

  value-get_some :
      (k : Text) (v : V) (d : Dict Text V)
      → get Text-discrete k d ≡ some v
      → value arithmetic k d ≡ v
  value-get_some k v d h = rw h refl

  value-cons_self : (k : Text) (v : V) (d : Dict Text V) → value arithmetic k ((k, v) ∷ d) ≡ v
  unfolding get
  value-cons_self k v d = rw (if_pos (Text-discrete k k) refl) refl

  value-cons_ne :
      (j k : Text) (v : V) (d : Dict Text V)
      → j ≢ k
      → value arithmetic k ((j, v) ∷ d) ≡ value arithmetic k d
  unfolding get
  value-cons_ne j k v d n = rw (if_neg (Text-discrete j k) n) refl

  -- The sums after an update.
  pub value-sum_update :
      (k : Text) (e d : Dict Text V)
      → IsAdditive
      → Unique Text-discrete e
      → value arithmetic k (sum_update arithmetic e d)
        ≡ plus (value arithmetic k d) (value arithmetic k e)
  unfolding sum_update get
  value-sum_update k [] d law u = sym (law.zero_right _)
  value-sum_update k ((j, v) ∷ e) d law u =
      let d' = set Text-discrete j (plus (value arithmetic j d) v) d in
      let rest = value-sum_update k e d' law u.1 in
      elim (Text-discrete j k) [
        | yes p ↦
            let a : value arithmetic j e ≡ zero_value = value-get_none j e u.0 in
            let b : value arithmetic j d' ≡ plus (value arithmetic j d) v =
              value-get_some j _ d' (get-set_self Text-discrete j _ d) in
            let r : value arithmetic j (sum_update arithmetic e d')
                ≡ plus (value arithmetic j d') (value arithmetic j e) =
              value-sum_update j e d' law u.1 in
            let c : value arithmetic j (sum_update arithmetic e d')
                ≡ plus (value arithmetic j d) (value arithmetic j ((j, v) ∷ e)) =
              r
              ∙ rw (a, b, law.zero_right (plus (value arithmetic j d) v), value-cons_self j v e)
                  refl in
            subst
              (λ x.
                value arithmetic x (sum_update arithmetic e d')
                ≡ plus (value arithmetic x d) (value arithmetic x ((j, v) ∷ e)))
              p c
        | no p ↦
            let b : value arithmetic k d' ≡ value arithmetic k d =
              ap (read arithmetic) (get-set_ne Text-discrete j k _ d p) in
            rest ∙ rw (b, value-cons_ne j k v e p) refl
      ]

  pub sum_update-Unique :
      (e d : Dict Text V)
      → Unique Text-discrete d
      → Unique Text-discrete (sum_update arithmetic e d)
  unfolding sum_update
  sum_update-Unique [] d u = u
  sum_update-Unique ((j, v) ∷ e) d u =
      sum_update-Unique e (set Text-discrete j (plus (value arithmetic j d) v) d)
        (set-Unique Text-discrete j _ d u)

  -- No key is lost in an update.
  pub get-sum_update-none :
      (k : Text) (e d : Dict Text V)
      → get Text-discrete k (sum_update arithmetic e d) ≡ none
      → (get Text-discrete k e ≡ none) × (get Text-discrete k d ≡ none)
  unfolding sum_update get
  get-sum_update-none k [] d h = (refl, h)
  get-sum_update-none k ((j, v) ∷ e) d h =
      let w = plus (value arithmetic j d) v in
      let (a, b) = get-sum_update-none k e (set Text-discrete j w d) h in
      elim (Text-discrete j k) [
        | yes p ↦
            let c : some w ≡ none =
              sym (get-set_self Text-discrete j w d)
              ∙ (ap (λ x. get Text-discrete x (set Text-discrete j w d)) p ∙ b) in
            cc
        | no p ↦ (rw (if_neg (Text-discrete j k) p) a, sym (get-set_ne Text-discrete j k w d p) ∙ b)
      ]

pub get-without :
    {V : Type 0} (k : Text) (exclusions : List Text) (d : Dict Text V)
    → All (λ x. x ≢ k) exclusions
    → get Text-discrete k (without exclusions d) ≡ get Text-discrete k d
unfolding without
get-without k [] d a = refl
get-without k (x ∷ exclusions) d a =
    get-without k exclusions (Dict.remove Text-discrete x d) a.1
    ∙ get-remove_ne Text-discrete x k d a.0

pub without-Unique :
    {V : Type 0} (exclusions : List Text) (d : Dict Text V)
    → Unique Text-discrete d
    → Unique Text-discrete (without exclusions d)
unfolding without
without-Unique [] d u = u
without-Unique (x ∷ exclusions) d u =
    without-Unique exclusions (Dict.remove Text-discrete x d) (remove-Unique Text-discrete x d u)
