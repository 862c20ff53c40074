-- ===== src/Caching/Aggregate/Conserved.antt =====
-- `Aggregate` with `SumAggregator` loses and invents nothing.
use kh_common.Prelude.{
  ℕ, ◌≡◌, ◌≢◌, sym, ap, ◌∙◌, inl, inr, none, List, [], ◌∷◌, ltb, Bool-cases, Option-cases,
}
use kh_common.Prelude.Lists.{All}
use kh_common.Prelude.Dict.{Dict, get, update, Unique, get-update_absent, get-update_present}
use kh_common.Prelude.Text.{Text, Text-discrete}
use kh_common.Caching.Binding.{update-Unique}
use kh_common.Exceptions.Handler.{zip_args}
use kh_common.Caching.Aggregate.{
  Arithmetic, read, value, sum_update, sum_aggregator, Call, Effect, skipped, ran, failed, Wrapper,
  named, given, flush, call, effects, final,
}
use kh_common.Caching.Aggregate.Sums.{
  IsAdditive, value-sum_update, sum_update-Unique, get-sum_update-none, get-without, without-Unique,
}

module _ {V : Type 0} (arithmetic : Arithmetic V) where
  open arithmetic use {zero_value, plus}

  -- The keywords of a call are a dict.
  abbrev pub AreCalls : List (Call V) → Type 0
  AreCalls [] = Unit
  AreCalls (c ∷ cs) = Unique Text-discrete c.kwargs × AreCalls cs

  -- The sum of what the callers passed under a name.
  abbrev pub sum_passed : List Text → Text → List (Call V) → V
  sum_passed names k [] = zero_value
  sum_passed names k (c ∷ cs) = plus (value arithmetic k (named names c)) (sum_passed names k cs)

  -- The sum of what the function was run on under a name.
  abbrev pub sum_ran : Text → List (Effect V) → V
  sum_ran k [] = zero_value
  sum_ran k (ran kwargs ∷ es) = plus (value arithmetic k kwargs) (sum_ran k es)
  sum_ran k (e ∷ es) = sum_ran k es

  -- The arguments of a run are the sums, where there is a sum.
  value-update :
      (k : Text) (kwargs sums : Dict Text V)
      → Unique Text-discrete sums
      → (get Text-discrete k sums ≡ none → get Text-discrete k kwargs ≡ none)
      → value arithmetic k (update Text-discrete kwargs sums) ≡ value arithmetic k sums
  value-update k kwargs sums u h = elim (Option-cases (get Text-discrete k sums)) [
    | inl m ↦ ap (read arithmetic) (get-update_absent Text-discrete k kwargs sums m ∙ (h m ∙ sym m))
    | inr (v, m) ↦
        ap (read arithmetic) (get-update_present Text-discrete k v kwargs sums u m ∙ sym m)
  ]

  module _ (ttl : ℕ) (exclusions names : List Text) (law : IsAdditive arithmetic) where
    -- The sums after the update of a call.
    abbrev sums_after : Dict Text V → Call V → Dict Text V
    sums_after d c = sum_update arithmetic (given exclusions names c) d

    value-sums_after :
        (k : Text) (d : Dict Text V) (c : Call V)
        → All (λ x. x ≢ k) exclusions
        → Unique Text-discrete c.kwargs
        → value arithmetic k (sums_after d c)
          ≡ plus (value arithmetic k d) (value arithmetic k (named names c))
    unfolding given named
    value-sums_after k d c a u =
        value-sum_update arithmetic k (given exclusions names c) d law (
          without-Unique exclusions (named names c)
            (update-Unique c.kwargs (zip_args names c.args) u))
        ∙ ap (λ o. plus (value arithmetic k d) (read arithmetic o))
            (get-without k exclusions (named names c) a)

    value-ran :
        (k : Text) (d : Dict Text V) (c : Call V)
        → All (λ x. x ≢ k) exclusions
        → Unique Text-discrete d
        → value arithmetic k (update Text-discrete (named names c) (sums_after d c))
          ≡ value arithmetic k (sums_after d c)
    unfolding given
    value-ran k d c a u =
        value-update k (named names c) (sums_after d c)
          (sum_update-Unique arithmetic (given exclusions names c) d u)
          λ h.
            sym (get-without k exclusions (named names c) a)
            ∙ (get-sum_update-none arithmetic k (given exclusions names c) d h).0

    abbrev Sums : Type 0
    Sums = Wrapper (sum_aggregator arithmetic) ttl exclusions names

    call-conserved :
        (k : Text) (s : Sums) (c : Call V)
        → All (λ x. x ≢ k) exclusions
        → Unique Text-discrete c.kwargs
        → Unique Text-discrete s.held
        → (plus (sum_ran k ((call (sum_aggregator arithmetic) ttl exclusions names s c).0 ∷ [])) (
              value arithmetic k (call (sum_aggregator arithmetic) ttl exclusions names s c).1.held)
            ≡ plus (value arithmetic k s.held) (value arithmetic k (named names c)))
          × Unique Text-discrete (call (sum_aggregator arithmetic) ttl exclusions names s c).1.held
    unfolding call flush get
    call-conserved k s c a b u =
        let w = value-sums_after k s.held c a b in
        elim (Bool-cases (ltb s.expire c.now)) [
          | inl p ↦
              rw p (law.zero_right _ ∙ (law.zero_right _ ∙ (value-ran k s.held c a u ∙ w)), tt)
          | inr p ↦ rw p (
            law.zero_left _ ∙ w,
            sum_update-Unique arithmetic (given exclusions names c) s.held u,
          )
        ]

    conserved-from :
        (k : Text) (d i : V) (cs : List (Call V)) (r : Effect V × Sums)
        → plus (sum_ran k (r.0 ∷ [])) (value arithmetic k r.1.held) ≡ plus d i
        → plus (sum_ran k (effects (sum_aggregator arithmetic) ttl exclusions names r.1 cs)) (
            value arithmetic k (final (sum_aggregator arithmetic) ttl exclusions names r.1 cs).held)
          ≡ plus (value arithmetic k r.1.held) (sum_passed names k cs)
        → plus (sum_ran k (r.0 ∷ effects (sum_aggregator arithmetic) ttl exclusions names r.1 cs)) (
            value arithmetic k (final (sum_aggregator arithmetic) ttl exclusions names r.1 cs).held)
          ≡ plus d (plus i (sum_passed names k cs))
    conserved-from k d i cs (ran kwargs, t) h g =
        let x = value arithmetic k kwargs in
        let p = sum_passed names k cs in
        law.assoc x _ _
        ∙ (ap (plus x) g
            ∙ (sym (law.assoc x _ p)
                ∙ (ap (λ y. plus y p)
                      (ap (λ y. plus y (value arithmetic k t.held)) (sym (law.zero_right x)) ∙ h)
                    ∙ law.assoc d i p)))
    conserved-from k d i cs (skipped, t) h g =
        let p = sum_passed names k cs in
        g ∙ (ap (λ y. plus y p) (sym (law.zero_left _) ∙ h) ∙ law.assoc d i p)
    conserved-from k d i cs (failed e, t) h g =
        let p = sum_passed names k cs in
        g ∙ (ap (λ y. plus y p) (sym (law.zero_left _) ∙ h) ∙ law.assoc d i p)

    -- Where the addition is that of whole numbers: for every name that is not excluded, what the
    -- function was run on under it over any calls, with the sum that is held at the end, makes up
    -- what was held at the start with all that the callers passed, whenever the calls came in.
    pub effects-conserved :
        (k : Text) (s : Wrapper (sum_aggregator arithmetic) ttl exclusions names)
        (cs : List (Call V))
        → All (λ x. x ≢ k) exclusions
        → AreCalls cs
        → Unique Text-discrete s.held
        → plus
            (sum_ran k (effects (sum_aggregator arithmetic) ttl exclusions names s cs))
            (value arithmetic k (final (sum_aggregator arithmetic) ttl exclusions names s cs).held)
          ≡ plus (value arithmetic k s.held) (sum_passed names k cs)
    unfolding effects final call flush
    effects-conserved k s [] a b u = law.zero_left _ ∙ sym (law.zero_right _)
    effects-conserved k s (c ∷ cs) a b u =
        let (p, q) = call-conserved k s c a b.0 u in
        conserved-from k (value arithmetic k s.held) (value arithmetic k (named names c)) cs _ p (
          effects-conserved k (call (sum_aggregator arithmetic) ttl exclusions names s c).1 cs a b.1
            q)
