-- ===== src/Caching/Overlap/Kept.antt =====
-- Calls that overlap, none with another of the same arguments: the entries stay in the order of their
-- expiration.
use kh_common.Prelude.{
  ℕ, ◌+◌, ◌≤◌, ◌≡◌, refl, sym, ap, ◌∙◌, ◌⊎◌, inl, inr, Option, none, some, List, [], ◌∷◌, arith,
  leb, leb→le, Bool-cases, Option-cases,
}
use kh_common.Prelude.Lists.{All}
use kh_common.Prelude.Outcome.{Outcome, returned, raised}
use kh_common.Prelude.Dict.{get, set, Unique, get-set_self, get-set_ne, set_absent, set-Unique}
use kh_common.Caching.Expiry.{clear_cache, Below, Ordered}
use kh_common.Caching.Expiry.Fresh.{
  fresh, get-clear_cache, clear_cache-Unique, clear_cache-Ordered, clear_cache-Below, Below-le,
  append-Ordered, append-Below,
}
use kh_common.Caching.Overlap.Waiting.{
  Distinct, take_out-none, take_out-All, take_out-Distinct, Absent, Absent-clear_cache, Absent-set,
}
use kh_common.Caching.Overlap.{
  Event, start, finish, State, initial, take_out, found, resume, step, final,
}

module _ {E K V : Type 0} where
  abbrev pub Happened : Event E K V → List (Event E K V) → Type 0
  Happened x [] = ⊥
  Happened x (e ∷ es) = (e ≡ x) ⊎ Happened x es

  abbrev pub time_of : Event E K V → ℕ
  time_of (start k now) = now
  time_of (finish k done o) = done

  -- The clock does not go back.
  abbrev pub InOrder : ℕ → List (Event E K V) → Type 0
  InOrder t [] = Unit
  InOrder t (e ∷ es) = (t ≤ time_of e) × InOrder (time_of e) es

  abbrev pub clock : ℕ → List (Event E K V) → ℕ
  clock t [] = t
  clock t (e ∷ es) = clock (time_of e) es

pub fresh-some {ℓ} :
    {V : Type ℓ} (now : ℕ) (o : Option (ℕ × V)) (e : ℕ × V)
    → fresh now o ≡ some e
    → (o ≡ some e) × (now ≤ e.0)
fresh-some now none e h = cc
fresh-some now (some f) e h = elim (Bool-cases (leb now f.0)) [
  | inl live ↦
      let h' : some f ≡ some e = rw live at h in
      let p : f ≡ e = cc in (h', rw (← p) (leb→le now f.0 live))
  | inr dead ↦ let h' : none ≡ some e = rw dead at h in cc
]

module _ {E K V : Type 0} (dec : Discrete K) (ttl : ℕ) where
  -- A call does not come in while another with the same arguments waits.
  abbrev pub Apart : State K V → Event E K V → Type 0
  Apart s (start k now) = take_out dec k s.waiting ≡ none
  Apart s (finish k done o) = Unit

  abbrev pub Alone : State K V → List (Event E K V) → Type 0
  Alone s [] = Unit
  Alone s (e ∷ es) = Apart s e × Alone (step dec ttl s e).1 es

  -- At time `t`: every entry was computed by a run that has ended, and expires its TTL later.
  pub record Good (H : Event E K V → Type 0) (t : ℕ) (s : State K V) : Type 0 where
    pub ordered : Ordered s.cache
    pub unique : Unique dec s.cache
    pub below : Below (t + ttl) s.cache
    pub absent : All (Absent dec s.cache) s.waiting
    pub distinct : Distinct dec s.waiting
    pub computed :
        (k : K) (e : ℕ × V)
        → get dec k s.cache ≡ some e
        → (done : ℕ) × (e.0 ≡ done + ttl) × H (finish k done (returned e.1))

  Good-later :
      (H : Event E K V → Type 0) (t u : ℕ) (s : State K V) → t ≤ u → Good H t s → Good H u s
  Good-later H t u s h g = record {
    ordered = g.ordered;
    unique = g.unique;
    below = Below-le (t + ttl) (u + ttl) s.cache (omega arith) g.below;
    absent = g.absent;
    distinct = g.distinct;
    computed = g.computed;
  }

  Good-clear_cache :
      (H : Event E K V → Type 0) (now : ℕ) (s : State K V)
      → Good H now s
      → Good H now (record s { cache = clear_cache now s.cache })
  Good-clear_cache H now s g = record {
    ordered = clear_cache-Ordered now s.cache g.ordered;
    unique = clear_cache-Unique dec now s.cache g.unique;
    below = clear_cache-Below now (now + ttl) s.cache g.below;
    absent = Absent-clear_cache dec now s.cache s.waiting g.ordered g.unique g.absent;
    distinct = g.distinct;
    computed = λ k e h.
        let (p, q) =
          fresh-some now (get dec k s.cache) e
            (sym (get-clear_cache dec now k s.cache g.ordered g.unique) ∙ h) in
        g.computed k e p;
  }

  Good-found :
      (H : Event E K V → Type 0) (now : ℕ) (k : K) (s : State K V)
      → take_out dec k s.waiting ≡ none
      → Good H now s
      → Good H now (found {E = E} dec ttl k s (get dec k s.cache)).1
  unfolding found
  Good-found H now k s h g = elim (Option-cases (get dec k s.cache)) [
    | inl m ↦ rw m (record {
      ordered = g.ordered;
      unique = g.unique;
      below = g.below;
      absent = (m, g.absent);
      distinct = (take_out-none dec k s.waiting h, g.distinct);
      computed = g.computed;
    })
    | inr (e, m) ↦ rw m g
  ]

  Good-set :
      (H : Event E K V → Type 0) (done : ℕ) (k : K) (v : V) (s : State K V) (rest : List K)
      → take_out dec k s.waiting ≡ some rest
      → H (finish k done (returned v))
      → Good H done s
      → Good H done (record { cache = set dec k (done + ttl, v) s.cache; waiting = rest })
  Good-set H done k v s rest h happened g =
      let (a, b) = take_out-All dec (Absent dec s.cache) k s.waiting rest h g.absent in
      let (c, d) = take_out-Distinct dec k s.waiting rest h g.distinct in
      let p = set_absent dec k (done + ttl, v) s.cache a in
      record {
        ordered = rw p (append-Ordered k (done + ttl, v) s.cache g.below g.ordered);
        unique = set-Unique dec k (done + ttl, v) s.cache g.unique;
        below = rw p (append-Below k (done + ttl, v) s.cache g.below);
        absent = Absent-set dec k (done + ttl, v) s.cache rest c b;
        distinct = d;
        computed = λ j e f. elim (dec k j) [
          | yes q ↦
              let i : some (done + ttl, v) ≡ some e =
                sym (get-set_self dec k (done + ttl, v) s.cache)
                ∙ (ap (λ x. get dec x (set dec k (done + ttl, v) s.cache)) q ∙ f) in
              let i' : (done + ttl, v) ≡ e = cc in (done, rw (← i') refl, rw (← i', ← q) happened)
          | no q ↦ g.computed j e (sym (get-set_ne dec k j (done + ttl, v) s.cache q) ∙ f)
        ];
      }

  Good-ended :
      (H : Event E K V → Type 0) (done : ℕ) (k : K) (o : Outcome E V) (s : State K V)
      (rest : List K)
      → take_out dec k s.waiting ≡ some rest
      → H (finish k done o)
      → Good H done s
      → Good H done (resume dec ttl k done o s (some rest)).1
  unfolding resume
  Good-ended H done k (returned v) s rest m happened g = Good-set H done k v s rest m happened g
  Good-ended H done k (raised e) s rest m happened g = record {
    ordered = g.ordered;
    unique = g.unique;
    below = g.below;
    absent = (take_out-All dec (Absent dec s.cache) k s.waiting rest m g.absent).1;
    distinct = (take_out-Distinct dec k s.waiting rest m g.distinct).1;
    computed = g.computed;
  }

  Good-resume :
      (H : Event E K V → Type 0) (done : ℕ) (k : K) (o : Outcome E V) (s : State K V)
      → H (finish k done o)
      → Good H done s
      → Good H done (resume dec ttl k done o s (take_out dec k s.waiting)).1
  unfolding resume
  Good-resume H done k o s happened g = elim (Option-cases (take_out dec k s.waiting)) [
    | inl m ↦ rw m g
    | inr (rest, m) ↦ rw m (Good-ended H done k o s rest m happened g)
  ]

  Good-step :
      (H : Event E K V → Type 0) (t : ℕ) (s : State K V) (e : Event E K V)
      → t ≤ time_of e
      → Apart s e
      → H e
      → Good H t s
      → Good H (time_of e) (step dec ttl s e).1
  unfolding step
  Good-step H t s (start k now) h a happened g =
      Good-found H now k _ a (Good-clear_cache H now s (Good-later H t now s h g))
  Good-step H t s (finish k done o) h a happened g =
      Good-resume H done k o s happened (Good-later H t done s h g)

  pub Good-final :
      (H : Event E K V → Type 0) (t : ℕ) (s : State K V) (es : List (Event E K V))
      → InOrder t es
      → Alone s es
      → ((e : Event E K V) → Happened e es → H e)
      → Good H t s
      → Good H (clock t es) (final dec ttl s es)
  unfolding final
  Good-final H t s [] i a h g = g
  Good-final H t s (e ∷ es) i a h g =
      Good-final H (time_of e) (step dec ttl s e).1 es i.1 a.1 (λ x p. h x (inr p))
        (Good-step H t s e i.0 a.0 (h e (inl refl)) g)

  pub Good-initial : (H : Event E K V → Type 0) → Good H 0 initial
  unfolding get
  Good-initial H = record {
    ordered = tt;
    unique = tt;
    below = tt;
    absent = tt;
    distinct = tt;
    computed = λ k e h. cc;
  }
