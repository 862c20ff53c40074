-- ===== src/Caching/Args/Refines.antt =====
-- `ArgsCache` beside a memory that forgets nothing: the log of every result that was computed.
use mathlib.Core.Logic.{if_pos, if_neg}
use mathlib.Core.Path.{ap₂}
use kh_common.Prelude.{
  ℕ, ◌+◌, ◌≤◌, ◌≡◌, refl, ◌∙◌, Option, none, some, List, [], ◌∷◌, arith, leb, Bool-cases, inl, inr,
}
use kh_common.Prelude.Outcome.{Outcome, returned, raised}
use kh_common.Prelude.Dict.{get, set, Unique, get-set, set_absent, set-Unique}
use kh_common.Caching.Expiry.{Cache, clear_cache, Below, Ordered}
use kh_common.Caching.Expiry.Fresh.{
  fresh, get-clear_cache, clear_cache-Unique, clear_cache-Ordered, clear_cache-Below, Below-le,
  append-Ordered, append-Below,
}
use kh_common.Caching.Args.{Call, compute, look, call, run}

-- Each call begins after the one before it has ended.
abbrev pub InOrder {ℓ} : {E K V : Type ℓ} → ℕ → List (Call E K V) → Type 0
InOrder t [] = Unit
InOrder t (c ∷ cs) = (t ≤ c.now) × (c.now ≤ c.done) × InOrder c.done cs

fresh-fresh {ℓ} :
    {V : Type ℓ} (s t : ℕ) (o : Option (ℕ × V)) → s ≤ t → fresh t (fresh s o) ≡ fresh t o
fresh-fresh s t none h = refl
fresh-fresh s t (some e) h = elim (Bool-cases (leb s e.0)) [
  | inl live ↦ rw live
  | inr dead ↦
      rw dead
        (elim (Bool-cases (leb t e.0)) [ inl live ↦ absurd (ground arith) | inr gone ↦ rw gone ])
]

module _ {ℓ} {K V : Type ℓ} (dec : Discrete K) (ttl : ℕ) where
  -- At time `t` the cache and the log answer alike from now on.
  pub record Agrees (t : ℕ) (cache log : Cache K V) : Type ℓ where
    pub ordered : Ordered cache
    pub unique : Unique dec cache
    pub below : Below (t + ttl) cache
    pub same : (now : ℕ) (k : K) → t ≤ now → fresh now (get dec k cache) ≡ fresh now (get dec k log)

  pub Agrees-empty : (t : ℕ) → Agrees t [] []
  Agrees-empty t = record { ordered = tt; unique = tt; below = tt; same = λ now k h. refl }

  Agrees-clear_cache :
      {t : ℕ} {cache log : Cache K V} (now : ℕ)
      → t ≤ now
      → Agrees t cache log
      → Agrees now (clear_cache now cache) log
  Agrees-clear_cache {t} {cache} {log} now h a = record {
    ordered = clear_cache-Ordered now cache a.ordered;
    unique = clear_cache-Unique dec now cache a.unique;
    below =
        clear_cache-Below now _ cache (Below-le (t + ttl) (now + ttl) cache (omega arith) a.below);
    same = λ later k g.
        rw (get-clear_cache dec now k cache a.ordered a.unique)
          (fresh-fresh now later (get dec k cache) g ∙ a.same later k (omega arith));
  }

  Agrees-at :
      (done : ℕ) (k : K) (v : V) (now : ℕ) (j : K) (cache log : Cache K V)
      → fresh now (get dec j cache) ≡ fresh now (get dec j log)
      → fresh now (get dec j (set dec k (done + ttl, v) cache))
        ≡ fresh now (get dec j ((k, (done + ttl, v)) ∷ log))
  unfolding get
  Agrees-at done k v now j cache log h = rw get-set (elim (dec k j) [
    | yes p ↦ rw (if_pos _ p, get, if_pos _ p) refl
    | no p ↦ rw (if_neg _ p, get, if_neg _ p) h
  ])

  Agrees-later : {s t : ℕ} {cache log : Cache K V} → s ≤ t → Agrees s cache log → Agrees t cache log
  Agrees-later {s} {t} {cache} h a = record {
    ordered = a.ordered;
    unique = a.unique;
    below = Below-le (s + ttl) (t + ttl) cache (omega arith) a.below;
    same = λ now k g. a.same now k (omega arith);
  }

  Agrees-set :
      {t : ℕ} {cache log : Cache K V} (done : ℕ) (k : K) (v : V)
      → t ≤ done
      → get dec k cache ≡ none
      → Agrees t cache log
      → Agrees done (set dec k (done + ttl, v) cache) ((k, (done + ttl, v)) ∷ log)
  Agrees-set {t} {cache} {log} done k v h absent a = record {
    ordered =
        rw (set_absent dec k (done + ttl, v) cache absent) (append-Ordered k _ cache b a.ordered);
    unique = set-Unique dec k _ cache a.unique;
    below =
        rw (set_absent dec k (done + ttl, v) cache absent) (append-Below k (done + ttl, v) cache b);
    same = λ now j g. Agrees-at done k v now j cache log (a.same now j (omega arith));
  }
    where
      b : Below (done + ttl) cache
      b = Below-le (t + ttl) (done + ttl) cache (omega arith) a.below

module _ {ℓ} {E K V : Type ℓ} (dec : Discrete K) (ttl : ℕ) where
  -- The specification.
  pub answer : Cache K V → Call E K V → Option (ℕ × V) → Outcome E V × Cache K V
  answer log c (some e) = (returned e.1, log)
  answer log c none = (elim c.outcome [
    | returned v ↦ (returned v, (c.key, (c.done + ttl, v)) ∷ log)
    | raised e ↦ (raised e, log)
  ])

  pub remember : Cache K V → List (Call E K V) → List (Outcome E V)
  remember log [] = []
  remember log (c ∷ cs) =
      let (o, log') = answer log c (fresh c.now (get dec c.key log)) in o ∷ remember log' cs

  compute-answer :
      {t : ℕ} {cache log : Cache K V} (c : Call E K V) (o : Outcome E V)
      → c.outcome ≡ o
      → t ≤ c.done
      → get dec c.key cache ≡ none
      → Agrees dec ttl t cache log
      → ((compute dec ttl cache c o).0 ≡ (answer log c none).0)
        × Agrees dec ttl c.done (compute dec ttl cache c o).1 (answer log c none).1
  unfolding compute answer
  compute-answer {t} c (returned v) e h m a = rw e (refl, Agrees-set dec ttl c.done c.key v h m a)
  compute-answer {t} c (raised x) e h m a = rw e (refl, Agrees-later dec ttl h a)

  look-answer :
      {cache log : Cache K V} (c : Call E K V) (o : Option (ℕ × V))
      → get dec c.key cache ≡ o
      → c.now ≤ c.done
      → Agrees dec ttl c.now cache log
      → ((look dec ttl cache c o).0 ≡ (answer log c o).0)
        × Agrees dec ttl c.done (look dec ttl cache c o).1 (answer log c o).1
  unfolding look
  look-answer c none e h a = compute-answer c c.outcome refl h e a
  look-answer c (some x) e h a = unfold answer in (refl, Agrees-later dec ttl h a)

  call-answer :
      {t : ℕ} {cache log : Cache K V} (c : Call E K V)
      → t ≤ c.now
      → c.now ≤ c.done
      → Agrees dec ttl t cache log
      → ((call dec ttl cache c).0 ≡ (answer log c (fresh c.now (get dec c.key log))).0)
        × Agrees dec ttl c.done
            (call dec ttl cache c).1
            (answer log c (fresh c.now (get dec c.key log))).1
  unfolding call
  call-answer {t} {cache} {log} c h g a =
      rw (← a.same c.now c.key h, ← get-clear_cache dec c.now c.key cache a.ordered a.unique)
        (look-answer c (get dec c.key (clear_cache c.now cache)) refl g
          (Agrees-clear_cache dec ttl c.now h a))

  -- From a cache that agrees with the log, a sequence of calls, each begun after the one before it
  -- has ended, gives its callers what the log gives them.
  pub run-remember_from :
      (t : ℕ) (cache log : Cache K V) (cs : List (Call E K V))
      → InOrder t cs
      → Agrees dec ttl t cache log
      → run dec ttl cache cs ≡ remember log cs
  unfolding run remember
  run-remember_from t cache log [] h a = refl
  run-remember_from t cache log (c ∷ cs) h a =
      let (same, next) = call-answer c h.0 h.1 a in
      ap₂ ◌∷◌ same (run-remember_from c.done _ _ cs h.2 next)

  -- A sequence of calls on a new cache, each begun after the one before it has ended, gives every
  -- caller what a log of all results gives: the latest result for the same arguments, if its TTL
  -- has not passed, and otherwise what the function does now. An exception is never stored.
  pub run-remember : (cs : List (Call E K V)) → InOrder 0 cs → run dec ttl [] cs ≡ remember [] cs
  run-remember cs h = run-remember_from 0 [] [] cs h (Agrees-empty dec ttl 0)
