-- ===== src/Telegram/Queue/Progress.antt =====
-- One turn of a worker after the process is terminated.
use mathlib.Core.Logic.{if_pos, if_neg}
use kh_common.Prelude.{
  ℕ, ◌+◌, ◌*◌, ◌≤◌, ◌≡◌, ◌≢◌, refl, sym, ap, ◌∙◌, List, [], ◌∷◌, ◌++◌, ◌-◌, Bool, true, false, ◌==◌,
  if◌then◌else◌, arith, ℕ_discrete,
}
use kh_common.Prelude.Lists.{length}
use kh_common.Telegram.Queue.{
  Update, Ending, Phase, idle, busy, ended, State, set_phase, end_parse, take_update, process,
}

-- The turns that a worker needs at most.
abbrev pub phase_left : Phase → ℕ
phase_left idle = 1
phase_left (busy u) = 2
phase_left ended = 0

abbrev pub left : ℕ → State → ℕ
left i s = 2 * length s.queue + phase_left (s.worker i)

abbrev pub bit : ℕ → ℕ → ℕ
bit i j = if i == j then 1 else 0

set_phase_self : (i : ℕ) (p : Phase) (worker : ℕ → Phase) → set_phase i p worker i ≡ p
set_phase_self i p worker = rw (if_pos (ℕ_discrete i i) refl) refl

set_phase_ne :
    (i j : ℕ) (p : Phase) (worker : ℕ → Phase) → j ≢ i → set_phase j p worker i ≡ worker i
set_phase_ne i j p worker n = rw (if_neg (ℕ_discrete j i) n) refl

-- What a turn of worker `j` does to the state, as far as worker `i` is concerned.
pub record Progress (i j : ℕ) (s t : State) : Type 0 where
  pub alive : t.alive ≡ false
  pub kept : t.taken ++ t.queue ≡ s.taken ++ s.queue
  pub stays : t.worker i ≡ ended → t.queue ≡ []
  pub less : left i t ≤ left i s - bit i j

left-ended : (i : ℕ) (s : State) → s.worker i ≡ ended → s.queue ≡ [] → left i s ≡ 0
left-ended i s p q = rw (p, q) refl

ended-Progress :
    (i j : ℕ) (s : State)
    → s.alive ≡ false
    → (s.worker i ≡ ended → s.queue ≡ [])
    → s.worker j ≡ ended
    → Progress i j s s
ended-Progress i j s a b p = record {
  alive = a;
  kept = refl;
  stays = b;
  less = elim (ℕ_discrete i j) [
    | yes e ↦ let q : s.worker i ≡ ended = rw e p in rw (left-ended i s q (b q)) (omega arith)
    | no n ↦ ground arith
  ];
}

busy-Progress :
    (i j : ℕ) (u : Update) (ending : Ending) (s : State)
    → s.alive ≡ false
    → (s.worker i ≡ ended → s.queue ≡ [])
    → s.worker j ≡ busy u
    → Progress i j s (end_parse j u ending s)
unfolding end_parse
busy-Progress i j u ending s a b p = elim (ℕ_discrete j i) [
  | yes e ↦
      let q : s.worker i ≡ busy u = rw (← e) p in
      let r : set_phase j idle s.worker i ≡ idle = rw e (set_phase_self i idle s.worker) in
      record {
        alive = a;
        kept = refl;
        stays = λ h. let h' : idle ≡ ended = sym r ∙ h in cc;
        less = rw (r, q) (ground arith);
      }
  | no n ↦
      let r : set_phase j idle s.worker i ≡ s.worker i = set_phase_ne i j idle s.worker n in
      record { alive = a; kept = refl; stays = λ h. b (sym r ∙ h); less = rw r (ground arith) }
]

-- An idle worker finds the queue empty, and ends.
empty-Progress :
    (i j : ℕ) (s : State)
    → s.alive ≡ false
    → (s.worker i ≡ ended → s.queue ≡ [])
    → s.worker j ≡ idle
    → s.queue ≡ []
    → Progress i j s (record s { worker = set_phase j ended s.worker })
empty-Progress i j s a b p q = elim (ℕ_discrete j i) [
  | yes e ↦
      let m : s.worker i ≡ idle = rw (← e) p in
      let r : set_phase j ended s.worker i ≡ ended = rw e (set_phase_self i ended s.worker) in
      record { alive = a; kept = refl; stays = λ h. q; less = rw (r, q, m) (ground arith) }
  | no n ↦
      let r : set_phase j ended s.worker i ≡ s.worker i = set_phase_ne i j ended s.worker n in
      record { alive = a; kept = refl; stays = λ h. q; less = rw r (ground arith) }
]

append_one : (us vs : List Update) (u : Update) → (us ++ u ∷ []) ++ vs ≡ us ++ u ∷ vs
append_one [] vs u = refl
append_one (x ∷ us) vs u = ap (◌∷◌ x) (append_one us vs u)

-- An idle worker takes an update.
taken-Progress :
    (i j : ℕ) (u : Update) (us : List Update) (s : State)
    → s.alive ≡ false
    → (s.worker i ≡ ended → s.queue ≡ [])
    → s.worker j ≡ idle
    → s.queue ≡ u ∷ us
    → Progress i j s (take_update j (u ∷ us) s)
unfolding take_update
taken-Progress i j u us s a b p q =
    let k : (s.taken ++ u ∷ []) ++ us ≡ s.taken ++ s.queue = append_one s.taken us u ∙ rw q refl in
    elim (ℕ_discrete j i) [
      | yes e ↦
          let m : s.worker i ≡ idle = rw (← e) p in
          let r : set_phase j (busy u) s.worker i ≡ busy u =
            rw e (set_phase_self i (busy u) s.worker) in
          record {
            alive = a;
            kept = k;
            stays = λ h. let h' : busy u ≡ ended = sym r ∙ h in cc;
            less = rw (r, q, m) (ground arith);
          }
      | no n ↦
          let r : set_phase j (busy u) s.worker i ≡ s.worker i =
            set_phase_ne i j (busy u) s.worker n in
          record {
            alive = a;
            kept = k;
            stays = λ h. let c : (u ∷ us) ≡ [] = sym q ∙ b (sym r ∙ h) in cc;
            less = rw (r, q) (ground arith);
          }
    ]

end_if :
    (i j : ℕ) (alive : Bool) (s : State)
    → alive ≡ false
    → s.alive ≡ false
    → (s.worker i ≡ ended → s.queue ≡ [])
    → s.worker j ≡ idle
    → s.queue ≡ []
    → Progress i j s (if alive then s else record s { worker = set_phase j ended s.worker })
end_if i j true s h a b p q = cc
end_if i j false s h a b p q = empty-Progress i j s a b p q

take_update-Progress :
    (i j : ℕ) (us : List Update) (s : State)
    → s.alive ≡ false
    → (s.worker i ≡ ended → s.queue ≡ [])
    → s.worker j ≡ idle
    → s.queue ≡ us
    → Progress i j s (take_update j us s)
unfolding take_update
take_update-Progress i j [] s a b p q = end_if i j s.alive s a a b p q
take_update-Progress i j (u ∷ us) s a b p q = taken-Progress i j u us s a b p q

pub process-Progress :
    (i j : ℕ) (ending : Ending) (phase : Phase) (s : State)
    → s.alive ≡ false
    → (s.worker i ≡ ended → s.queue ≡ [])
    → s.worker j ≡ phase
    → Progress i j s (process j ending phase s)
unfolding process
process-Progress i j ending idle s a b p = take_update-Progress i j s.queue s a b p refl
process-Progress i j ending (busy u) s a b p = busy-Progress i j u ending s a b p
process-Progress i j ending ended s a b p = ended-Progress i j s a b p
