-- ===== src/Telegram/Queue/Drained.antt =====
-- What the workers do once the process is terminated.
use kh_common.Prelude.{
  ℕ, suc, ◌+◌, ◌*◌, ◌≤◌, ◌≡◌, ◌≢◌, refl, sym, ap, ◌∙◌, List, [], ◌∷◌, ◌++◌, false, ◌==◌,
  if◌then◌else◌, arith,
}
use kh_common.Prelude.Lists.{length}
use kh_common.Telegram.Queue.{
  Update, Phase, idle, busy, ended, State, Event, ask, reply, work, terminate, process, step, run,
}
use kh_common.Telegram.Queue.Progress.{phase_left, left, process-Progress}

-- Events of the workers alone.
abbrev pub OnlyWork : List Event → Type 0
OnlyWork [] = Unit
OnlyWork (work i ending ∷ es) = OnlyWork es
OnlyWork (e ∷ es) = ⊥

-- How often a worker goes on.
abbrev pub turns : ℕ → List Event → ℕ
turns i [] = 0
turns i (work j ending ∷ es) = if i == j then suc (turns i es) else turns i es
turns i (e ∷ es) = turns i es

nothing-left :
    (phase : Phase) (us : List Update)
    → 2 * length us + phase_left phase ≤ 0
    → (phase ≡ ended) × (us ≡ [])
nothing-left ended [] h = (refl, refl)
nothing-left ended (u ∷ us) h = absurd (omega arith)
nothing-left idle us h = absurd (omega arith)
nothing-left (busy u) us h = absurd (omega arith)

append_nil : (us : List Update) → us ++ [] ≡ us
append_nil [] = refl
append_nil (u ∷ us) = ap (◌∷◌ u) (append_nil us)

drained :
    (i : ℕ) (s : State) (es : List Event)
    → s.alive ≡ false
    → OnlyWork es
    → (s.worker i ≡ ended → s.queue ≡ [])
    → left i s ≤ turns i es
    → ((run s es).worker i ≡ ended)
      × ((run s es).queue ≡ [])
      × ((run s es).taken ≡ s.taken ++ s.queue)
unfolding run step
drained i s [] a o b h =
    let (p, q) = nothing-left (s.worker i) s.queue h in (p, q, rw q (sym (append_nil s.taken)))
drained i s (work j ending ∷ es) a o b h =
    let g = process-Progress i j ending (s.worker j) s a b refl in
    let (p, q, r) =
      drained i (process j ending (s.worker j) s) es g.alive o g.stays (ground (arith, g.less)) in
    (p, q, r ∙ g.kept)
drained i s (ask ∷ es) a o b h = absurd o
drained i s (reply r ∷ es) a o b h = absurd o
drained i s (terminate ∷ es) a o b h = absurd o

phase_left-le : (phase : Phase) → phase_left phase ≤ 2
phase_left-le idle = omega arith
phase_left-le (busy u) = omega arith
phase_left-le ended = omega arith

-- After the process is terminated, and no more updates come in, one worker that has not ended is
-- enough for the queue to be emptied: in any interleaving of the workers in which it goes on at
-- least twice for each update in the queue and twice more, and however parsings end, it ends, the
-- queue is empty, and the updates that were in it have been taken in its order.
pub run-Drained :
    (i : ℕ) (s : State) (es : List Event)
    → s.alive ≡ false
    → s.worker i ≢ ended
    → OnlyWork es
    → 2 * length s.queue + 2 ≤ turns i es
    → ((run s es).worker i ≡ ended)
      × ((run s es).queue ≡ [])
      × ((run s es).taken ≡ s.taken ++ s.queue)
run-Drained i s es a n o h =
    drained i s es a o (λ e. absurd (n e)) (omega (arith, phase_left-le (s.worker i)))
