-- ===== src/Telegram/Queue/Ascending.antt =====
-- Each update is worked on once, in the order of the ids.
use kh_common.Prelude.{
  ℕ, ◌+◌, ◌≤◌, ◌≡◌, refl, sym, ap, ◌∙◌, List, [], ◌∷◌, ◌++◌, Bool-cases, inl, inr,
}
use kh_common.Telegram.Queue.{
  Update, Reply, not_ok, updates, Ending, Phase, idle, busy, ended, Receiver, ready, asking, over,
  State, initial, Event, ask, reply, work, terminate, after_last, receive, on_reply, on_ask,
  end_parse, take_update, process, step, run,
}

-- Every id is at least `n` and greater than those before it.
abbrev pub Ascending : ℕ → List Update → Type 0
Ascending n [] = Unit
Ascending n (u ∷ us) = (n ≤ u.update_id) × Ascending (u.update_id + 1) us

-- The first id that may follow.
abbrev next_id : ℕ → List Update → ℕ
next_id n [] = n
next_id n (u ∷ us) = next_id (u.update_id + 1) us

-- Telegram's part: a reply holds updates in the order of their ids, none below the offset that was
-- sent.
abbrev pub Offered : ℕ → Reply → Receiver → Type 0
Offered n (updates us) asking = Ascending n us
Offered n _ _ = Unit

abbrev pub Answers : State → Event → Type 0
Answers s (reply r) = Offered s.mostrecent r s.receiver
Answers s _ = Unit

abbrev pub Honest : State → List Event → Type 0
Honest s [] = Unit
Honest s (e ∷ es) = Answers s e × Honest (step s e) es

Ascending-append :
    (n : ℕ) (us vs : List Update)
    → Ascending n us
    → Ascending (next_id n us) vs
    → Ascending n (us ++ vs)
Ascending-append n [] vs a b = b
Ascending-append n (u ∷ us) vs a b = (a.0, Ascending-append (u.update_id + 1) us vs a.1 b)

next_id-append : (n : ℕ) (us vs : List Update) → next_id n (us ++ vs) ≡ next_id (next_id n us) vs
next_id-append n [] vs = refl
next_id-append n (u ∷ us) vs = next_id-append (u.update_id + 1) us vs

after_last-next_id :
    (u : Update) (us : List Update) → after_last u us ≡ next_id (u.update_id + 1) us
unfolding after_last
after_last-next_id u [] = refl
after_last-next_id u (v ∷ us) = after_last-next_id v us

append_assoc : (a b c : List Update) → (a ++ b) ++ c ≡ a ++ (b ++ c)
append_assoc [] b c = refl
append_assoc (x ∷ a) b c = ap (◌∷◌ x) (append_assoc a b c)

-- The updates that were taken and those in the queue are what was received, in order.
record Good (s : State) : Type 0 where
  ordered : Ascending 0 (s.taken ++ s.queue)
  offset : s.mostrecent ≡ next_id 0 (s.taken ++ s.queue)

receive-Good :
    (s : State) (us : List Update) (t : State)
    → t.taken ≡ s.taken
    → t.queue ≡ s.queue ++ us
    → t.mostrecent ≡ next_id s.mostrecent us
    → Ascending s.mostrecent us
    → Good s
    → Good t
receive-Good s us t p q r a g =
    let e : t.taken ++ t.queue ≡ (s.taken ++ s.queue) ++ us =
      rw (p, q) (sym (append_assoc s.taken s.queue us)) in
    let a' : Ascending (next_id 0 (s.taken ++ s.queue)) us = rw (← g.offset) a in
    record {
      ordered = rw e (Ascending-append 0 (s.taken ++ s.queue) us g.ordered a');
      offset = rw (e, r, g.offset) (sym (next_id-append 0 (s.taken ++ s.queue) us));
    }

on_reply-Good :
    (r : Reply) (receiver : Receiver) (s : State)
    → Offered s.mostrecent r receiver
    → Good s
    → Good (on_reply r receiver s)
unfolding on_reply receive
on_reply-Good r ready s a g = g
on_reply-Good r over s a g = g
on_reply-Good (updates (u ∷ us)) asking s a g =
    receive-Good s (u ∷ us) _ refl refl (after_last-next_id u us) a g
on_reply-Good (updates []) asking s a g = record { ordered = g.ordered; offset = g.offset }
on_reply-Good not_ok asking s a g = record { ordered = g.ordered; offset = g.offset }
on_reply-Good Reply.failed asking s a g = record { ordered = g.ordered; offset = g.offset }

on_ask-Good : (receiver : Receiver) (s : State) → Good s → Good (on_ask receiver s)
unfolding on_ask
on_ask-Good ready s g = elim (Bool-cases s.alive) [
  | inl p ↦ rw p (record { ordered = g.ordered; offset = g.offset })
  | inr p ↦ rw p (record { ordered = g.ordered; offset = g.offset })
]
on_ask-Good asking s g = g
on_ask-Good over s g = g

take_update-Good :
    (i : ℕ) (us : List Update) (s : State) → s.queue ≡ us → Good s → Good (take_update i us s)
unfolding take_update
take_update-Good i [] s e g = elim (Bool-cases s.alive) [
  | inl p ↦ rw p (record { ordered = g.ordered; offset = g.offset })
  | inr p ↦ rw p (record { ordered = g.ordered; offset = g.offset })
]
take_update-Good i (u ∷ us) s e g =
    let p : (s.taken ++ u ∷ []) ++ us ≡ s.taken ++ s.queue =
      append_assoc s.taken (u ∷ []) us ∙ rw e refl in
    record { ordered = rw p g.ordered; offset = rw p g.offset }

process-Good :
    (i : ℕ) (ending : Ending) (p : Phase) (s : State) → Good s → Good (process i ending p s)
unfolding process end_parse
process-Good i ending idle s g = take_update-Good i s.queue s refl g
process-Good i ending (busy u) s g = record { ordered = g.ordered; offset = g.offset }
process-Good i ending ended s g = g

step-Good : (s : State) (e : Event) → Answers s e → Good s → Good (step s e)
unfolding step
step-Good s ask a g = on_ask-Good s.receiver s g
step-Good s (reply r) a g = on_reply-Good r s.receiver s a g
step-Good s (work i ending) a g = process-Good i ending (s.worker i) s g
step-Good s terminate a g = record { ordered = g.ordered; offset = g.offset }

run-Good : (s : State) (es : List Event) → Honest s es → Good s → Good (run s es)
unfolding run
run-Good s [] h g = g
run-Good s (e ∷ es) h g = run-Good (step s e) es h.1 (step-Good s e h.0 g)

-- If Telegram sends no update below the offset that it is asked for, and sends them in the order of
-- their ids, then, in whatever order the coroutines go on and however parsings and requests fail,
-- the updates that the workers have taken have ascending ids, each greater than all before it, and
-- those that wait in the queue follow on in the same way.
pub run-Ascending :
    (es : List Event)
    → Honest initial es
    → Ascending 0 ((run initial es).taken ++ (run initial es).queue)
run-Ascending es h = (run-Good initial es h (record { ordered = tt; offset = refl })).ordered
