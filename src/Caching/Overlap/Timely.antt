-- ===== src/Caching/Overlap/Timely.antt =====
-- `ArgsCache` serves no value past the TTL, if no calls with the same arguments overlap.
use kh_common.Prelude.{ℕ, ◌+◌, ◌≤◌, ◌≡◌, refl, sym, ◌∙◌, Option, none, some, List, arith}
use kh_common.Prelude.Outcome.{returned}
use kh_common.Prelude.Dict.{get}
use kh_common.Caching.Expiry.{clear_cache}
use kh_common.Caching.Expiry.Fresh.{get-clear_cache}
use kh_common.Caching.Overlap.Kept.{
  Happened, InOrder, clock, fresh-some, Alone, Good-final, Good-initial,
}
use kh_common.Caching.Overlap.{Event, start, finish, served, State, initial, found, step, final}

module _ {E K V : Type 0} (dec : Discrete K) (ttl : ℕ) where
  found-served :
      (k : K) (v : V) (s : State K V) (o : Option (ℕ × V))
      → (found {E = E} dec ttl k s o).0 ≡ served (returned v)
      → (e : ℕ × V) × (o ≡ some e) × (e.1 ≡ v)
  unfolding found
  found-served k v s none h = cc
  found-served k v s (some e) h = (e, refl, cc)

  -- However calls with different arguments overlap, as long as no call comes in while another with
  -- the same arguments waits and the clock does not go back: whoever is served at once is given what
  -- a run for the same arguments returned earlier, no longer ago than the TTL.
  pub start-Timely :
      (es : List (Event E K V)) (k : K) (now : ℕ) (v : V)
      → InOrder 0 es
      → clock 0 es ≤ now
      → Alone dec ttl initial es
      → (step {E = E} dec ttl (final dec ttl initial es) (start k now)).0 ≡ served (returned v)
      → (done : ℕ) × Happened (finish k done (returned v)) es × (now ≤ done + ttl)
  unfolding step
  start-Timely es k now v i c a h =
      let s = final dec ttl initial es in
      let g =
        Good-final dec ttl (λ x. Happened x es) 0 initial es i a (λ x p. p)
          (Good-initial dec ttl _) in
      let (e, p, q) = found-served k v _ (get dec k (clear_cache now s.cache)) h in
      let (r, live) =
        fresh-some now (get dec k s.cache) e
          (sym (get-clear_cache dec now k s.cache g.ordered g.unique) ∙ p) in
      let (done, x, y) = g.computed k e r in (done, rw (← q) y, omega arith)
