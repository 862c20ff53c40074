-- ===== src/Auth/Token/Cached.antt =====
-- `verifyToken` under its decorator, `ArgsCache(30)`, for callers that overlap.
use kh_common.Prelude.{ℕ, ◌+◌, ◌≤◌, arith, ◌≡◌, refl, sym, ◌∙◌, inl, inr, List, [], ◌∷◌}
use kh_common.Prelude.Outcome.{Outcome, returned}
use kh_common.Prelude.Text.{Text, Text-discrete}
use kh_common.Auth.Token.{AuthError, TokenMetadata, Services, AuthToken, verify_token}
use kh_common.Auth.Token.Accepted.{IsAccepted, verify_token-IsAccepted}
use kh_common.Caching.Overlap.{
  Event, start, finish, Answer, served, waits, impossible, State, initial, step, final,
}
use kh_common.Caching.Overlap.Kept.{Happened, InOrder, clock, Alone}
use kh_common.Caching.Overlap.Timely.{start-Timely}

-- The other services stay as they are; `metadata` is what the token store, behind the local cache of
-- its own, gives at each time.
module _ (services : Services) (metadata : ℕ → Text → Outcome AuthError TokenMetadata) where
  abbrev pub services_at : ℕ → Services
  services_at t = record services { get_metadata = metadata t }

  abbrev pub Token : Type 0
  Token = AuthToken services.Json

  -- `verifyToken` with its cache: what becomes of a call that comes in, or of a run that ends. The
  -- one argument is the key.
  abbrev pub verify_step :
      State Text Token → Event AuthError Text Token → Answer AuthError Token × State Text Token
  verify_step s e = step Text-discrete 30 s e

  -- The runs of the function are those of `verifyToken`, each at a time that is not after its end.
  abbrev pub AreRuns : List (Event AuthError Text Token) → Type 0
  AreRuns [] = Unit
  AreRuns (start text now ∷ es) = AreRuns es
  AreRuns (finish text done o ∷ es) =
      ((t : ℕ) × (t ≤ done) × (o ≡ verify_token (services_at t) t text)) × AreRuns es

  run-verify_token :
      (es : List (Event AuthError Text Token)) (text : Text) (done : ℕ) (token : Token)
      → AreRuns es
      → Happened (finish text done (returned token)) es
      → (t : ℕ) × (t ≤ done) × (verify_token (services_at t) t text ≡ returned token)
  run-verify_token [] text done token r h = absurd h
  run-verify_token (start x now ∷ es) text done token r (inl e) = cc
  run-verify_token (start x now ∷ es) text done token r (inr h) =
      run-verify_token es text done token r h
  run-verify_token (finish x d o ∷ es) text done token ((t, p, q), r) (inl e) =
      let a : x ≡ text = cc in
      let b : d ≡ done = cc in
      let c : o ≡ returned token = cc in (t, rw (← b) p, rw (← a) (sym q ∙ c))
  run-verify_token (finish x d o ∷ es) text done token (q, r) (inr h) =
      run-verify_token es text done token r h

  -- A token that is served from the cache was accepted by a run of `verifyToken`, against the token
  -- store as it was at the time of that run, which ended no more than 30 seconds ago; as long as no
  -- two calls with the same token overlap, the clock does not go back and the services other than
  -- the token store stay as they are.
  pub verify_step-IsAccepted :
      (es : List (Event AuthError Text Token)) (text : Text) (now : ℕ) (token : Token)
      → InOrder 0 es
      → clock 0 es ≤ now
      → Alone Text-discrete 30 initial es
      → AreRuns es
      → (verify_step (final Text-discrete 30 initial es) (start text now)).0
        ≡ served (returned token)
      → (t : ℕ) × (done : ℕ) × (t ≤ done)
        × (now ≤ done + 30)
        × IsAccepted (services_at t) t text token
  verify_step-IsAccepted es text now token i c a r h =
      let (done, p, q) = start-Timely Text-discrete 30 es text now token i c a h in
      let (t, before, e) = run-verify_token es text done token r p in
      (t, done, before, q, verify_token-IsAccepted (services_at t) t text token e)

  -- What a call is given: the entry, or what the function returns or raises, run at that time.
  abbrev pub answered : ℕ → Text → Answer AuthError Token → Outcome AuthError Token
  answered now text (served o) = o
  answered now text waits = verify_token (services_at now) now text
  answered now text impossible = verify_token (services_at now) now text

  -- `verifyToken` as it is decorated, for a call after these events.
  abbrev pub cached_verify : List (Event AuthError Text Token) → ℕ → Text → Outcome AuthError Token
  cached_verify es now text =
      answered now text (verify_step (final Text-discrete 30 initial es) (start text now)).0

  -- The calls of `verifyToken` before this time: the clock does not go back, no two calls with the
  -- same token overlap, and the runs are those of `verifyToken`.
  abbrev pub IsHistory : List (Event AuthError Text Token) → ℕ → Type 0
  IsHistory es now =
      InOrder 0 es × (clock 0 es ≤ now) × Alone Text-discrete 30 initial es × AreRuns es

  -- The token was accepted by a run of `verifyToken`, against the services as they were at that
  -- time, and the run ended no more than 30 seconds ago.
  abbrev pub IsRecent : ℕ → Text → Token → Type 0
  IsRecent now text token =
      (t : ℕ) × (done : ℕ) × (t ≤ done)
      × (now ≤ done + 30)
      × IsAccepted (services_at t) t text token

  answered-IsRecent :
      (now : ℕ) (text : Text) (token : Token) (a : Answer AuthError Token)
      → (a ≡ served (returned token) → IsRecent now text token)
      → answered now text a ≡ returned token
      → IsRecent now text token
  answered-IsRecent now text token (served o) f h = f (rw h refl)
  answered-IsRecent now text token waits f h = (
    now,
    now,
    omega arith,
    omega arith,
    verify_token-IsAccepted (services_at now) now text token h,
  )
  answered-IsRecent now text token impossible f h = (
    now,
    now,
    omega arith,
    omega arith,
    verify_token-IsAccepted (services_at now) now text token h,
  )

  pub cached_verify-IsRecent :
      (es : List (Event AuthError Text Token)) (now : ℕ) (text : Text) (token : Token)
      → IsHistory es now
      → cached_verify es now text ≡ returned token
      → IsRecent now text token
  cached_verify-IsRecent es now text token (i, c, a, r) h =
      answered-IsRecent now text token _ (verify_step-IsAccepted es text now token i c a r) h
