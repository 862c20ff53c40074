-- ===== src/Email/Sending.antt =====
-- How an email is sent.
use kh_common.Prelude.{
  ℕ, zero, suc, ◌≤◌, ◌≡◌, refl, ap, ◌⊎◌, inl, inr, List, [], ◌∷◌, Bool, true, false, arith,
}
use kh_common.Prelude.Outcome.{returned, raised}
use kh_common.Prelude.Dict.{Dict}
use kh_common.Prelude.Text.{Text, codes}
use kh_common.Email.{Email, Sent, payload_of, after_request, outcome_of, send_loop, send_email}

-- `range(i, i + n)`
abbrev pub range : ℕ → ℕ → List ℕ
range i zero = []
range i (suc n) = i ∷ range (suc i) n

abbrev pub copies : ℕ → Dict Text Text → List (Dict Text Text)
copies zero payload = []
copies (suc n) payload = payload ∷ copies n payload

module _ {World : Type 0} (request : Dict Text Text → World → Bool × World)
    (payload : Dict Text Text) where
  -- What the service answered: `n` requests failed, one after the other from the first world to the
  -- second.
  pub data Refusals : World → ℕ → World → Type 0 where
    no_refusal : {w : World} → Refusals w 0 w
    and_refusal :
        {w v : World} {n : ℕ}
        → (request payload w).0 ≡ false
        → Refusals (request payload w).1 n v
        → Refusals w (suc n) v

  -- After `n` failed requests the next one was answered without an exception, and it was the last.
  pub record IsAccepted (rounds i : ℕ) (w : World) (s : Sent World) : Type 0 where
    pub n : ℕ
    pub before : World
    pub below : suc n ≤ rounds
    pub refusals : Refusals w n before
    pub answered : (request payload before).0 ≡ true
    pub result : s ≡ record {
      accepted = true;
      payloads = copies (suc n) payload;
      waits = range i n;
      world = (request payload before).1;
    }

  -- All requests failed.
  pub record IsRefused (rounds i : ℕ) (w : World) (s : Sent World) : Type 0 where
    pub after : World
    pub refusals : Refusals w rounds after
    pub result : s ≡ record {
      accepted = false;
      payloads = copies rounds payload;
      waits = range i rounds;
      world = after;
    }

  abbrev Ended : ℕ → ℕ → World → Sent World → Type 0
  Ended rounds i w s = IsAccepted rounds i w s ⊎ IsRefused rounds i w s

  after_request-Ended :
      (ok : Bool) (rounds i : ℕ) (w : World) (rest : Sent World)
      → (request payload w).0 ≡ ok
      → Ended rounds (suc i) (request payload w).1 rest
      → Ended (suc rounds) i w (after_request ok i payload (request payload w).1 rest)
  unfolding after_request
  after_request-Ended true rounds i w rest h e = inl (record {
    n = 0;
    before = w;
    below = omega arith;
    refusals = no_refusal;
    answered = h;
    result = refl;
  })
  after_request-Ended false rounds i w rest h (inl a) = inl (record {
    n = suc a.n;
    before = a.before;
    below = omega (arith, a.below);
    refusals = and_refusal h a.refusals;
    answered = a.answered;
    result = ap (after_request false i payload (request payload w).1) a.result;
  })
  after_request-Ended false rounds i w rest h (inr a) = inr (record {
    after = a.after;
    refusals = and_refusal h a.refusals;
    result = ap (after_request false i payload (request payload w).1) a.result;
  })

  send_loop-Ended :
      (rounds i : ℕ) (w : World) → Ended rounds i w (send_loop request rounds i payload w)
  unfolding send_loop
  send_loop-Ended zero i w = inr (record { after = w; refusals = no_refusal; result = refl })
  send_loop-Ended (suc rounds) i w =
      after_request-Ended (request payload w).0 rounds i w _ refl
        (send_loop-Ended rounds (suc i) (request payload w).1)

module _ {World : Type 0} (request : Dict Text Text → World → Bool × World) (style fresh : Text)
    (email : Email) (w : World) where
  -- `sendEmail` sends the one payload until the service answers a request without an exception, and then
  -- sends no more and returns True; if the service fails five requests, it raises the error with the
  -- recipient and the subject. It waits 0, 1, 2, ... seconds after the requests that fail.
  pub send_email-IsSent :
      (IsAccepted request (payload_of style email) 5 0 w (send_email request style fresh email w).1
        × ((send_email request style fresh email w).0 ≡ returned true))
      ⊎ (IsRefused request (payload_of style email) 5 0 w (send_email request style fresh email w).1
          × ((send_email request style fresh email w).0
              ≡ raised (record {
                message = codes "failed to send email.";
                to = email.to;
                subject = email.subject;
                refid = fresh;
              })))
  unfolding send_email outcome_of
  send_email-IsSent = elim (send_loop-Ended request (payload_of style email) 5 0 w) [
    | inl a ↦ inl (a, ap (λ s. outcome_of fresh email s.accepted) a.result)
    | inr a ↦ inr (a, ap (λ s. outcome_of fresh email s.accepted) a.result)
  ]
