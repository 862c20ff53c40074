-- ===== src/Gateway/Attempts.antt =====
-- How many attempts `Gateway.__call__` makes, and which of them decides.
use kh_common.Prelude.{
  ap, ℕ_discrete, ℕ, zero, suc, ◌+◌, ◌≤◌, ◌<◌, ◌≡◌, ◌⊎◌, inl, inr, refl, Option, some, List, [],
  ◌∷◌, true, false, ◌==◌, arith, Bool-cases,
}
use kh_common.Prelude.Outcome.{Outcome, returned, raised}
use kh_common.Gateway.{
  Reply, decoded, response_error, other_error, Failure, status_error, other_failure, is_retried,
  Trace, loop, call,
}

-- `backoff i`, `backoff (i + 1)`, … , `n` of them
abbrev pub backoffs : (ℕ → ℕ) → ℕ → ℕ → List ℕ
backoffs backoff i zero = []
backoffs backoff i (suc n) = backoff i ∷ backoffs backoff (suc i) n

module _ {ℓ} {E A : Type ℓ} (status_to_retry : List ℕ) where
  -- An error whose status is one of those to retry.
  abbrev pub IsTransient : Reply E A → Type 0
  IsTransient (response_error status) = is_retried status_to_retry status ≡ true
  IsTransient _ = ⊥

  abbrev pub IsFinal : Reply E A → Type 0
  IsFinal (response_error status) = is_retried status_to_retry status ≡ false
  IsFinal _ = Unit

  -- What a call comes to if this reply is the last that it looks at.
  abbrev pub verdict : Reply E A → Outcome (Failure E) (Option A)
  verdict (decoded a) = returned (some a)
  verdict (response_error status) = raised (status_error status)
  verdict (other_error e) = raised (other_failure e)

  -- Attempts number `i` to `i + k - 1` were transient errors, and attempt `last`, the next,
  -- decides: it is no transient error, or there are no more.
  pub record Decides (backoff : ℕ → ℕ) (attempts i k last : ℕ) (reply : ℕ → Reply E A)
      (t : Trace E A) : Type ℓ where
    pub place : i + k ≡ last
    pub in_range : last ≤ attempts
    pub transient : (j : ℕ) → i ≤ j → j < last → IsTransient (reply j)
    pub final : (last ≡ attempts) ⊎ IsFinal (reply last)
    pub outcome : t.outcome ≡ verdict (reply last)
    pub sent : t.sent ≡ suc k
    pub waits : t.waits ≡ backoffs backoff i k

  module _ (backoff : ℕ → ℕ) (attempts : ℕ) (reply : ℕ → Reply E A) where
    abbrev Goal : ℕ → ℕ → Type ℓ
    Goal left i =
        (k : ℕ) × (last : ℕ) × Decides backoff attempts i k last reply
          (loop status_to_retry backoff attempts reply (suc left) i)

    Decides-now :
        (i : ℕ) (r : Reply E A) (t : Trace E A)
        → i ≤ attempts
        → reply i ≡ r
        → (i ≡ attempts) ⊎ IsFinal r
        → t ≡ record { outcome = verdict r; sent = 1; waits = [] }
        → Decides backoff attempts i 0 i reply t
    Decides-now i r t le e f q = record {
      place = omega arith;
      in_range = le;
      transient = λ j g l. absurd (omega arith);
      final = rw e f;
      outcome = rw (q, e);
      sent = rw q;
      waits = rw q;
    }

    IsTransient-at :
        (i : ℕ) (status : ℕ) (j : ℕ)
        → reply i ≡ response_error status
        → is_retried status_to_retry status ≡ true
        → i ≡ j
        → IsTransient (reply j)
    IsTransient-at i status j e h q = rw (← q, e) h

    abbrev longer : ℕ → Trace E A → Trace E A
    longer i t = record { outcome = t.outcome; sent = suc t.sent; waits = backoff i ∷ t.waits }

    loop_retry :
        (left i status : ℕ)
        → i + suc left ≡ attempts
        → reply i ≡ response_error status
        → is_retried status_to_retry status ≡ true
        → loop status_to_retry backoff attempts reply (suc (suc left)) i
          ≡ longer i (loop status_to_retry backoff attempts reply (suc left) (suc i))
    unfolding loop
    loop_retry left i status h e r =
        let ne : (i == attempts) ≡ false = ground arith in rw (e, loop, r, ne)

    loop_stop :
        (left i : ℕ) (r : Reply E A)
        → reply i ≡ r
        → (i ≡ attempts) ⊎ IsFinal r
        → loop status_to_retry backoff attempts reply (suc left) i
          ≡ record { outcome = verdict r; sent = 1; waits = [] }
    unfolding loop
    loop_stop left i (decoded a) e f = rw (e, loop)
    loop_stop left i (other_error x) e f = rw (e, loop)
    loop_stop left i (response_error s) e (inl q) =
        let eq : (i == attempts) ≡ true = ground arith in
        elim (Bool-cases (is_retried status_to_retry s)) [
          | inl b ↦ rw (e, loop, b, eq)
          | inr b ↦ rw (e, loop, b)
        ]
    loop_stop left i (response_error s) e (inr q) = rw (e, loop, q)

    loop_later :
        (left i status : ℕ)
        → i + suc left ≡ attempts
        → reply i ≡ response_error status
        → is_retried status_to_retry status ≡ true
        → Goal left (suc i)
        → Goal (suc left) i
    loop_later left i status h e r (k, last, d) = (
      suc k,
      last,
      rw (loop_retry left i status h e r) (record {
        place = omega (arith, d.place);
        in_range = d.in_range;
        transient = λ j g l. elim (ℕ_discrete i j) [
          | yes q ↦ IsTransient-at i status j e r q
          | no q ↦ d.transient j (omega arith) l
        ];
        final = d.final;
        outcome = d.outcome;
        sent = ap suc d.sent;
        waits = ap (λ w. backoff i ∷ w) d.waits;
      }),
    )

    stop :
        (left i : ℕ) (r : Reply E A)
        → i ≤ attempts
        → reply i ≡ r
        → (i ≡ attempts) ⊎ IsFinal r
        → Goal left i
    stop left i r le e f = (0, i, Decides-now i r _ le e f (loop_stop left i r e f))

    step :
        (left i : ℕ) (r : Reply E A)
        → i + suc left ≡ attempts
        → reply i ≡ r
        → Goal left (suc i)
        → Goal (suc left) i
    step left i (decoded a) h e g = stop (suc left) i _ (omega arith) e (inr tt)
    step left i (other_error x) h e g = stop (suc left) i _ (omega arith) e (inr tt)
    step left i (response_error s) h e g = elim (Bool-cases (is_retried status_to_retry s)) [
      | inl b ↦ loop_later left i s h e b g
      | inr b ↦ stop (suc left) i _ (omega arith) e (inr b)
    ]

    loop-Decides : (left i : ℕ) → i + left ≡ attempts → Goal left i
    loop-Decides zero i h = stop zero i (reply i) (omega arith) refl (inl (omega arith))
    loop-Decides (suc left) i h =
        step left i (reply i) h refl (loop-Decides left (suc i) (omega arith))

  -- With at least one attempt allowed, the call is decided by one attempt, which is no later than
  -- the last one allowed. All attempts before it failed with a status to retry; it did not, or it is
  -- the last one allowed. The call returns or raises what that attempt did, has sent one request for
  -- each attempt up to it, and has waited as the backoff function says between them.
  pub call-Decides :
      (backoff : ℕ → ℕ) (attempts : ℕ) (reply : ℕ → Reply E A)
      → 0 < attempts
      → (k : ℕ) × (last : ℕ) × Decides backoff attempts 1 k last reply
          (call status_to_retry backoff attempts reply)
  unfolding call
  call-Decides backoff zero reply h = elim h [ ]
  call-Decides backoff (suc n) reply h = loop-Decides backoff (suc n) reply n 1 (omega arith)
