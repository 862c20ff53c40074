-- ===== src/Gateway.antt =====
-- `Gateway.__call__` of kh_common/gateway.py: the request that is sent, and the attempts to send it.
-- The HTTP client, the decoder and the pydantic model are one parameter, which says what becomes of
-- the attempt with a given number.
pub mod Attempts
pub mod Request
pub mod Endpoint
use kh_common.Prelude.{
  ℕ, zero, suc, ◌+◌, Option, none, some, List, [], ◌∷◌, Bool, true, false, ◌==◌, not, ◌||◌,
  if◌then◌else◌,
}
use kh_common.Prelude.Outcome.{Outcome, returned, raised}

-- What one attempt comes to: the value that the call returns, a `ClientResponseError` with its
-- status, or any other exception.
pub data Reply {ℓ} (E A : Type ℓ) : Type ℓ where
  decoded : A → Reply E A
  response_error : ℕ → Reply E A
  other_error : E → Reply E A

pub data Failure {ℓ} (E : Type ℓ) : Type ℓ where
  status_error : ℕ → Failure E
  other_failure : E → Failure E

-- `status in self._status_to_retry`
unfoldable pub is_retried : List ℕ → ℕ → Bool
is_retried [] status = false
is_retried (s ∷ ss) status = s == status || is_retried ss status

-- The outcome, the number of requests that were sent, and the waits between them. `none` is the
-- None of a call that falls out of the loop.
pub record Trace {ℓ} (E A : Type ℓ) : Type ℓ where
  pub outcome : Outcome (Failure E) (Option A)
  pub sent : ℕ
  pub waits : List ℕ

module _ {ℓ} {E A : Type ℓ} (status_to_retry : List ℕ) (backoff : ℕ → ℕ) (attempts : ℕ)
    (reply : ℕ → Reply E A) where
  -- `for attempt in range(1, attempts + 1)`, with the rounds left and the attempt's number
  unfoldable pub loop : ℕ → ℕ → Trace E A
  unfolding is_retried
  loop zero attempt = record { outcome = returned none; sent = 0; waits = [] }
  loop (suc left) attempt =
      let rest = loop left (suc attempt) in
      elim (reply attempt) [
        | decoded a ↦ record { outcome = returned (some a); sent = 1; waits = [] }
        | other_error e ↦ record { outcome = raised (other_failure e); sent = 1; waits = [] }
        | response_error status ↦
            if not (is_retried status_to_retry status) || attempt == attempts
            then record { outcome = raised (status_error status); sent = 1; waits = [] }
            else record {
              outcome = rest.outcome;
              sent = suc rest.sent;
              waits = backoff attempt ∷ rest.waits;
            }
      ]

  unfoldable pub call : Trace E A
  unfolding loop
  call = loop attempts 1
