-- ===== src/Gateway/Endpoint.antt =====
-- A `Gateway` of kh_common/gateway.py as a whole: what `__init__` keeps, and a call, which builds the
-- request and makes the attempts. The timeout, the model and the decoder belong to the client.
pub mod Called
use kh_common.Prelude.{ℕ, ◌+◌, ◌*◌, Option, none, some, List, [], ◌∷◌}
use kh_common.Prelude.Outcome.{Outcome, returned, raised, ◌>>=◌}
use kh_common.Prelude.Dict.{Dict}
use kh_common.Prelude.Text.{Text, codes, lower}
use kh_common.Gateway.{Reply, Trace, call}
use kh_common.Gateway.Request.{Request, Refusal, build_request}

pub record Gateway : Type 0 where
  pub endpoint : Text
  pub method : Text
  pub attempts : ℕ
  pub status_to_retry : List ℕ
  pub backoff : ℕ → ℕ

-- `__init__`
unfoldable pub init : Text → Text → ℕ → List ℕ → (ℕ → ℕ) → Gateway
init endpoint method attempts status_to_retry backoff = record {
  endpoint = endpoint;
  method = lower method;
  attempts = attempts;
  status_to_retry = status_to_retry;
  backoff = backoff;
}

-- `__init__` with its defaults
unfoldable pub default : Text → Gateway
unfolding init
default endpoint =
    init endpoint (codes "GET") 3 (429 ∷ 502 ∷ 503 ∷ 504 ∷ []) (λ attempt. attempt * attempt)

-- The client is given the method, the endpoint with the keywords put in, the request, and the number
-- of the attempt.
abbrev pub Client : Type 0 → Type 0 → Type 0 → Type 0
Client V E A = Text → Text → Request V → ℕ → Reply E A

module _ {V E A : Type 0} where
  -- `__call__`; `format` is `self._endpoint.format(**kwargs)`.
  unfoldable pub call_gateway :
      Client V E A
      → (Text → Text)
      → Gateway
      → Option (Dict Text V)
      → Option (Dict Text V)
      → Option Text
      → Option (Dict Text Text)
      → Outcome Refusal (Trace E A)
  unfolding call
  call_gateway client format gateway body params auth headers = do
    req ← build_request gateway.method body params auth headers
    returned (
        call gateway.status_to_retry gateway.backoff gateway.attempts
          (client gateway.method (format gateway.endpoint) req))
