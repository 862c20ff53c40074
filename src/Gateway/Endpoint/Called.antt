-- ===== src/Gateway/Endpoint/Called.antt =====
-- What a call of a gateway of kh_common/gateway.py comes to.
use kh_common.Prelude.{ℕ, ◌<◌, ◌≡◌, ◌⊎◌, inl, inr, refl, sym, ap, Option, Bool, true, false, ◌&&◌}
use kh_common.Prelude.Outcome.{Outcome, returned, raised, ◌>>=◌}
use kh_common.Prelude.Dict.{Dict}
use kh_common.Prelude.Text.{Text}
use kh_common.Gateway.{Trace, call}
use kh_common.Gateway.Attempts.{Decides, call-Decides}
use kh_common.Gateway.Request.{
  Request, Refusal, attribute_error, build_request, build_request-fails, is_member,
  methods_without_body, is_none, is_given, fails,
}
use kh_common.Gateway.Endpoint.{Gateway, Client, call_gateway}

-- Params are given with no body, to a method that sends its body as params.
abbrev pub is_refused : {V : Type 0} → Text → Option (Dict Text V) → Option (Dict Text V) → Bool
is_refused method body params =
    is_member method methods_without_body && is_none body && is_given params

module _ {V E A : Type 0} (client : Client V E A) (format : Text → Text) (gateway : Gateway)
    (body params : Option (Dict Text V)) (auth : Option Text)
    (headers : Option (Dict Text Text)) where
  -- One request is built, and every attempt sends it; one of them decides.
  pub record IsSent : Type 0 where
    pub request : Request V
    pub trace : Trace E A
    pub last : ℕ
    pub before : ℕ
    pub is_built : build_request gateway.method body params auth headers ≡ returned request
    pub result : call_gateway client format gateway body params auth headers ≡ returned trace
    pub decides :
        Decides gateway.status_to_retry gateway.backoff gateway.attempts 1 before last
          (client gateway.method (format gateway.endpoint) request)
          trace

  abbrev sent : Request V → Outcome Refusal (Trace E A)
  sent req = returned (
      call gateway.status_to_retry gateway.backoff gateway.attempts
        (client gateway.method (format gateway.endpoint) req))

  abbrev Goal : Outcome Refusal (Request V) → Type 0
  Goal o =
      ((is_refused gateway.method body params ≡ true)
        × (call_gateway client format gateway body params auth headers ≡ raised attribute_error))
      ⊎ ((is_refused gateway.method body params ≡ false) × IsSent)

  called :
      (o : Outcome Refusal (Request V))
      → build_request gateway.method body params auth headers ≡ o
      → fails o ≡ is_refused gateway.method body params
      → 0 < gateway.attempts
      → Goal o
  unfolding call_gateway
  called (raised attribute_error) b f p = inl (sym f, ap (λ o. o >>= sent) b)
  called (returned request) b f p =
      let (before, last, d) =
        call-Decides gateway.status_to_retry gateway.backoff gateway.attempts
          (client gateway.method (format gateway.endpoint) request) p in
      inr (
        sym f,
        record {
          request = request;
          trace = _;
          last = last;
          before = before;
          is_built = b;
          result = ap (λ o. o >>= sent) b;
          decides = d;
        },
      )

  -- With at least one attempt allowed, a call raises AttributeError and sends nothing exactly if
  -- params are given with no body to a method that sends its body as params. Otherwise one request is
  -- built, and the call comes to what the attempts to send that request decide.
  pub call_gateway-IsSent :
      0 < gateway.attempts
      → ((is_refused gateway.method body params ≡ true)
          × (call_gateway client format gateway body params auth headers ≡ raised attribute_error))
        ⊎ ((is_refused gateway.method body params ≡ false) × IsSent)
  call_gateway-IsSent p =
      called (build_request gateway.method body params auth headers) refl
        (build_request-fails gateway.method body params auth headers) p
