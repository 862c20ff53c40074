-- ===== src/Tests/Requests.antt =====
-- kh_common/gateway.py and kh_common/exceptions at concrete inputs.
use kh_common.Prelude.{
  ℕ, zero, suc, ◌≡◌, refl, ◌⊎◌, true, false, Option, none, some, [], ◌∷◌, arith,
}
use kh_common.Prelude.Outcome.{raised}
use kh_common.Prelude.Text.{Text, codes}
use kh_common.Prelude.Dict.{Dict}
use kh_common.Gateway.{Reply, decoded, response_error}
use kh_common.Gateway.Request.{attribute_error}
use kh_common.Gateway.Endpoint.{Gateway, default, call_gateway}
use kh_common.Gateway.Endpoint.Called.{is_refused, IsSent, call_gateway-IsSent}
use kh_common.Exceptions.{
  Class, client_error, exception, not_found, Class-discrete, http_mro, Exception, has_class,
}
use kh_common.Exceptions.Handler.{translate, wrapper}
use kh_common.Exceptions.Response.{json_error_handler}
use kh_common.Exceptions.Translation.{response, Safe, wrapper-Safe, json_error_handler-translate}

-- The first two attempts are answered with 503.
abbrev replies : ℕ → Reply ℕ ℕ
replies zero = response_error 503
replies (suc zero) = response_error 503
replies (suc (suc zero)) = response_error 503
replies (suc (suc (suc n))) = decoded 7

-- The gateway with the defaults, which allow three attempts
abbrev gateway : Gateway
gateway = default (codes "https://example.com/post/{post_id}")

abbrev body : Option (Dict Text ℕ)
body = some ((codes "page", 2) ∷ [])

call_gateway-IsSent_example :
    ((is_refused gateway.method body none ≡ true)
      × (call_gateway (λ method url req. replies) (λ url. url) gateway body none none none
          ≡ raised attribute_error))
    ⊎ ((is_refused gateway.method body none ≡ false)
        × IsSent (λ method url req. replies) (λ url. url) gateway body none none none)
unfolding default
call_gateway-IsSent_example =
    call_gateway-IsSent (λ method url req. replies) (λ url. url) gateway body none none none
      (ground arith)

abbrev missing : Exception ℕ
missing = record {
  class_name = codes "NotFound";
  mro = http_mro not_found;
  message = codes "no such post";
  status = some 404;
  refid = none;
  logdata = [];
}

abbrev key_error : Exception ℕ
key_error = record {
  class_name = codes "KeyError";
  mro = Class.other_class 1 ∷ exception ∷ [];
  message = codes "secret";
  status = none;
  refid = none;
  logdata = [];
}

wrapper-Safe_example : Safe {A = ℕ} (raised key_error) (
    wrapper
      (codes "reading")
      []
      ((Class.other_class 1, missing) ∷ [])
      []
      []
      []
      (codes "id")
      (raised key_error))
unfolding has_class Class-discrete
wrapper-Safe_example =
    wrapper-Safe (codes "reading") [] ((Class.other_class 1, missing) ∷ []) [] [] [] (codes "id")
      (raised key_error) (refl, tt)

json_error_handler-translate_example :
    json_error_handler (codes "new") (translate (codes "reading") [] [] (codes "id") key_error)
    ≡ response (has_class key_error.mro client_error) (codes "reading") (codes "id")
unfolding has_class Class-discrete
json_error_handler-translate_example =
    json_error_handler-translate (codes "reading") (codes "id") (codes "new") [] key_error refl
