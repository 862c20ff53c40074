-- ===== src/Server/Preflight.antt =====
-- What becomes of a preflight request, which browsers send without credentials.
use kh_common.Prelude.{◌≡◌, refl, Option, none, [], true, false}
use kh_common.Prelude.Outcome.{returned, raised}
use kh_common.Prelude.Text.{Text, codes}
use kh_common.Auth.Token.{AuthError, unauthorized, same_text}
use kh_common.Auth.User.{first_set, verify_words, retrieve_auth_token}
use kh_common.Auth.Middleware
use kh_common.Auth.Middleware.{Kind, http}
use kh_common.Exceptions.{Class-discrete, class_status, has_class}
use kh_common.Exceptions.Response.{json_error_handler}
use kh_common.Server.{
  Config, Request, Layer, auth_layer, App, Platform, run, verify, inner_app, server_app,
}
use kh_common.Server.Admitted.{IsFramework}

module _ (platform : Platform) where
  open platform use {services, is_space, scope_names, fresh}

  abbrev no_token : AuthError
  no_token = unauthorized (codes "An authentication token was not provided.")

  identify_missing :
      (header cookie : Option Text)
      → first_set header cookie ≡ none
      → Middleware.identify (verify platform) is_space scope_names fresh platform.now header cookie
        ≡ raised no_token
  unfolding Middleware.identify retrieve_auth_token verify_words
  identify_missing header cookie h = rw h refl

  -- With authentication required, an HTTP request that brings no token, other than one for the
  -- API's description, is answered with 401 and without any of the headers that allow an origin,
  -- whatever its method and origin are and whether or not origins are checked: the authentication
  -- is added last, so it stands outside the middleware that answers preflight requests.
  pub server_app_preflight :
      (add : Layer → App services.Json → App services.Json)
      → IsFramework platform add
      → (config : Config) (app : App services.Json) (r : Request services.Json) → config.auth ≡ true
      → config.auth_required ≡ true
      → r.kind ≡ http
      → same_text r.path (codes "/openapi.json") ≡ false
      → first_set r.authorization r.cookie ≡ none
      → server_app platform add config app r ≡ returned (record { status = 401; headers = [] })
  unfolding server_app run Middleware.handle json_error_handler has_class Class-discrete
      class_status
  server_app_preflight add law config app r a b k p h =
      rw
        (
          a,
          b,
          law.wraps (auth_layer true) (inner_app platform add config app),
          k,
          p,
          identify_missing r.authorization r.cookie h,
        )
        refl
