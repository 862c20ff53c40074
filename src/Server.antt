-- ===== src/Server.antt =====
-- `ServerApp` of kh_common/server/__init__.py and `CustomHeaderMiddleware` of
-- kh_common/server/middleware/__init__.py: the middlewares of an application, and what becomes of a
-- request that goes through them. The framework is a parameter, and so are the two middlewares of
-- starlette. Of a response the status and the headers that the code here sets are kept.
pub mod Admitted
pub mod Preflight
use kh_common.Prelude.{
  ℕ, Option, none, some, List, [], ◌∷◌, ◌++◌, map, Bool, true, false, if◌then◌else◌,
}
use kh_common.Prelude.Outcome.{Outcome, returned, raised, ◌>>=◌}
use kh_common.Prelude.Dict
use kh_common.Prelude.Dict.{Dict}
use kh_common.Prelude.Text.{Text, Text-discrete, codes}
use kh_common.Auth.Token.{AuthError, TokenMetadata, Services, AuthToken}
use kh_common.Auth.Token.Cached.{Token, cached_verify}
use kh_common.Caching.Overlap.{Event}
use kh_common.Auth.User.{User}
use kh_common.Auth.Middleware.{Kind, http, Failure, Served}
use kh_common.Auth.Middleware
use kh_common.Cors
use kh_common.Cors.{Settings, Url, Reaction}
use kh_common.Exceptions.Response.{ErrorResponse}

-- The arguments of `ServerApp`, and whether the environment is the local one.
pub record Config : Type 0 where
  pub auth : Bool
  pub auth_required : Bool
  pub cors : Bool
  pub max_age : Text
  pub custom_headers : Bool
  pub allowed_hosts : List Text
  pub allowed_origins : List Text
  pub allowed_methods : List Text
  pub allowed_headers : List Text
  pub exposed_headers : List Text
  pub is_local : Bool

-- The default values of the arguments.
abbrev pub defaults : Bool → Config
defaults is_local = record {
  auth = true;
  auth_required = true;
  cors = true;
  max_age = codes "86400";
  custom_headers = true;
  allowed_hosts = codes "localhost" ∷ codes "127.0.0.1" ∷ codes "*.fuzz.ly" ∷ codes "fuzz.ly" ∷ [];
  allowed_origins =
      codes "localhost" ∷ codes "127.0.0.1" ∷ codes "dev.fuzz.ly" ∷ codes "fuzz.ly" ∷ [];
  allowed_methods = codes "GET" ∷ codes "POST" ∷ [];
  allowed_headers =
      codes "accept"
      ∷ codes "accept-language"
      ∷ codes "authorization"
      ∷ codes "cache-control"
      ∷ codes "content-encoding"
      ∷ codes "content-language"
      ∷ codes "content-length"
      ∷ codes "content-security-policy"
      ∷ codes "content-type"
      ∷ codes "cookie"
      ∷ codes "host"
      ∷ codes "location"
      ∷ codes "referer"
      ∷ codes "referrer-policy"
      ∷ codes "set-cookie"
      ∷ codes "user-agent"
      ∷ codes "www-authenticate"
      ∷ codes "x-frame-options"
      ∷ codes "x-xss-protection"
      ∷ [];
  exposed_headers =
      codes "authorization"
      ∷ codes "cache-control"
      ∷ codes "content-type"
      ∷ codes "cookie"
      ∷ codes "set-cookie"
      ∷ codes "www-authenticate"
      ∷ [];
  is_local = is_local;
}

pub record Response : Type 0 where
  pub status : ℕ
  pub headers : Dict Text Text

-- What a request says to the middlewares, and `scope['user']`.
pub record Request (Json : Type 0) : Type 0 where
  pub kind : Kind
  pub path : Text
  pub method : Text
  pub host : Text
  pub origin : Option Text
  pub requested_method : Option Text
  pub authorization : Option Text
  pub cookie : Option Text
  pub user : Option (User Json)

-- The middlewares that `ServerApp` adds.
pub data Layer : Type 0 where
  exception_layer : Layer
  header_layer : Layer
  cors_layer : Settings → Layer
  host_layer : List Text → Layer
  auth_layer : Bool → Layer

-- An application, and a middleware around one.
abbrev pub App : Type 0 → Type 0
App Json = Request Json → Outcome Failure Response

abbrev pub error_of : ErrorResponse → Response
error_of e = record { status = e.status_code; headers = [] }

abbrev pub is_http : Kind → Bool
is_http http = true
is_http _ = false

-- What the code here does not define: the services that a token is verified with, which are those of
-- Auth/Token/Cached, and the calls of `verifyToken` so far; `urlparse` and `str.upper`,
-- `uuid4()`, the current commit, and starlette's `ExceptionMiddleware` and `TrustedHostMiddleware`.
pub record Platform : Type 1 where
  pub services : Services
  pub metadata : ℕ → Text → Outcome AuthError TokenMetadata
  pub history : List (Event AuthError Text (Token services metadata))
  pub is_space : ℕ → Bool
  pub scope_names : services.Json → List Text
  pub urlparse : Text → Url
  pub upper : Text → Text
  pub fresh : Text
  pub short_hash : Text
  pub now : ℕ
  pub handle_exceptions : App services.Json → App services.Json
  pub check_host : List Text → App services.Json → App services.Json

module _ (platform : Platform) where
  open platform use {services, metadata, history, is_space, scope_names, urlparse, fresh}

  abbrev pub Json : Type 0
  Json = services.Json

  -- `verifyToken`, as it is decorated
  abbrev pub verify : ℕ → Text → Outcome AuthError (AuthToken Json)
  verify = cached_verify services metadata history

  -- `HeadersToSet`
  abbrev pub headers_to_set : Dict Text Text
  headers_to_set = (codes "kh-hash", platform.short_hash) ∷ []

  -- `response.headers.update(HeadersToSet)`
  unfoldable pub set_headers : Outcome Failure Response → Outcome Failure Response
  set_headers (returned r) =
      returned (record r { headers = Dict.update Text-discrete r.headers headers_to_set })
  set_headers (raised e) = raised e

  -- The request as `KhCorsMiddleware` reads it.
  abbrev pub cors_request : Request Json → Cors.Request
  cors_request r = record {
    is_http = is_http r.kind;
    method = r.method;
    origin = r.origin;
    requested_method = r.requested_method;
  }

  -- The messages of the application go through `send` where the request is forwarded with an origin.
  unfoldable pub answer_origin :
      Settings → Option Text → Outcome Failure Response → Outcome Failure Response
  answer_origin settings none o = o
  answer_origin settings (some origin) (returned r) =
      returned (record r { headers = Cors.send settings origin true r.headers })
  answer_origin settings (some origin) (raised e) = raised e

  unfoldable pub react : Settings → Reaction → Outcome Failure Response → Outcome Failure Response
  unfolding answer_origin
  react settings (Reaction.refused e) o = returned (error_of e)
  react settings (Reaction.preflight headers) o =
      returned (record { status = 204; headers = headers })
  react settings (Reaction.forwarded origin) o = answer_origin settings origin o

  unfoldable pub authorize :
      App Json → Request Json → Outcome Failure (Served Json) → Outcome Failure Response
  authorize next r (raised e) = raised e
  authorize next r (returned (Served.refused e)) = returned (error_of e)
  authorize next r (returned (Served.passed none)) = next r
  authorize next r (returned (Served.passed (some user))) = next (record r { user = some user })

  -- One middleware around an application.
  unfoldable pub run : Layer → App Json → App Json
  unfolding react authorize set_headers
  run exception_layer next = platform.handle_exceptions next
  run header_layer next = λ r. set_headers (next r)
  run (cors_layer settings) next =
      λ r. react settings (Cors.handle urlparse fresh settings (cors_request r)) (next r)
  run (host_layer hosts) next = platform.check_host hosts next
  run (auth_layer required) next = λ r. authorize next r (
      Middleware.handle verify is_space scope_names fresh required platform.now r.kind r.path
        r.authorization r.cookie)

  abbrev pub allowed_protocols : Config → List Text
  allowed_protocols config =
      if config.is_local then codes "http" ∷ codes "https" ∷ [] else codes "https" ∷ []

  -- `exposed_headers`, with the names of the custom headers where these are set
  abbrev pub exposed : Config → List Text
  exposed config =
      if config.custom_headers
      then config.exposed_headers ++ map (λ e. e.0) headers_to_set
      else config.exposed_headers

  unfoldable pub cors_settings : Config → Settings
  cors_settings config =
      Cors.init platform.upper config.allowed_origins (allowed_protocols config)
        config.allowed_headers config.allowed_methods true (exposed config) config.max_age

  -- `if allowed_hosts:`
  abbrev pub add_hosts : (Layer → App Json → App Json) → List Text → App Json → App Json
  add_hosts add [] app = app
  add_hosts add (h ∷ hosts) app = add (host_layer (h ∷ hosts)) app

  -- The middlewares up to the hosts. `add` is `app.add_middleware`.
  unfoldable pub inner_app : (Layer → App Json → App Json) → Config → App Json → App Json
  unfolding cors_settings
  inner_app add config app =
      let with_exceptions = add exception_layer app in
      let with_headers =
        (if config.custom_headers then add header_layer with_exceptions else with_exceptions) in
      let with_cors =
        (if config.cors
          then add (cors_layer (cors_settings config)) with_headers
          else with_headers) in
      add_hosts add config.allowed_hosts with_cors

  unfoldable pub server_app : (Layer → App Json → App Json) → Config → App Json → App Json
  unfolding inner_app
  server_app add config app =
      let inner = inner_app add config app in
      if config.auth then add (auth_layer config.auth_required) inner else inner
