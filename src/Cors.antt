-- ===== src/Cors.antt =====
-- `KhCorsMiddleware` of kh_common/server/middleware/cors.py. `urlparse`, `str.upper` and the request's
-- headers are parameters.
pub mod Allowed
use kh_common.Prelude.{
  ℕ, ◌≡◌, Option, none, some, List, [], ◌∷◌, ◌++◌, map, Bool, true, false, ◌&&◌, ◌||◌, not,
  if◌then◌else◌,
}
use kh_common.Prelude.Dict
use kh_common.Prelude.Dict.{Dict}
use kh_common.Prelude.Text.{Text, Text-discrete, codes, join_text}
use kh_common.Auth.Parse.{cut_first}
use kh_common.Exceptions
use kh_common.Exceptions.{Class, Exception, class_status, http_mro}
use kh_common.Exceptions.Response.{ErrorResponse, json_error_handler}

pub record Settings : Type 0 where
  pub allowed_origins : List Text
  pub allowed_protocols : List Text
  pub allowed_headers : Text
  pub allowed_methods : Text
  pub allow_credentials : Text
  pub exposed_headers : Text
  pub max_age : Text

-- `str(b).lower()`
abbrev pub bool_text : Bool → Text
bool_text true = codes "true"
bool_text false = codes "false"

-- `__init__`; `upper` is `str.upper`, and `max_age` is already a text.
unfoldable pub init :
    (Text → Text)
    → List Text
    → List Text
    → List Text
    → List Text
    → Bool
    → List Text
    → Text
    → Settings
unfolding join_text
init upper origins protocols headers methods credentials exposed max_age = record {
  allowed_origins = origins;
  allowed_protocols = protocols;
  allowed_headers =
      join_text (codes ", ")
        (headers ++ codes "access-control-request-method" ∷ codes "origin" ∷ []);
  allowed_methods = join_text (codes ", ") (map upper methods);
  allow_credentials = bool_text credentials;
  exposed_headers = join_text (codes ", ") exposed;
  max_age = max_age;
}

-- What `urlparse` gives.
pub record Url : Type 0 where
  pub scheme : Text
  pub netloc : Text
  pub geturl : Text

pub record Request : Type 0 where
  pub is_http : Bool
  pub method : Text
  pub origin : Option Text
  pub requested_method : Option Text

-- What becomes of a request: the error response, the 204 response with these headers, or a call of
-- the application, with its messages sent on as they are or by `send` for this origin.
pub data Reaction : Type 0 where
  refused : ErrorResponse → Reaction
  preflight : Dict Text Text → Reaction
  forwarded : Option Text → Reaction

unfoldable pub is_in : Text → List Text → Bool
is_in t [] = false
is_in t (u ∷ us) = elim (Text-discrete u t) [ yes p ↦ true | no p ↦ is_in t us ]

-- `netloc.split(':')[0]`
unfoldable pub host : Text → Text
host netloc = elim (cut_first b':' netloc) [ none ↦ netloc | some (a, b) ↦ a ]

-- The headers of both responses.
unfoldable pub cors_headers : Settings → Text → Dict Text Text
cors_headers settings origin =
    (codes "access-control-allow-origin", origin)
    ∷ (codes "access-control-allow-methods", settings.allowed_methods)
    ∷ (codes "access-control-allow-headers", settings.allowed_headers)
    ∷ (codes "access-control-allow-credentials", settings.allow_credentials)
    ∷ (codes "access-control-max-age", settings.max_age)
    ∷ (codes "access-control-expose-headers", settings.exposed_headers)
    ∷ []

unfoldable pub is_allowed : Settings → Url → Bool
unfolding is_in host
is_allowed settings url =
    is_in url.scheme settings.allowed_protocols && is_in (host url.netloc) settings.allowed_origins

abbrev pub is_preflight : Request → Bool
is_preflight request =
    is_in request.method (codes "OPTIONS" ∷ [])
    && (elim request.requested_method [ none ↦ false | some m ↦ true ])

-- `BadRequest('Origin not allowed.')`
abbrev pub not_allowed : Exception Text
not_allowed = record {
  class_name = codes "BadRequest";
  mro = http_mro Class.bad_request;
  message = codes "Origin not allowed.";
  status = class_status Class.bad_request;
  refid = none;
  logdata = [];
}

module _ (urlparse : Text → Url) (fresh : Text) (settings : Settings) where
  -- A request with an origin.
  unfoldable pub handle_origin : Request → Text → Reaction
  unfolding cors_headers
  handle_origin request origin =
      if not (is_allowed settings (urlparse origin))
      then refused (json_error_handler fresh not_allowed)
      else if is_preflight request
      then preflight (cors_headers settings (urlparse origin).geturl)
      else forwarded (some origin)

  unfoldable pub with_origin : Request → Option Text → Reaction
  unfolding handle_origin
  with_origin request none = forwarded none
  with_origin request (some origin) = handle_origin request origin

  -- `__call__`
  unfoldable pub handle : Request → Reaction
  unfolding with_origin
  handle request = if request.is_http then with_origin request request.origin else forwarded none

-- `send`: only the message that starts a response is changed.
unfoldable pub send : Settings → Text → Bool → Dict Text Text → Dict Text Text
unfolding cors_headers
send settings origin true headers = Dict.update Text-discrete headers (cors_headers settings origin)
send settings origin false headers = headers
