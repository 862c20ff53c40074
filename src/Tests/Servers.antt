-- ===== src/Tests/Servers.antt =====
-- kh_common/server/__init__.py at concrete inputs.
use kh_common.Prelude.{◌≡◌, ◌≢◌, refl, Option, none, some, [], ◌++◌, true, ℕ_discrete}
use kh_common.Prelude.Outcome.{Outcome, returned, raised}
use kh_common.Prelude.Text.{Text, Text-discrete, codes}
use kh_common.Auth.Token.{forbidden}
use kh_common.Prelude.Dict
use kh_common.Caching.Expiry.{clear_cache}
use kh_common.Caching.Overlap.{take_out, found, resume, step, final}
use kh_common.Auth.User.{User, first_set, retrieve_auth_token}
use kh_common.Auth.Middleware.{http, Failure, identify}
use kh_common.Server.{Config, defaults, Request, Response, Layer, App, Platform, run, server_app}
use kh_common.Server.Admitted.{IsFramework, IsIdentified, server_app-agree}
use kh_common.Server.Preflight.{server_app_preflight}
use kh_common.Tests.Tokens.{
  services, text, is_space, no_names, metadata, verifications, verifications-IsHistory,
}
use kh_common.Auth.Token.Cached.{cached_verify}

abbrev platform : Platform
platform = record {
  services = services;
  metadata = metadata;
  history = verifications;
  is_space = is_space;
  scope_names = no_names;
  urlparse = λ t. record { scheme = codes "https"; netloc = t; geturl = t };
  upper = λ t. t;
  fresh = codes "id";
  short_hash = codes "abc";
  now = 75;
  handle_exceptions = λ app. app;
  check_host = λ hosts app. app;
}

abbrev add : Layer → App Text → App Text
add l f = run platform l f

add-IsFramework : IsFramework platform add
add-IsFramework = record {
  wraps = λ l f. refl;
  exceptions_agree = λ f g r h. h;
  hosts_agree = λ hosts f g r h. h;
}

abbrev config : Config
config = defaults true

abbrev page : Response
page = record { status = 200; headers = [] }

abbrev open_app : App Text
open_app r = returned page

abbrev page_for : Option (User Text) → Outcome Failure Response
page_for none = returned (record { status = 500; headers = [] })
page_for (some user) = returned page

-- An application that fails for a request without a user.
abbrev careful_app : App Text
careful_app r = page_for r.user

abbrev request : Request Text
request = record {
  kind = http;
  path = codes "/posts";
  method = codes "GET";
  host = codes "fuzz.ly";
  origin = some (codes "evil.com");
  requested_method = none;
  authorization = some (codes "Bearer " ++ text);
  cookie = none;
  user = none;
}

request-allowed :
    (m : Text)
    → identify
        (cached_verify services metadata verifications)
        is_space
        no_names
        (codes "id")
        75
        request.authorization
        none
      ≢ raised (forbidden m)
unfolding identify retrieve_auth_token Text-discrete ℕ_discrete final step found resume take_out
    Dict.get Dict.set clear_cache
request-allowed m h = cc

apps-agree : (q : Request Text) → IsIdentified platform q → open_app q ≡ careful_app q
apps-agree q (user, e, known) = rw e refl

server_app-agree_example :
    server_app platform add config open_app request
    ≡ server_app platform add config careful_app request
unfolding Text-discrete ℕ_discrete
server_app-agree_example =
    server_app-agree platform add add-IsFramework config open_app careful_app request refl refl refl
      refl refl request-allowed verifications-IsHistory (λ q known from. apps-agree q known)

abbrev preflight : Request Text
preflight = record {
  kind = http;
  path = codes "/posts";
  method = codes "OPTIONS";
  host = codes "fuzz.ly";
  origin = some (codes "fuzz.ly");
  requested_method = some (codes "GET");
  authorization = none;
  cookie = none;
  user = none;
}

server_app_preflight_example :
    server_app platform add config open_app preflight
    ≡ returned (record { status = 401; headers = [] })
unfolding Text-discrete ℕ_discrete first_set
server_app_preflight_example =
    server_app_preflight platform add add-IsFramework config open_app preflight refl refl refl refl
      refl
