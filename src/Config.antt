-- ===== src/Config.antt =====
-- kh_common/config/constants.py: the environment that the process runs in, and its hosts. The
-- process's variables are a parameter.
use kh_common.Prelude.{◌≡◌, refl, Option, none, some, List, [], ◌∷◌, map, Bool, true, false}
use kh_common.Prelude.Outcome.{Outcome, returned, raised}
use kh_common.Prelude.Dict.{Dict}
use kh_common.Prelude.Text.{Text, codes, lower}
use kh_common.Auth.Token.{same_text}

pub data Environment : Type 0 where
  local dev prod test : Environment

pub data ConfigError : Type 0 where
  key_error : ConfigError

-- The name of a member.
abbrev pub name_of : Environment → Text
name_of local = codes "local"
name_of dev = codes "dev"
name_of prod = codes "prod"
name_of test = codes "test"

-- The members in the order of their definition.
abbrev pub members : List Environment
members = local ∷ dev ∷ prod ∷ test ∷ []

-- `Environment[name]`
unfoldable pub find_member : Text → List Environment → Outcome ConfigError Environment
find_member name [] = raised key_error
find_member name (e ∷ es) = elim (same_text name (name_of e)) [
  | true ↦ returned e
  | false ↦ find_member name es
]

-- `environ.get('ENVIRONMENT', 'LOCAL')`
abbrev pub or_local : Option Text → Text
or_local none = codes "LOCAL"
or_local (some name) = name

-- `environment`
unfoldable pub environment : Option Text → Outcome ConfigError Environment
unfolding find_member lower
environment variable = find_member (lower (or_local variable)) members

abbrev pub is_local : Environment → Bool
is_local local = true
is_local e = false

abbrev pub is_dev : Environment → Bool
is_dev dev = true
is_dev e = false

abbrev pub is_prod : Environment → Bool
is_prod prod = true
is_prod e = false

abbrev pub is_test : Environment → Bool
is_test test = true
is_test e = false

-- `env_vars`, which become variables of the module
abbrev pub hosts : Environment → Dict Text Text
hosts test =
    (codes "auth_host", codes "http://127.0.0.1:5000")
    ∷ (codes "upload_host", codes "http://localhost:5001")
    ∷ (codes "tags_host", codes "http://localhost:5002")
    ∷ (codes "posts_host", codes "http://localhost:5003")
    ∷ (codes "account_host", codes "http://localhost:5004")
    ∷ (codes "users_host", codes "http://localhost:5005")
    ∷ (codes "config_host", codes "http://localhost:5006")
    ∷ (codes "avro_host", codes "http://localhost:5007")
    ∷ []
hosts local =
    (codes "auth_host", codes "http://127.0.0.1:5000")
    ∷ (codes "upload_host", codes "http://localhost:5001")
    ∷ (codes "tags_host", codes "http://localhost:5002")
    ∷ (codes "posts_host", codes "http://localhost:5003")
    ∷ (codes "account_host", codes "http://localhost:5004")
    ∷ (codes "users_host", codes "http://localhost:5005")
    ∷ (codes "config_host", codes "http://localhost:5006")
    ∷ (codes "avro_host", codes "http://localhost:5007")
    ∷ []
hosts dev =
    (codes "auth_host", codes "https://auth-dev.fuzz.ly")
    ∷ (codes "upload_host", codes "https://upload-dev.fuzz.ly")
    ∷ (codes "tags_host", codes "https://tags-dev.fuzz.ly")
    ∷ (codes "posts_host", codes "https://posts-dev.fuzz.ly")
    ∷ (codes "account_host", codes "https://account-dev.fuzz.ly")
    ∷ (codes "users_host", codes "https://users-dev.fuzz.ly")
    ∷ (codes "config_host", codes "https://config-dev.fuzz.ly")
    ∷ (codes "avro_host", codes "https://avro-dev.fuzz.ly")
    ∷ []
hosts prod =
    (codes "auth_host", codes "https://auth.fuzz.ly")
    ∷ (codes "upload_host", codes "https://upload.fuzz.ly")
    ∷ (codes "tags_host", codes "https://tags.fuzz.ly")
    ∷ (codes "posts_host", codes "https://posts.fuzz.ly")
    ∷ (codes "account_host", codes "https://account.fuzz.ly")
    ∷ (codes "users_host", codes "https://users.fuzz.ly")
    ∷ (codes "config_host", codes "https://config.fuzz.ly")
    ∷ (codes "avro_host", codes "https://avro.fuzz.ly")
    ∷ []

abbrev keys : Environment → List Text
keys e = map (λ h. h.0) (hosts e)

-- The module's assertion: the hosts have the same names in every environment.
pub keys-test : (e : Environment) → keys e ≡ keys test
keys-test local = refl
keys-test dev = refl
keys-test prod = refl
keys-test test = refl
