-- ===== src/Tests/Tokens.antt =====
-- kh_common/auth/__init__.py and kh_common/models/auth.py at concrete inputs.
use kh_common.Prelude.{
  ℕ_discrete, none, some, ◌++◌, ℕ, ◌+◌, ◌≤◌, arith, ◌≡◌, ◌⊎◌, refl, List, [], ◌∷◌, Bool, true, ◌==◌,
  if◌then◌else◌,
}
use kh_common.Prelude.Outcome.{Outcome, returned}
use kh_common.Prelude.Dict
use kh_common.Caching.Expiry.{clear_cache}
use kh_common.Caching.Overlap.{Event, start, finish, take_out, found, resume, step, final}
use kh_common.Auth.Token.Cached.{
  services_at, cached_verify, IsHistory, IsRecent, verify_step-IsAccepted,
}
use kh_common.Auth.Recent.{verify_scope-IsRecent, IsKnownSince, handle-IsRecent}
use kh_common.Prelude.Text.{Text, Text-discrete, codes}
use kh_common.Auth.Scope.{user, Scope-discrete, mod_, has_scope}
use kh_common.Auth.Token.{
  AuthError, TokenMetadata, active, Services, AuthToken, verify_token, b64decode, v1token,
  read_token, read_fields, same_text, check_load, check_signature, check_metadata,
}
use kh_common.Auth.User.{retrieve_auth_token, User, authenticated, verify_scope}
use kh_common.Auth.Middleware.{http, handle, identify, IsAnonymous}
use kh_common.Auth.Token.Accepted.{IsAccepted, verify_token-IsAccepted}
use kh_common.Auth.Parse.{cut_first, cut_last, split_at_most, after_first, before_first}

-- The text up to its padding.
abbrev plain : Text → Text
plain [] = []
plain (c ∷ text) = if c == b'=' then [] else c ∷ plain text

abbrev pub services : Services
services = record {
  Key = Text;
  Json = Text;
  urlsafe_b64decode = λ text. returned (plain text);
  uuid = λ text. returned text;
  fetch_public_key = λ key_id algorithm. returned algorithm;
  verify = λ key signature content. true;
  get_metadata = λ guid.
      returned (record { state = active; key_id = b'K'; algorithm = codes "ed"; expires = b'E' });
  loads = λ text. returned text;
}

abbrev pub text : Text
text = codes "1.ed.K.E.U.G.data.signature"

abbrev token : AuthToken Text
token = record {
  user_id = b'U';
  expires = b'E';
  guid = codes "G";
  content = codes "data";
  token_string = text;
}

verify_token-IsAccepted_example : IsAccepted services 50 text token
unfolding verify_token v1token Text-discrete cut_last cut_first before_first b64decode ℕ_discrete
    read_token read_fields split_at_most after_first check_load check_signature check_metadata
verify_token-IsAccepted_example = verify_token-IsAccepted services 50 text token refl

abbrev pub is_space : ℕ → Bool
is_space c = c == b' '

abbrev same_text_token : AuthToken Text → AuthToken Text → Bool
same_text_token a b = same_text a.token_string b.token_string

abbrev known : User Text
known = record { user_id = some b'U'; token = some token; scope = user ∷ mod_ ∷ [] }

abbrev pub no_names : Text → List Text
no_names t = codes "mod" ∷ []

abbrev pub metadata : ℕ → Text → Outcome AuthError TokenMetadata
metadata t = services.get_metadata

abbrev pub verifications : List (Event AuthError Text (AuthToken Text))
verifications = start text 48 ∷ finish text 50 (returned token) ∷ []

pub verifications-IsHistory : IsHistory services metadata verifications 75
unfolding verify_token v1token Text-discrete cut_last cut_first before_first b64decode ℕ_discrete
    read_token read_fields split_at_most after_first check_load check_signature check_metadata final
    step found resume take_out Dict.get Dict.set clear_cache
verifications-IsHistory =
    (ground arith, ground arith, (refl, (tt, tt)), ((49, omega arith, refl), tt))

verify_step-IsAccepted_example :
    (t : ℕ) × (done : ℕ) × (t ≤ done)
    × (75 ≤ done + 30)
    × IsAccepted (services_at services metadata t) t text token
unfolding Text-discrete ℕ_discrete final step found resume take_out Dict.get Dict.set clear_cache
verify_step-IsAccepted_example =
    verify_step-IsAccepted services metadata verifications text 75 token verifications-IsHistory.0
      verifications-IsHistory.1 verifications-IsHistory.2 verifications-IsHistory.3 refl

verify_scope-IsRecent_example :
    (true ≡ true)
    × (has_scope mod_ known.scope ≡ true)
    × ((t : AuthToken Text) × (fresh : AuthToken Text) × (known.token ≡ some t)
        × IsRecent services metadata 75 t.token_string fresh
        × (same_text_token t fresh ≡ true))
unfolding verify_scope authenticated has_scope Scope-discrete Text-discrete ℕ_discrete final step
    found resume take_out Dict.get Dict.set clear_cache
verify_scope-IsRecent_example =
    verify_scope-IsRecent services metadata verifications same_text_token 75 known mod_ true
      verifications-IsHistory refl

handle-IsRecent_example :
    IsAnonymous
      (cached_verify services metadata verifications)
      is_space
      no_names
      (codes "id")
      true
      (identify
        (cached_verify services metadata verifications)
        is_space
        no_names
        (codes "id")
        75
        (some (codes "Bearer " ++ text))
        none)
      known
    ⊎ IsKnownSince services metadata verifications is_space no_names (codes "id") 75 known
unfolding handle identify retrieve_auth_token Text-discrete ℕ_discrete final step found resume
    take_out Dict.get Dict.set clear_cache
handle-IsRecent_example =
    handle-IsRecent services metadata verifications is_space no_names (codes "id") true 75 http
      (codes "/posts") (some (codes "Bearer " ++ text)) none known verifications-IsHistory refl
