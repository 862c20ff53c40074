-- ===== src/Auth/Key.antt =====
-- `_fetchPublicKey` and `browserFingerprint` of kh_common/auth/__init__.py. The request, the loading
-- of a key, the check of a signature, JSON, SHA-1 and base64 are parameters; so is the pattern that
-- takes the versions out of a user agent.
use kh_common.Prelude.{
  ℕ, ◌≤◌, ◌≡◌, refl, sym, ap, ◌∙◌, Option, none, some, List, [], ◌∷◌, ◌++◌, Bool, true, false, ltb,
  not, arith,
}
use kh_common.Prelude.Outcome.{Outcome, returned, ◌>>=◌, ◌>>◌, >>=-eq-returned}
use kh_common.Prelude.Dict.{Dict}
use kh_common.Prelude.Text.{Text, codes}
use kh_common.Auth.Parse.{cut_first}
use kh_common.Auth.Token.{AuthError, unauthorized, service_error, guard}

-- The fields of `PublicKeyResponse` that are read here.
pub record PublicKeyResponse : Type 0 where
  pub key : Text
  pub signature : Text
  pub expires : ℕ

pub record KeyServices : Type 1 where
  pub Key : Type 0
  pub request : ℕ → Text → Outcome AuthError PublicKeyResponse
  pub b64decode : Text → Outcome AuthError Text
  pub load_der_public_key : Text → Outcome AuthError Key
  pub verify : Key → Text → Text → Bool

module _ (services : KeyServices) where
  open services use {Key, request, b64decode, load_der_public_key, verify}

  -- `_fetchPublicKey` without its cache. `verify` raises an error that is no `HttpError`.
  unfoldable pub fetch_public_key : ℕ → ℕ → Text → Outcome AuthError Key
  fetch_public_key now key_id algorithm = do
    load ← request key_id algorithm
    guard (not (ltb load.expires now)) (unauthorized (codes "Key has expired."))
    key ← b64decode load.key
    public_key ← load_der_public_key key
    signature ← b64decode load.signature
    guard (verify public_key signature key) (service_error 0)
    returned public_key

  -- What was checked of a key before it is used.
  pub record IsChecked (now key_id : ℕ) (algorithm : Text) (public_key : Key) : Type 0 where
    pub load : PublicKeyResponse
    pub key : Text
    pub signature : Text
    pub answered : request key_id algorithm ≡ returned load
    pub valid : now ≤ load.expires
    pub decoded : b64decode load.key ≡ returned key
    pub loaded : load_der_public_key key ≡ returned public_key
    pub signed : b64decode load.signature ≡ returned signature
    pub verified : verify public_key signature key ≡ true

  guard-true :
      {A : Type 0} (b : Bool) (e : AuthError) (o : Outcome AuthError A) (a : A)
      → (guard b e >> o) ≡ returned a
      → (b ≡ true) × (o ≡ returned a)
  guard-true true e o a h = (refl, h)
  guard-true false e o a h = cc

  -- A key that is returned has not expired, and has signed itself.
  pub fetch_public_key-IsChecked :
      (now key_id : ℕ) (algorithm : Text) (public_key : Key)
      → fetch_public_key now key_id algorithm ≡ returned public_key
      → IsChecked now key_id algorithm public_key
  unfolding fetch_public_key
  fetch_public_key-IsChecked now key_id algorithm public_key h =
      let (load, e1, h1) = >>=-eq-returned (request key_id algorithm) _ h in
      let (live, h2) = guard-true (not (ltb load.expires now)) _ _ _ h1 in
      let (key, e2, h3) = >>=-eq-returned (b64decode load.key) _ h2 in
      let (k, e3, h4) = >>=-eq-returned (load_der_public_key key) _ h3 in
      let (signature, e4, h5) = >>=-eq-returned (b64decode load.signature) _ h4 in
      let (ok, h6) = guard-true (verify k signature key) _ _ _ h5 in
      let same : k ≡ public_key = cc in
      record {
        load = load;
        key = key;
        signature = signature;
        answered = e1;
        valid = ground arith;
        decoded = e2;
        loaded = e3 ∙ ap returned same;
        signed = e4;
        verified = ap (λ x. verify x signature key) (sym same) ∙ ok;
      }

-- The headers that are read for a fingerprint, in order.
abbrev pub fingerprint_headers : List Text
fingerprint_headers =
    codes "connection"
    ∷ codes "host"
    ∷ codes "accept-language"
    ∷ codes "dnt"
    ∷ codes "pragma"
    ∷ codes "cache-control"
    ∷ codes "cdn-loop"
    ∷ []

-- `userAgentStrip`. `strip_versions` is `ua_strip.sub('', …)`.
unfoldable pub user_agent_strip : (Text → Text) → Option Text → Option Text
user_agent_strip strip_versions none = none
user_agent_strip strip_versions (some []) = none
user_agent_strip strip_versions (some (c ∷ ua)) = elim (cut_first b'/' (c ∷ ua)) [
  | none ↦ some (c ∷ ua ++ strip_versions [])
  | some (name, rest) ↦ some (name ++ (b'/' ∷ strip_versions rest))
]

unfoldable pub read_headers : (Text → Option Text) → List Text → Dict Text (Option Text)
read_headers headers [] = []
read_headers headers (name ∷ names) = (name, headers name) ∷ read_headers headers names

-- `browserFingerprint`; `digest` is the rest of it, from `json.dumps` on.
unfoldable pub browser_fingerprint :
    (Text → Text) → (Dict Text (Option Text) → Text) → (Text → Option Text) → Text
unfolding user_agent_strip read_headers
browser_fingerprint strip_versions digest headers = digest (
    (codes "user-agent", user_agent_strip strip_versions (headers (codes "user-agent")))
    ∷ read_headers headers fingerprint_headers)
