-- ===== src/Auth/Token.antt =====
-- `v1token` and `verifyToken` of kh_common/auth/__init__.py, without the caches of `_fetchPublicKey`
-- and `verifyToken`; the latter is put around it in Cached. `decode()` of the algorithm's bytes is
-- the identity here.
pub mod Accepted
pub mod Cached
use kh_common.Prelude.{
  not, ℕ, zero, suc, ◌≤◌, Option, none, some, List, [], ◌∷◌, Bool, true, false, ◌==◌, ltb,
  if◌then◌else◌, ℕ_discrete,
}
use kh_common.Prelude.Outcome.{Outcome, returned, raised, ◌>>=◌, ◌>>◌}
use kh_common.Prelude.Text.{Text, Text-discrete, codes, is_set}
use kh_common.Auth.Parse.{
  cut_last, split_at_most, after_first, before_first, int_from_bytes, padded,
}

-- `Unauthorized`, `Forbidden`, `InvalidToken`, the ValueError of an unpacking, the IndexError of an
-- empty split, the KeyError of an unknown scope, the RecordNotFound of the store, and what else a
-- service raises, which is no `HttpError`.
pub data AuthError : Type 0 where
  unauthorized forbidden : Text → AuthError
  invalid_token : Text → AuthError
  value_error index_error key_error record_not_found : AuthError
  service_error : ℕ → AuthError

pub data AuthState : Type 0 where
  active inactive : AuthState

-- The fields of `TokenMetadata` that are read here.
pub record TokenMetadata : Type 0 where
  pub state : AuthState
  pub key_id : ℕ
  pub algorithm : Text
  pub expires : ℕ

-- What the module calls: the base64 decoder of the standard library, `UUID(bytes=…)`, the request for
-- a public key, the check of an ed25519 signature, the token store, and the JSON reader.
pub record Services : Type 1 where
  pub Key : Type 0
  pub Json : Type 0
  pub urlsafe_b64decode : Text → Outcome AuthError Text
  pub uuid : Text → Outcome AuthError Text
  pub fetch_public_key : ℕ → Text → Outcome AuthError Key
  pub verify : Key → Text → Text → Bool
  pub get_metadata : Text → Outcome AuthError TokenMetadata
  pub loads : Text → Outcome AuthError Json

pub record AuthToken (Json : Type 0) : Type 0 where
  pub user_id : ℕ
  pub expires : ℕ
  pub guid : Text
  pub content : Json
  pub token_string : Text

-- The six fields of a token's load, decoded.
pub record Load : Type 0 where
  pub algorithm : Text
  pub key_id : ℕ
  pub expires : ℕ
  pub user_id : ℕ
  pub guid : Text
  pub content : Text

abbrev pub guard : Bool → AuthError → Outcome AuthError (Unit {0})
guard true e = returned tt
guard false e = raised e

abbrev pub same_text : Text → Text → Bool
same_text s t = elim (Text-discrete s t) [ yes p ↦ true | no p ↦ false ]

abbrev pub is_active : AuthState → Bool
is_active active = true
is_active inactive = false

module _ (services : Services) where
  open services use {
    Key, Json, urlsafe_b64decode, uuid, fetch_public_key, verify, get_metadata, loads,
  }

  -- `b64decode` of kh_common/base64.py
  unfoldable pub b64decode : Text → Outcome AuthError Text
  unfolding padded
  b64decode text = urlsafe_b64decode (padded text)

  -- The unpacking of `load.split(b'.', 5)`, and the decoding of its fields in the source's order.
  unfoldable pub read_fields : List Text → Outcome AuthError Load
  unfolding b64decode int_from_bytes
  read_fields (algorithm ∷ key_id ∷ expires ∷ user_id ∷ guid ∷ rest ∷ []) = do
    k ← b64decode key_id
    e ← b64decode expires
    u ← b64decode user_id
    g ← b64decode guid
    id ← uuid g
    returned (record {
      algorithm = algorithm;
      key_id = int_from_bytes 0 k;
      expires = int_from_bytes 0 e;
      user_id = int_from_bytes 0 u;
      guid = id;
      content = rest;
    })
  read_fields _ = raised value_error

  -- The signature is decoded inside the `try`, so every failure there is the same error.
  unfoldable pub check_signature : Key → Text → Text → Outcome AuthError (Unit {0})
  check_signature key signature content = elim (b64decode signature) [
    | raised e ↦ raised (unauthorized (codes "Key validation failed."))
    | returned s ↦ guard (verify key s content) (unauthorized (codes "Key validation failed."))
  ]

  -- The four asserts, whose messages become those of `Unauthorized`.
  unfoldable pub check_metadata : TokenMetadata → Load → Outcome AuthError (Unit {0})
  check_metadata info load = do
    guard (is_active info.state) (unauthorized (codes "This token is no longer active."))
    guard (same_text info.algorithm load.algorithm)
        (unauthorized (codes "Token algorithm mismatch."))
    guard (info.expires == load.expires) (unauthorized (codes "Token expiration mismatch."))
    guard (info.key_id == load.key_id) (unauthorized (codes "Token encryption key mismatch."))

  -- Everything after the load has been read.
  unfoldable pub check_load : ℕ → Text → Text → Text → Load → Outcome AuthError (AuthToken Json)
  check_load now token content signature load = do
    guard (ltb 0 load.key_id) (unauthorized (codes "Key is invalid."))
    guard (not (ltb load.expires now)) (unauthorized (codes "Key has expired."))
    key ← fetch_public_key load.key_id load.algorithm
    check_signature key signature content
    info ← get_metadata load.guid
    check_metadata info load
    json ← loads load.content
    returned (record {
      user_id = load.user_id;
      expires = load.expires;
      guid = load.guid;
      content = json;
      token_string = token;
    })

  unfoldable pub read_token : ℕ → Text → Text × Text → Outcome AuthError (AuthToken Json)
  read_token now token (content, signature) = do
    load ← b64decode (after_first b'.' content)
    fields ← read_fields (split_at_most 5 b'.' load)
    check_load now token content signature fields

  -- `now` is the time that the comparison with the expiration reads.
  unfoldable pub v1token : ℕ → Text → Outcome AuthError (AuthToken Json)
  v1token now token = elim (cut_last b'.' token) [
    | none ↦ raised value_error
    | some p ↦ read_token now token p
  ]

  unfoldable pub verify_token : ℕ → Text → Outcome AuthError (AuthToken Json)
  verify_token now token = do
    version ← b64decode (before_first b'.' token)
    guard (same_text version (codes "1"))
        (invalid_token (codes "The given token uses a version that is unable to be decoded."))
    v1token now token
