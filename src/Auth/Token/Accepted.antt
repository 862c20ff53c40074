-- ===== src/Auth/Token/Accepted.antt =====
-- What a token has passed when `verifyToken` accepts it.
use kh_common.Prelude.{
  ◌∙◌, ap, not, ℕ, ◌≤◌, ◌<◌, ◌≡◌, refl, some, Bool, true, false, ◌==◌, ltb, arith, Option-cases,
  inl, inr,
}
use kh_common.Prelude.Outcome.{Outcome, returned, raised, ◌>>◌, >>=-eq-returned}
use kh_common.Prelude.Text.{Text, codes}
use kh_common.Auth.Parse.{cut_last, split_at_most, after_first, before_first}
use kh_common.Auth.Token.{
  AuthError, value_error, unauthorized, AuthState, active, TokenMetadata, Services, AuthToken, Load,
  guard, same_text, is_active, b64decode, read_fields, check_signature, check_metadata, check_load,
  read_token, v1token, verify_token,
}

guard-returned :
    {A : Type 0} (b : Bool) (e : AuthError) (o : Outcome AuthError A) {a : A}
    → (guard b e >> o) ≡ returned a
    → (b ≡ true) × (o ≡ returned a)
guard-returned true e o h = (refl, h)
guard-returned false e o h = cc

guard-true : (b : Bool) (e : AuthError) {u : Unit {0}} → guard b e ≡ returned u → b ≡ true
guard-true true e h = refl
guard-true false e h = cc

same_text-eq : (s t : Text) → same_text s t ≡ true → s ≡ t
same_text-eq s t h = ground arith

is_active-eq : (s : AuthState) → is_active s ≡ true → s ≡ active
is_active-eq s h = ground arith

module _ (services : Services) where
  open services use {Key, Json, verify, fetch_public_key, get_metadata, loads}

  -- The checks that do not depend on how the token was cut.
  pub record IsChecked (now : ℕ) (token content signature : Text) (load : Load) (t : AuthToken Json)
      : Type 0 where
    pub key : Key
    pub decoded_signature : Text
    pub info : TokenMetadata
    pub key_positive : 0 < load.key_id
    pub not_expired : now ≤ load.expires
    pub key_fetched : fetch_public_key load.key_id load.algorithm ≡ returned key
    pub signature_decoded : b64decode services signature ≡ returned decoded_signature
    pub signed : verify key decoded_signature content ≡ true
    pub info_found : get_metadata load.guid ≡ returned info
    pub is_active_ : info.state ≡ active
    pub same_algorithm : info.algorithm ≡ load.algorithm
    pub same_expires : info.expires ≡ load.expires
    pub same_key_id : info.key_id ≡ load.key_id
    pub content_loaded : loads load.content ≡ returned t.content
    pub token_user : t.user_id ≡ load.user_id
    pub token_expires : t.expires ≡ load.expires
    pub token_guid : t.guid ≡ load.guid
    pub token_text : t.token_string ≡ token

  check_signature-returned :
      (key : Key) (signature content : Text) {u : Unit {0}}
      → check_signature services key signature content ≡ returned u
      → (s : Text) × (b64decode services signature ≡ returned s) × (verify key s content ≡ true)
  unfolding check_signature
  check_signature-returned key signature content {u} h = go (b64decode services signature) refl
    where
      go :
          (o : Outcome AuthError Text)
          → b64decode services signature ≡ o
          → (s : Text) × (b64decode services signature ≡ returned s) × (verify key s content ≡ true)
      go (raised e) q =
          let h' : raised (unauthorized (codes "Key validation failed.")) ≡ returned u =
            rw (q, check_signature) at h in
          cc
      go (returned s) q =
          let h' : guard (verify key s content) (unauthorized (codes "Key validation failed."))
              ≡ returned u =
            rw (q, check_signature) at h in
          (s, q, guard-true _ _ h')

  -- the four asserts
  check_metadata-returned :
      (info : TokenMetadata) (load : Load) {u : Unit {0}}
      → check_metadata services info load ≡ returned u
      → (info.state ≡ active)
        × (info.algorithm ≡ load.algorithm)
        × (info.expires ≡ load.expires)
        × (info.key_id ≡ load.key_id)
  unfolding check_metadata
  check_metadata-returned info load h =
      let (m1, k1) = guard-returned (is_active info.state) _ _ h in
      let (m2, k2) = guard-returned (same_text info.algorithm load.algorithm) _ _ k1 in
      let (m3, k3) = guard-returned (info.expires == load.expires) _ _ k2 in
      (is_active-eq _ m1, same_text-eq _ _ m2, ground arith, ground arith)

  check_load-IsChecked :
      (now : ℕ) (token content signature : Text) (load : Load) (t : AuthToken Json)
      → check_load services now token content signature load ≡ returned t
      → IsChecked now token content signature load t
  unfolding check_load
  check_load-IsChecked now token content signature load t h =
      let (pos, h1) = guard-returned (ltb 0 load.key_id) _ _ h in
      let (live, h2) = guard-returned (not (ltb load.expires now)) _ _ h1 in
      let (key, e2, h3) = >>=-eq-returned (fetch_public_key load.key_id load.algorithm) _ h2 in
      let (u2, e3, h4) = >>=-eq-returned (check_signature services key signature content) _ h3 in
      let (s, sd, sv) = check_signature-returned key signature content e3 in
      let (info, e4, h5) = >>=-eq-returned (get_metadata load.guid) _ h4 in
      let (u3, e5, h6) = >>=-eq-returned (check_metadata services info load) _ h5 in
      let (json, e6, h7) = >>=-eq-returned (loads load.content) _ h6 in
      let (m1, m2, m3, m4) = check_metadata-returned info load e5 in
      record {
        key = key;
        decoded_signature = s;
        info = info;
        key_positive = ground arith;
        not_expired = ground arith;
        key_fetched = e2;
        signature_decoded = sd;
        signed = sv;
        info_found = e4;
        is_active_ = m1;
        same_algorithm = m2;
        same_expires = m3;
        same_key_id = m4;
        content_loaded = e6 ∙ cc;
        token_user = cc;
        token_expires = cc;
        token_guid = cc;
        token_text = cc;
      }

  -- A token is three parts: what is signed, which holds the version and the load, and the signature.
  pub record IsAccepted (now : ℕ) (token : Text) (t : AuthToken Json) : Type 0 where
    pub content : Text
    pub signature : Text
    pub load_text : Text
    pub load : Load
    pub cut : cut_last b'.' token ≡ some (content, signature)
    pub load_decoded : b64decode services (after_first b'.' content) ≡ returned load_text
    pub load_read : read_fields services (split_at_most 5 b'.' load_text) ≡ returned load
    pub version : b64decode services (before_first b'.' token) ≡ returned (codes "1")
    pub checked : IsChecked now token content signature load t

  read_token-IsAccepted :
      (now : ℕ) (token : Text) (t : AuthToken Json) (p : Text × Text)
      → b64decode services (before_first b'.' token) ≡ returned (codes "1")
      → cut_last b'.' token ≡ some p
      → read_token services now token p ≡ returned t
      → IsAccepted now token t
  unfolding read_token
  read_token-IsAccepted now token t (content, signature) version cut h =
      let (text, e1, h1) = >>=-eq-returned (b64decode services (after_first b'.' content)) _ h in
      let (load, e2, h2) =
        >>=-eq-returned (read_fields services (split_at_most 5 b'.' text)) _ h1 in
      record {
        content = content;
        signature = signature;
        load_text = text;
        load = load;
        cut = cut;
        load_decoded = e1;
        load_read = e2;
        version = version;
        checked = check_load-IsChecked now token content signature load t h2;
      }

  v1token-IsAccepted :
      (now : ℕ) (token : Text) (t : AuthToken Json)
      → b64decode services (before_first b'.' token) ≡ returned (codes "1")
      → v1token services now token ≡ returned t
      → IsAccepted now token t
  unfolding v1token
  v1token-IsAccepted now token t version h = elim (Option-cases (cut_last b'.' token)) [
    | inl e ↦ let h' : raised value_error ≡ returned t = rw (e, v1token) at h in cc
    | inr (p, e) ↦
        let h' : read_token services now token p ≡ returned t = rw (e, v1token) at h in
        read_token-IsAccepted now token t p version e h'
  ]

  -- Whatever the services answer, a token that is accepted has version 1, was signed, over its
  -- version and load, with the key that was fetched for the positive key id and the algorithm it
  -- names, has not expired, and has an active record with the same algorithm, expiration and key;
  -- and the user, the expiration, the guid and the content that are returned are those of the load.
  pub verify_token-IsAccepted :
      (now : ℕ) (token : Text) (t : AuthToken Json)
      → verify_token services now token ≡ returned t
      → IsAccepted now token t
  unfolding verify_token
  verify_token-IsAccepted now token t h =
      let (v, e1, h1) = >>=-eq-returned (b64decode services (before_first b'.' token)) _ h in
      let (same, h2) = guard-returned (same_text v (codes "1")) _ _ h1 in
      v1token-IsAccepted now token t (e1 ∙ ap returned (same_text-eq v (codes "1") same)) h2
