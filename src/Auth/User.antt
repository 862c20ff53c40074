-- ===== src/Auth/User.antt =====
-- `KhUser` and `retrieveAuthToken` of kh_common/auth/__init__.py. Which characters are white space is
-- a parameter, and so is the equality of two tokens. `verify` is `verifyToken` as it is decorated,
-- for a call at a time: its answer depends on the cache.
use kh_common.Prelude.{
  ℕ, ◌≡◌, refl, Option, none, some, List, [], ◌∷◌, ◌++◌, Bool, true, false, if◌then◌else◌,
  Bool-cases, inl, inr,
}
use kh_common.Prelude.Outcome.{Outcome, returned, raised, ◌>>=◌, >>=-eq-returned}
use kh_common.Prelude.Text.{Text, codes}
use kh_common.Auth.Scope.{Scope, has_scope}
use kh_common.Auth.Token.{AuthError, unauthorized, forbidden, index_error, AuthToken}

-- `KhUser` of kh_common/models/auth.py, with the set of scopes as a list
pub record User (Json : Type 0) : Type 0 where
  pub user_id : Option ℕ
  pub token : Option (AuthToken Json)
  pub scope : List Scope

-- `a or b`, of two texts that may be None
unfoldable pub first_set : Option Text → Option Text → Option Text
first_set (some (c ∷ t)) other = some (c ∷ t)
first_set none other = other
first_set (some []) other = other

abbrev pub flush : Text → List Text
flush [] = []
flush (c ∷ word) = (c ∷ word) ∷ []

-- `text.split()`, with the word that is being read
unfoldable pub words : (ℕ → Bool) → Text → Text → List Text
words is_space word [] = flush word
words is_space word (c ∷ text) = elim (is_space c) [
  | true ↦ flush word ++ words is_space [] text
  | false ↦ words is_space (word ++ c ∷ []) text
]

-- `texts[-1]`
unfoldable pub last : List Text → Option Text
last [] = none
last (t ∷ []) = some t
last (t ∷ u ∷ ts) = last (u ∷ ts)

module _ {Json : Type 0} (verify : ℕ → Text → Outcome AuthError (AuthToken Json))
    (is_space : ℕ → Bool) where
  unfoldable pub verify_last : ℕ → Option Text → Outcome AuthError (AuthToken Json)
  verify_last now none = raised index_error
  verify_last now (some t) = verify now t

  unfoldable pub verify_words : ℕ → Option Text → Outcome AuthError (AuthToken Json)
  unfolding words last verify_last
  verify_words now none = raised (unauthorized (codes "An authentication token was not provided."))
  verify_words now (some []) =
      raised (unauthorized (codes "An authentication token was not provided."))
  verify_words now (some (c ∷ text)) = verify_last now (last (words is_space [] (c ∷ text)))

  -- `header` is the Authorization header, and `cookie` the cookie kh-auth.
  unfoldable pub retrieve_auth_token :
      ℕ → Option Text → Option Text → Outcome AuthError (AuthToken Json)
  unfolding first_set verify_words
  retrieve_auth_token now header cookie = verify_words now (first_set header cookie)

  verify_last-verified :
      (now : ℕ) (o : Option Text) (t : AuthToken Json)
      → verify_last now o ≡ returned t
      → (text : Text) × (o ≡ some text) × (verify now text ≡ returned t)
  unfolding verify_last
  verify_last-verified now none t h = cc
  verify_last-verified now (some text) t h = (text, refl, h)

  verify_words-verified :
      (now : ℕ) (o : Option Text) (t : AuthToken Json)
      → verify_words now o ≡ returned t
      → (text : Text) × (verify now text ≡ returned t)
  unfolding verify_words
  verify_words-verified now none t e = cc
  verify_words-verified now (some []) t e = cc
  verify_words-verified now (some (c ∷ s)) t e =
      let (text, p, a) = verify_last-verified now (last (words is_space [] (c ∷ s))) t e in
      (text, a)

  pub retrieve_auth_token-verified :
      (now : ℕ) (header cookie : Option Text) (t : AuthToken Json)
      → retrieve_auth_token now header cookie ≡ returned t
      → (text : Text) × (verify now text ≡ returned t)
  unfolding retrieve_auth_token
  retrieve_auth_token-verified now header cookie t h =
      verify_words-verified now (first_set header cookie) t h

module _ {Json : Type 0} (verify : ℕ → Text → Outcome AuthError (AuthToken Json))
    (same_token : AuthToken Json → AuthToken Json → Bool) where
  abbrev pub unauthenticated : Bool → Outcome AuthError Bool
  unauthenticated true = raised (unauthorized (codes "User is not authenticated."))
  unauthenticated false = returned false

  -- `self.token != await verifyToken(self.token.token_string)`
  abbrev pub compare_fresh : ℕ → AuthToken Json → Bool → Outcome AuthError Bool
  compare_fresh now t raise_error = do
    fresh ← verify now t.token_string
    (if same_token t fresh then returned true else unauthenticated raise_error)

  -- `KhUser.authenticated`
  unfoldable pub authenticated : ℕ → User Json → Bool → Outcome AuthError Bool
  authenticated now user raise_error = elim user.token [
    | none ↦ unauthenticated raise_error
    | some t ↦ compare_fresh now t raise_error
  ]

  abbrev not_authorized : AuthError
  not_authorized = forbidden (codes "User is not authorized to access this resource.")

  -- `KhUser.verify_scope`: what `authenticated` returns is not looked at.
  unfoldable pub verify_scope : ℕ → User Json → Scope → Bool → Outcome AuthError Bool
  verify_scope now user scope raise_error = do
    ignored ← authenticated now user raise_error
    (if has_scope scope user.scope then returned true else raised not_authorized)

  has-verify_scope :
      (b : Bool) (e : AuthError) {r : Bool}
      → (if b then returned true else raised e) ≡ returned r
      → (b ≡ true) × (r ≡ true)
  has-verify_scope true e h = (refl, cc)
  has-verify_scope false e h = cc

  IsSame : ℕ → User Json → Type 0
  IsSame now user =
      (t : AuthToken Json) × (fresh : AuthToken Json) × (user.token ≡ some t)
      × (verify now t.token_string ≡ returned fresh)
      × (same_token t fresh ≡ true)

  authenticated-IsSame :
      (now : ℕ) (user : User Json) (o : Option (AuthToken Json)) {b : Bool}
      → user.token ≡ o
      → authenticated now user true ≡ returned b
      → IsSame now user
  unfolding authenticated IsSame
  authenticated-IsSame now user none {b} e h =
      let h' : unauthenticated true ≡ returned b = rw (e, authenticated) at h in cc
  authenticated-IsSame now user (some t) {b} e h =
      let h' : compare_fresh now t true ≡ returned b = rw (e, authenticated) at h in
      let (fresh, v, w) = >>=-eq-returned (verify now t.token_string) _ h' in
      elim (Bool-cases (same_token t fresh)) [
        | inl s ↦ (t, fresh, e, v, s)
        | inr s ↦ let w' : unauthenticated true ≡ returned b = rw s at w in cc
      ]

  -- With `raise_error`, `verify_scope` returns only for a user that has the scope and a token, for
  -- the text of which `verifyToken` returns the same token at that time.
  pub verify_scope-IsSame :
      (now : ℕ) (user : User Json) (scope : Scope) (r : Bool)
      → verify_scope now user scope true ≡ returned r
      → (r ≡ true)
        × (has_scope scope user.scope ≡ true)
        × ((t : AuthToken Json) × (fresh : AuthToken Json) × (user.token ≡ some t)
            × (verify now t.token_string ≡ returned fresh)
            × (same_token t fresh ≡ true))
  unfolding verify_scope IsSame
  verify_scope-IsSame now user scope r h =
      let (b, e, h1) = >>=-eq-returned (authenticated now user true) _ h in
      let (p, q) = has-verify_scope (has_scope scope user.scope) _ h1 in
      (q, p, authenticated-IsSame now user user.token refl e)

  -- Without `raise_error`, a user with no token at all passes the check of any scope that it lists.
  pub verify_scope_unauthenticated :
      (now : ℕ) (user : User Json) (scope : Scope)
      → user.token ≡ none
      → has_scope scope user.scope ≡ true
      → (authenticated now user false ≡ returned false)
        × (verify_scope now user scope false ≡ returned true)
  unfolding verify_scope authenticated
  verify_scope_unauthenticated now user scope e h = rw (e, h) (refl, refl)
