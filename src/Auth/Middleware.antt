-- ===== src/Auth/Middleware.antt =====
-- `KhAuthMiddleware.__call__` of kh_common/server/middleware/auth.py. `verify` is `verifyToken` as it is
-- decorated, for a call at a time.
use kh_common.Prelude.{
  ℕ, ◌≡◌, refl, ◌⊎◌, inl, inr, Option, none, some, List, [], ◌∷◌, Bool, true, false, if◌then◌else◌,
  Bool-cases,
}
use kh_common.Prelude.Outcome.{Outcome, returned, raised, ◌>>=◌, >>=-eq-returned}
use kh_common.Prelude.Text.{Text, codes}
use kh_common.Auth.Scope.{Scope}
use kh_common.Auth.Token.{
  AuthError, unauthorized, forbidden, invalid_token, key_error, AuthToken, same_text,
}
use kh_common.Auth.User.{User, retrieve_auth_token, retrieve_auth_token-verified}
use kh_common.Exceptions.{Class, Exception, class_status, http_mro}
use kh_common.Exceptions.Response.{ErrorResponse, json_error_handler}

-- `scope['type']`
pub data Kind : Type 0 where
  http websocket other_kind : Kind

pub data Failure : Type 0 where
  not_implemented : Failure
  auth_failure : AuthError → Failure

-- What becomes of a request: an error response, or a call of the application, with the user that
-- the scope was given, if it was given one.
pub data Served (Json : Type 0) : Type 0 where
  refused : ErrorResponse → Served Json
  passed : Option (User Json) → Served Json

-- `cls(message)` for a class of http_error.py
abbrev pub http_exception : Class → Text → Text → Exception Text
http_exception cls name message = record {
  class_name = name;
  mro = http_mro cls;
  message = message;
  status = class_status cls;
  refid = none;
  logdata = [];
}

-- `Scope.__getitem__`
unfoldable pub scope_of : Text → Outcome AuthError Scope
scope_of name =
    if same_text name (codes "default")
    then returned Scope.default
    else if same_text name (codes "bot")
    then returned Scope.bot
    else if same_text name (codes "user")
    then returned Scope.user
    else if same_text name (codes "mod")
    then returned Scope.mod_
    else if same_text name (codes "admin")
    then returned Scope.admin
    else if same_text name (codes "internal")
    then returned Scope.internal
    else raised key_error

-- `set(map(Scope.__getitem__, names))`
unfoldable pub scopes_of : List Text → Outcome AuthError (List Scope)
unfolding scope_of
scopes_of [] = returned []
scopes_of (name ∷ names) = do s ← scope_of name; ss ← scopes_of names; returned (s ∷ ss)

-- `scope_names` is `data.get('scope', [])`, and `fresh` what `uuid4()` gives.
module _ {Json : Type 0} (verify : ℕ → Text → Outcome AuthError (AuthToken Json))
    (is_space : ℕ → Bool) (scope_names : Json → List Text) (fresh : Text) where
  -- The user of a token.
  unfoldable pub user_of : AuthToken Json → Outcome AuthError (User Json)
  unfolding scopes_of
  user_of t = do
    ss ← scopes_of (scope_names t.content)
    returned (record { user_id = some t.user_id; token = some t; scope = Scope.user ∷ ss })

  abbrev pub anonymous : User Json
  anonymous = record { user_id = none; token = none; scope = Scope.default ∷ [] }

  -- The `except` clauses, and the call of the application after them. Of the errors here,
  -- `Unauthorized` and `Forbidden` are `HttpError`s.
  unfoldable pub answer : Bool → Outcome AuthError (User Json) → Outcome Failure (Served Json)
  answer required (returned user) = returned (passed (some user))
  answer required (raised (invalid_token m)) =
      returned (
        refused
          (json_error_handler fresh (http_exception Class.bad_request (codes "BadRequest") m)))
  answer required (raised (unauthorized m)) =
      if required
      then returned (
          refused
            (json_error_handler fresh (http_exception Class.unauthorized (codes "Unauthorized") m)))
      else returned (passed (some anonymous))
  answer required (raised (forbidden m)) = returned (passed (some anonymous))
  answer required (raised e) = raised (auth_failure e)

  unfoldable pub identify : ℕ → Option Text → Option Text → Outcome AuthError (User Json)
  unfolding user_of
  identify now header cookie = do
    t ← retrieve_auth_token verify is_space now header cookie
    user_of t

  unfoldable pub handle :
      Bool → ℕ → Kind → Text → Option Text → Option Text → Outcome Failure (Served Json)
  unfolding answer
  handle required now other_kind path header cookie = raised not_implemented
  handle required now http path header cookie =
      if same_text path (codes "/openapi.json")
      then returned (passed none)
      else answer required (identify now header cookie)
  handle required now websocket path header cookie =
      if same_text path (codes "/openapi.json")
      then returned (passed none)
      else answer required (identify now header cookie)

  -- The application is called for an unknown user: none was required, or a service raised an
  -- HttpError that is not Unauthorized.
  abbrev pub IsAnonymous : Bool → Outcome AuthError (User Json) → User Json → Type 0
  IsAnonymous required o user =
      (user ≡ anonymous) × ((required ≡ false) ⊎ ((m : Text) × (o ≡ raised (forbidden m))))

  -- The user of a token that `verifyToken` returns, with the scope of users and those the token names.
  abbrev pub IsKnown : ℕ → User Json → Type 0
  IsKnown now user =
      (text : Text) × (t : AuthToken Json) × (ss : List Scope) × (verify now text ≡ returned t)
      × (scopes_of (scope_names t.content) ≡ returned ss)
      × (user ≡ record { user_id = some t.user_id; token = some t; scope = Scope.user ∷ ss })

  identify-IsKnown :
      (now : ℕ) (header cookie : Option Text) (user : User Json)
      → identify now header cookie ≡ returned user
      → IsKnown now user
  unfolding identify user_of
  identify-IsKnown now header cookie user h =
      let (t, e, h1) =
        >>=-eq-returned (retrieve_auth_token verify is_space now header cookie) _ h in
      let (ss, e1, h2) = >>=-eq-returned (scopes_of (scope_names t.content)) _ h1 in
      let (text, a) = retrieve_auth_token-verified verify is_space now header cookie t e in
      let p : user ≡ record { user_id = some t.user_id; token = some t; scope = Scope.user ∷ ss } =
        cc in
      (text, t, ss, a, e1, p)

  answer-passed :
      (required : Bool) (o : Outcome AuthError (User Json)) (user : User Json)
      → answer required o ≡ returned (passed (some user))
      → IsAnonymous required o user ⊎ (o ≡ returned user)
  unfolding answer
  answer-passed required (returned u) user h = inr cc
  answer-passed required (raised (invalid_token m)) user h = cc
  answer-passed true (raised (unauthorized m)) user h = cc
  answer-passed false (raised (unauthorized m)) user h = inl (cc, inl refl)
  answer-passed required (raised (forbidden m)) user h = inl (cc, inr (m, refl))
  answer-passed required (raised e) user h = cc

  identified :
      (required : Bool) (now : ℕ) (path : Text) (header cookie : Option Text) (user : User Json)
      → (if same_text path (codes "/openapi.json")
          then returned (passed none)
          else answer required (identify now header cookie))
        ≡ returned (passed (some user))
      → IsAnonymous required (identify now header cookie) user ⊎ IsKnown now user
  identified required now path header cookie user h =
      elim (Bool-cases (same_text path (codes "/openapi.json"))) [
        | inl p ↦ let h' : returned (passed none) ≡ returned (passed (some user)) = rw p at h in cc
        | inr p ↦
            let h' : answer required (identify now header cookie) ≡ returned (passed (some user)) =
              rw p at h in
            elim (answer-passed required (identify now header cookie) user h') [
              | inl a ↦ inl a
              | inr e ↦ inr (identify-IsKnown now header cookie user e)
            ]
      ]

  -- When the application is called with a user, either it is that of a token that `verifyToken`
  -- accepts now, with its id, the scope of users and exactly the scopes its content names; or it is
  -- the anonymous user with the default scope, and then authentication was not required, or a
  -- service raised an HttpError other than Unauthorized.
  pub handle-passed :
      (required : Bool) (now : ℕ) (kind : Kind) (path : Text) (header cookie : Option Text)
      (user : User Json)
      → handle required now kind path header cookie ≡ returned (passed (some user))
      → IsAnonymous required (identify now header cookie) user ⊎ IsKnown now user
  unfolding handle
  handle-passed required now http path header cookie user h =
      identified required now path header cookie user h
  handle-passed required now websocket path header cookie user h =
      identified required now path header cookie user h
  handle-passed required now other_kind path header cookie user h = cc
