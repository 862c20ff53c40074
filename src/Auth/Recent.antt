-- ===== src/Auth/Recent.antt =====
-- Users and requests that `verifyToken` of kh_common/auth/__init__.py, under its cache, lets through:
-- what `verify_scope` and `KhAuthMiddleware` then know of the token.
use kh_common.Prelude.{ℕ, ◌≡◌, ◌⊎◌, inl, inr, Option, some, List, ◌∷◌, Bool, true}
use kh_common.Prelude.Outcome.{Outcome, returned}
use kh_common.Prelude.Text.{Text}
use kh_common.Auth.Scope.{Scope, has_scope}
use kh_common.Auth.Token.{AuthError, TokenMetadata, Services, AuthToken}
use kh_common.Auth.Token.Cached.{Token, cached_verify, IsHistory, IsRecent, cached_verify-IsRecent}
use kh_common.Auth.User.{User, verify_scope, verify_scope-IsSame}
use kh_common.Auth.Middleware.{
  Kind, passed, scopes_of, handle, identify, IsAnonymous, handle-passed,
}
use kh_common.Caching.Overlap.{Event}

-- The other services stay as they are; `metadata` is what the token store, behind the local cache of
-- its own, gives at each time, and `es` are the calls of `verifyToken` so far.
module _ (services : Services) (metadata : ℕ → Text → Outcome AuthError TokenMetadata)
    (es : List (Event AuthError Text (Token services metadata))) where
  open services use {Json}

  -- With `raise_error`, `verify_scope` returns only for a user that has the scope and a token, of
  -- which the text was accepted, as the same token, by a run of `verifyToken` that ended no more
  -- than 30 seconds ago; as long as no two calls of `verifyToken` with the same token overlap, the
  -- clock does not go back and the services other than the token store stay as they are.
  pub verify_scope-IsRecent :
      (same_token : AuthToken Json → AuthToken Json → Bool) (now : ℕ) (user : User Json)
      (scope : Scope) (r : Bool)
      → IsHistory services metadata es now
      → verify_scope (cached_verify services metadata es) same_token now user scope true
        ≡ returned r
      → (r ≡ true)
        × (has_scope scope user.scope ≡ true)
        × ((t : AuthToken Json) × (fresh : AuthToken Json) × (user.token ≡ some t)
            × IsRecent services metadata now t.token_string fresh
            × (same_token t fresh ≡ true))
  verify_scope-IsRecent same_token now user scope r past h =
      let (p, q, (t, fresh, e, v, s)) =
        verify_scope-IsSame (cached_verify services metadata es) same_token now user scope r h in
      (
        p,
        q,
        (
          t,
          fresh,
          e,
          cached_verify-IsRecent services metadata es now t.token_string fresh past v,
          s,
        ),
      )

  module _ (is_space : ℕ → Bool) (scope_names : Json → List Text) (fresh : Text) where
    -- The user of a token that was accepted no more than 30 seconds ago, with the scope of users and
    -- those that the token names.
    abbrev pub IsKnownSince : ℕ → User Json → Type 0
    IsKnownSince now user =
        (text : Text) × (t : AuthToken Json) × (ss : List Scope) × IsRecent services metadata now
          text t
        × (scopes_of (scope_names t.content) ≡ returned ss)
        × (user ≡ record { user_id = some t.user_id; token = some t; scope = Scope.user ∷ ss })

    -- When the application is called with a user, either it is that of a token which a run of
    -- `verifyToken` accepted that ended no more than 30 seconds ago, with the scope of users and
    -- exactly those that the token names; or it is the anonymous user, and no user was required or a
    -- service raised an HttpError other than Unauthorized. This is as long as no two calls of
    -- `verifyToken` with the same token overlap, the clock does not go back and the services other
    -- than the token store stay as they are.
    pub handle-IsRecent :
        (required : Bool) (now : ℕ) (kind : Kind) (path : Text) (header cookie : Option Text)
        (user : User Json)
        → IsHistory services metadata es now
        → handle
            (cached_verify services metadata es)
            is_space
            scope_names
            fresh
            required
            now
            kind
            path
            header
            cookie
          ≡ returned (passed (some user))
        → IsAnonymous
            (cached_verify services metadata es)
            is_space
            scope_names
            fresh
            required
            (identify
              (cached_verify services metadata es)
              is_space
              scope_names
              fresh
              now
              header
              cookie)
            user
          ⊎ IsKnownSince now user
    handle-IsRecent required now kind path header cookie user past h =
        elim (handle-passed (cached_verify services metadata es) is_space scope_names fresh required
          now kind path header cookie user h) [
            | inl a ↦ inl a
            | inr (text, t, ss, v, s, u) ↦
                inr
                  (text, t, ss, cached_verify-IsRecent services metadata es now text t past v, s, u)
          ]
