-- ===== src/Server/Admitted.antt =====
-- Which requests reach an application that requires authentication.
use kh_common.Prelude.{
  ◌≡◌, ◌≢◌, refl, ap, ◌⊎◌, inl, inr, Option, none, some, List, [], ◌∷◌, Bool, true, false,
  if◌then◌else◌, Bool-cases,
}
use kh_common.Prelude.Outcome.{Outcome, returned, raised}
use kh_common.Prelude.Text.{Text, codes}
use kh_common.Auth.Token.{AuthError, forbidden, same_text}
use kh_common.Auth.User.{User}
use kh_common.Auth.Token.Cached.{IsHistory}
use kh_common.Auth.Recent.{IsKnownSince, handle-IsRecent}
use kh_common.Auth.Middleware
use kh_common.Auth.Middleware.{Kind, http, websocket, other_kind, Failure, Served}
use kh_common.Cors
use kh_common.Cors.{Settings, Reaction}
use kh_common.Server.{
  Config, Response, Request, Layer, exception_layer, header_layer, cors_layer, host_layer,
  auth_layer, App, Platform, set_headers, cors_request, answer_origin, react, authorize, run,
  verify, cors_settings, add_hosts, inner_app, server_app,
}

module _ (platform : Platform) where
  open platform use {services, metadata, history, is_space, scope_names, urlparse, fresh}

  -- What is assumed of the framework: a middleware that is added is put around the application as
  -- it is so far, and starlette's own two look at what the application does with the request alone.
  pub record IsFramework (add : Layer → App services.Json → App services.Json) : Type 0 where
    pub wraps : (l : Layer) (f : App services.Json) → add l f ≡ run platform l f
    pub exceptions_agree :
        (f g : App services.Json) (r : Request services.Json)
        → f r ≡ g r
        → platform.handle_exceptions f r ≡ platform.handle_exceptions g r
    pub hosts_agree :
        (hosts : List Text) (f g : App services.Json) (r : Request services.Json)
        → f r ≡ g r
        → platform.check_host hosts f r ≡ platform.check_host hosts g r

  -- The request has no origin, or one that the settings allow.
  abbrev pub IsFrom : Settings → Request services.Json → Type 0
  IsFrom settings r =
      (r.origin ≡ none)
      ⊎ ((o : Text) × (r.origin ≡ some o) × (Cors.is_allowed settings (urlparse o) ≡ true))

  -- The request carries the user of a token that was accepted no more than 30 seconds ago.
  abbrev pub IsIdentified : Request services.Json → Type 0
  IsIdentified r =
      (user : User services.Json) × (r.user ≡ some user)
      × IsKnownSince services metadata history is_space scope_names fresh platform.now user

  abbrev IsForwarded : Reaction → Type 0
  IsForwarded (Reaction.forwarded o) = Unit
  IsForwarded _ = ⊥

  react-agree :
      (settings : Settings) (d : Reaction) (o o' : Outcome Failure Response)
      → (IsForwarded d → o ≡ o')
      → react platform settings d o ≡ react platform settings d o'
  unfolding react
  react-agree settings (Reaction.refused e) o o' h = refl
  react-agree settings (Reaction.preflight headers) o o' h = refl
  react-agree settings (Reaction.forwarded origin) o o' h =
      ap (answer_origin platform settings origin) (h tt)

  handle_origin-allowed :
      (settings : Settings) (q : Cors.Request) (o : Text)
      → IsForwarded (Cors.handle_origin urlparse fresh settings q o)
      → Cors.is_allowed settings (urlparse o) ≡ true
  unfolding Cors.handle_origin
  handle_origin-allowed settings q o f = elim (Bool-cases (Cors.is_allowed settings (urlparse o))) [
    | inl a ↦ a
    | inr a ↦ let f' : ⊥ = rw a at f in absurd f'
  ]

  with_origin-from :
      (settings : Settings) (q : Cors.Request) (given : Option Text)
      → IsForwarded (Cors.with_origin urlparse fresh settings q given)
      → (given ≡ none)
        ⊎ ((o : Text) × (given ≡ some o) × (Cors.is_allowed settings (urlparse o) ≡ true))
  unfolding Cors.with_origin
  with_origin-from settings q none f = inl refl
  with_origin-from settings q (some o) f = inr (o, refl, handle_origin-allowed settings q o f)

  handle-IsFrom :
      (settings : Settings) (r : Request services.Json)
      → r.kind ≡ http
      → IsForwarded (Cors.handle urlparse fresh settings (cors_request platform r))
      → IsFrom settings r
  unfolding Cors.handle
  handle-IsFrom settings r k f =
      let f' : IsForwarded
          (Cors.with_origin urlparse fresh settings (cors_request platform r) r.origin) =
        rw k at f in
      with_origin-from settings (cors_request platform r) r.origin f'

  module _ (add : Layer → App services.Json → App services.Json) (law : IsFramework add) where
    exception-agree :
        (f g : App services.Json) (r : Request services.Json)
        → f r ≡ g r
        → add exception_layer f r ≡ add exception_layer g r
    unfolding run
    exception-agree f g r h =
        rw (law.wraps exception_layer f, law.wraps exception_layer g) (law.exceptions_agree f g r h)

    hosts-agree :
        (hosts : List Text) (f g : App services.Json) (r : Request services.Json)
        → f r ≡ g r
        → add_hosts platform add hosts f r ≡ add_hosts platform add hosts g r
    unfolding run
    hosts-agree [] f g r h = h
    hosts-agree (x ∷ hosts) f g r h =
        rw (law.wraps (host_layer (x ∷ hosts)) f, law.wraps (host_layer (x ∷ hosts)) g)
          (law.hosts_agree (x ∷ hosts) f g r h)

    headers-agree :
        (b : Bool) (f g : App services.Json) (r : Request services.Json)
        → f r ≡ g r
        → (if b then add header_layer f else f) r ≡ (if b then add header_layer g else g) r
    unfolding run
    headers-agree true f g r h =
        rw (law.wraps header_layer f, law.wraps header_layer g) (ap (set_headers platform) h)
    headers-agree false f g r h = h

    cors-agree :
        (settings : Settings) (f g : App services.Json) (r : Request services.Json)
        → r.kind ≡ http
        → (IsFrom settings r → f r ≡ g r)
        → add (cors_layer settings) f r ≡ add (cors_layer settings) g r
    unfolding run
    cors-agree settings f g r k h =
        rw (law.wraps (cors_layer settings) f, law.wraps (cors_layer settings) g)
          (react-agree settings (Cors.handle urlparse fresh settings (cors_request platform r))
            (f r) (g r) λ d. h (handle-IsFrom settings r k d))

    answer-passed_none :
        (o : Outcome AuthError (User services.Json))
        → Middleware.answer (verify platform) is_space scope_names fresh true o
          ≢ returned (Served.passed none)
    unfolding Middleware.answer
    answer-passed_none (returned u) h = cc
    answer-passed_none (raised (AuthError.unauthorized m)) h = cc
    answer-passed_none (raised (AuthError.invalid_token m)) h = cc
    answer-passed_none (raised (forbidden m)) h = cc
    answer-passed_none (raised e) h = cc

    handle-passed_none :
        (r : Request services.Json)
        → r.kind ≡ http
        → same_text r.path (codes "/openapi.json") ≡ false
        → Middleware.handle
            (verify platform)
            is_space
            scope_names
            fresh
            true
            platform.now
            r.kind
            r.path
            r.authorization
            r.cookie
          ≢ returned (Served.passed none)
    unfolding Middleware.handle
    handle-passed_none r k p h =
        let h' : Middleware.answer (verify platform) is_space scope_names fresh true (
              Middleware.identify (verify platform) is_space scope_names fresh platform.now
                r.authorization r.cookie)
            ≡ returned (Served.passed none) =
          rw (k, p) at h in
        answer-passed_none _ h'

    authorize-agree :
        (f g : App services.Json) (r : Request services.Json)
        (o : Outcome Failure (Served services.Json))
        → o ≢ returned (Served.passed none)
        → ((u : User services.Json)
            → o ≡ returned (Served.passed (some u))
            → f (record r { user = some u }) ≡ g (record r { user = some u }))
        → authorize platform f r o ≡ authorize platform g r o
    unfolding authorize
    authorize-agree f g r (raised e) n h = refl
    authorize-agree f g r (returned (Served.refused e)) n h = refl
    authorize-agree f g r (returned (Served.passed none)) n h = absurd (n refl)
    authorize-agree f g r (returned (Served.passed (some u))) n h = h u refl

    inner-agree :
        (config : Config) (f g : App services.Json) (r : Request services.Json)
        → config.cors ≡ true
        → r.kind ≡ http
        → (IsFrom (cors_settings platform config) r → f r ≡ g r)
        → inner_app platform add config f r ≡ inner_app platform add config g r
    unfolding inner_app
    inner-agree config f g r c k h = rw c (
        hosts-agree config.allowed_hosts _ _ r (
          cors-agree (cors_settings platform config) _ _ r k
            λ from. headers-agree config.custom_headers _ _ r (exception-agree f g r (h from))))

    auth-agree :
        (f g : App services.Json) (r : Request services.Json)
        → r.kind ≡ http
        → same_text r.path (codes "/openapi.json") ≡ false
        → ((m : Text)
            → Middleware.identify
                (verify platform)
                is_space
                scope_names
                fresh
                platform.now
                r.authorization
                r.cookie
              ≢ raised (forbidden m))
        → IsHistory services metadata history platform.now
        → ((u : User services.Json)
            → IsKnownSince services metadata history is_space scope_names fresh platform.now u
            → f (record r { user = some u }) ≡ g (record r { user = some u }))
        → add (auth_layer true) f r ≡ add (auth_layer true) g r
    unfolding run
    auth-agree f g r k p n past h =
        rw (law.wraps (auth_layer true) f, law.wraps (auth_layer true) g)
          (authorize-agree f g r _ (handle-passed_none r k p) λ u e.
            elim (handle-IsRecent services metadata history is_space scope_names fresh true
              platform.now r.kind r.path r.authorization r.cookie u past e) [
                | inl (q, inl w) ↦ cc
                | inl (q, inr (m, w)) ↦ absurd (n m w)
                | inr known ↦ h u known
              ])

    -- In an application with authentication required and the origins checked, the response to an
    -- HTTP request, other than one for the API's description, depends on the application only
    -- through what it does with requests that carry the user of a token which a run of `verifyToken`
    -- accepted that ended no more than 30 seconds ago, and that name no origin or one that is
    -- allowed: any two applications that agree on those requests give the same response. This is
    -- where no service raises Forbidden, the framework puts each middleware around what there is so
    -- far, no two calls of `verifyToken` with the same token overlap, the clock does not go back
    -- and the services other than the token store stay as they are.
    pub server_app-agree :
        (config : Config) (f g : App services.Json) (r : Request services.Json)
        → config.auth ≡ true
        → config.auth_required ≡ true
        → config.cors ≡ true
        → r.kind ≡ http
        → same_text r.path (codes "/openapi.json") ≡ false
        → ((m : Text)
            → Middleware.identify
                (verify platform)
                is_space
                scope_names
                fresh
                platform.now
                r.authorization
                r.cookie
              ≢ raised (forbidden m))
        → IsHistory services metadata history platform.now
        → ((q : Request services.Json)
            → IsIdentified q
            → IsFrom (cors_settings platform config) q
            → f q ≡ g q)
        → server_app platform add config f r ≡ server_app platform add config g r
    unfolding server_app
    server_app-agree config f g r a b c k p n past h =
        rw (a, b)
          (auth-agree _ _ r k p n past λ u known.
            inner-agree config f g (record r { user = some u }) c k
              (h (record r { user = some u }) (u, refl, known)))
