-- ===== src/Gateway/Request.antt =====
-- What `Gateway.__call__` sends. A body and params are dictionaries; that `update` writes to the
-- caller's own body is not modelled.
use kh_common.Prelude.{
  ℕ, ◌≡◌, ◌∙◌, Option, none, some, List, [], ◌∷◌, ◌++◌, Bool, true, false, ◌&&◌, ◌≢◌, arith,
}
use kh_common.Prelude.Outcome.{Outcome, returned, raised, ◌>>=◌, >>=-eq-returned}
use kh_common.Prelude.Dict
use kh_common.Prelude.Dict.{Dict, Unique}
use kh_common.Prelude.Text.{Text, Text-discrete, codes, is_set}

pub data Refusal : Type 0 where
  attribute_error : Refusal

-- The arguments of `async_request`. The outer option is whether the key is there at all, the inner
-- one is None.
pub record Request (V : Type 0) : Type 0 where
  pub params : Option (Option (Dict Text V))
  pub json : Option (Option (Dict Text V))
  pub headers : Dict Text Text

-- `MethodsWithoutBody`
abbrev pub methods_without_body : List Text
methods_without_body =
    codes "get"
    ∷ codes "head"
    ∷ codes "delete"
    ∷ codes "options"
    ∷ codes "trace"
    ∷ codes "connect"
    ∷ []

unfoldable pub is_member : Text → List Text → Bool
is_member t [] = false
is_member t (u ∷ us) = elim (Text-discrete u t) [ yes p ↦ true | no p ↦ is_member t us ]

-- `if params:`
abbrev pub is_given : {V : Type 0} → Option (Dict Text V) → Bool
is_given none = false
is_given (some []) = false
is_given (some (e ∷ d)) = true

module _ {V : Type 0} where
  unfoldable pub base : Bool → Option (Dict Text V) → Request V
  base true body = record {
    params = some body;
    json = none;
    headers = (codes "accept", codes "application/json") ∷ [];
  }
  base false body = record {
    params = none;
    json = some body;
    headers = (codes "accept", codes "application/json") ∷ [];
  }

  -- `req['params'].update(params)` fails where `req['params']` is None.
  unfoldable pub merge_params : Dict Text V → Request V → Outcome Refusal (Request V)
  merge_params params req = elim req.params [
    | none ↦ returned (record req { params = some (some params) })
    | some none ↦ raised attribute_error
    | some (some d) ↦
        returned (record req { params = some (some (Dict.update Text-discrete d params)) })
  ]

  unfoldable pub add_params : Option (Dict Text V) → Request V → Outcome Refusal (Request V)
  unfolding merge_params
  add_params none req = returned req
  add_params (some []) req = returned req
  add_params (some (e ∷ d)) req = merge_params (e ∷ d) req

  unfoldable pub add_headers : Option (Dict Text Text) → Request V → Request V
  add_headers none req = req
  add_headers (some more) req = record req { headers = Dict.update Text-discrete req.headers more }

  unfoldable pub add_auth : Option Text → Request V → Request V
  add_auth none req = req
  add_auth (some []) req = req
  add_auth (some (c ∷ auth)) req = record req {
    headers =
        Dict.set Text-discrete (codes "authorization") (codes "Bearer " ++ (c ∷ auth)) req.headers;
  }

  -- `method` is in lower case, as `__init__` stores it.
  unfoldable pub build_request :
      Text
      → Option (Dict Text V)
      → Option (Dict Text V)
      → Option Text
      → Option (Dict Text Text)
      → Outcome Refusal (Request V)
  unfolding base add_params add_headers add_auth
  build_request method body params auth headers = do
    req ← add_params params (base (is_member method methods_without_body) body)
    returned (add_auth auth (add_headers headers req))

  abbrev pub is_none : Option (Dict Text V) → Bool
  is_none none = true
  is_none (some d) = false

  abbrev pub fails : Outcome Refusal (Request V) → Bool
  fails (returned r) = false
  fails (raised e) = true

  -- A request cannot be put together exactly when params are given and no body is, for a method
  -- that sends its body as params.
  pub build_request-fails :
      (method : Text) (body params : Option (Dict Text V)) (auth : Option Text)
      (headers : Option (Dict Text Text))
      → fails (build_request method body params auth headers)
        ≡ (is_member method methods_without_body && is_none body && is_given params)
  unfolding build_request
  build_request-fails method body params auth headers = ground arith

  abbrev with_auth : ℕ → Text → Dict Text Text → Request V → Dict Text Text
  with_auth c auth headers r =
      Dict.set Text-discrete (codes "authorization") (codes "Bearer " ++ (c ∷ auth))
        (Dict.update Text-discrete r.headers headers)

  -- A request that is built with an auth argument has it as its bearer token, whatever the headers
  -- say, and each other header as the headers argument gives it.
  pub build_request-headers :
      (method : Text) (body params : Option (Dict Text V)) (auth : Text) (headers : Dict Text Text)
      (req : Request V)
      → is_set (some auth) ≡ true
      → Unique Text-discrete headers
      → build_request method body params (some auth) (some headers) ≡ returned req
      → (Dict.get Text-discrete (codes "authorization") req.headers
          ≡ some (codes "Bearer " ++ auth))
        × ((k v : Text)
            → codes "authorization" ≢ k
            → Dict.get Text-discrete k headers ≡ some v
            → Dict.get Text-discrete k req.headers ≡ some v)
  unfolding build_request
  build_request-headers method body params [] headers req s u h = cc
  build_request-headers method body params (c ∷ auth) headers req s u h =
      let (r, e, q) =
        >>=-eq-returned (add_params params (base (is_member method methods_without_body) body)) _
          h in
      let q' : record (add_headers (some headers) r) { headers = with_auth c auth headers r }
          ≡ req =
        cc in
      rw (← q') (
        Dict.get-set_self Text-discrete (codes "authorization") _ _,
        λ k v n g.
            Dict.get-set_ne Text-discrete (codes "authorization") k _ _ n
            ∙ Dict.get-update_present Text-discrete k v r.headers headers u g,
      )
