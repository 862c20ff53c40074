-- ===== src/Exceptions/Translation.antt =====
-- What leaves `HttpErrorHandler`, what it logs, and what the client of the server then sees.
use mathlib.Core.Logic.{if_pos, if_neg}
use kh_common.Prelude.{
  none, some, List, [], ◌∷◌, ◌++◌, Bool, true, false, ◌≡◌, refl, inl, inr, ◌∙◌, Bool-cases,
  Option-cases, ap,
}
use kh_common.Prelude.Lists.{All}
use kh_common.Prelude.Outcome.{Outcome, returned, raised}
use kh_common.Prelude.Dict
use kh_common.Prelude.Dict.{Dict, Unique}
use kh_common.Prelude.Text.{Text, codes}
use kh_common.Exceptions.{Class, http_error, client_error, Class-discrete, Exception, has_class}
use kh_common.Exceptions.Handler.{find_handler, unexpected, translate, wrapper}
use kh_common.Exceptions.Response.{ErrorResponse, json_error_handler}

-- The response that the two unexpected errors get. The first names its class twice: once in its
-- message, and once more by the handler of the server.
abbrev pub response : Bool → Text → Text → ErrorResponse
response true message refid = record {
  status_code = 502;
  status = 502;
  refid = refid;
  error =
      codes "BadGateway: BadGateway: received an invalid response from an upstream server while "
      ++ (message ++ codes ".");
  logged = false;
}
response false message refid = record {
  status_code = 500;
  status = 500;
  refid = refid;
  error =
      codes "InternalServerError: an unexpected error occurred while " ++ (message ++ codes ".");
  logged = false;
}

module _ {V : Type 0} where
  abbrev pub IsHttp : Exception V → Type 0
  IsHttp e = has_class e.mro http_error ≡ true

  get-IsHttp :
      (c : Class) (handlers : Dict Class (Exception V)) (e : Exception V)
      → All (λ h. IsHttp h.1) handlers
      → Dict.get Class-discrete c handlers ≡ some e
      → IsHttp e
  unfolding Dict.get
  get-IsHttp c [] e a h = cc
  get-IsHttp c ((d, f) ∷ handlers) e a h = elim (Class-discrete d c) [
    | yes p ↦ let h' : some f ≡ some e = rw (if_pos _ p) at h in let q : f ≡ e = cc in rw (← q) a.0
    | no p ↦
        let h' : Dict.get Class-discrete c handlers ≡ some e = rw (if_neg _ p) at h in
        get-IsHttp c handlers e a.1 h'
  ]

  find_handler-IsHttp :
      (handlers : Dict Class (Exception V)) (mro : List Class) (e : Exception V)
      → All (λ h. IsHttp h.1) handlers
      → find_handler handlers mro ≡ some e
      → IsHttp e
  unfolding find_handler
  find_handler-IsHttp handlers [] e a h = cc
  find_handler-IsHttp handlers (c ∷ mro) e a h =
      elim (Option-cases (Dict.get Class-discrete c handlers)) [
        | inl missing ↦
            let h' : find_handler handlers mro ≡ some e = rw (missing, find_handler) at h in
            find_handler-IsHttp handlers mro e a h'
        | inr (f, found) ↦
            let h' : some f ≡ some e = rw (found, find_handler) at h in
            let q : f ≡ e = cc in rw (← q) (get-IsHttp c handlers f a found)
      ]

  unexpected-IsHttp :
      (b : Bool) (message refid : Text) (logdata : Dict Text V)
      → IsHttp (unexpected b message refid logdata)
  unfolding unexpected has_class Class-discrete
  unexpected-IsHttp true message refid logdata = refl
  unexpected-IsHttp false message refid logdata = refl

  translate-IsHttp :
      (message refid : Text) (handlers : Dict Class (Exception V)) (logdata : Dict Text V)
      (e : Exception V)
      → All (λ h. IsHttp h.1) handlers
      → IsHttp (translate message handlers logdata refid e)
  unfolding translate
  translate-IsHttp message refid handlers logdata e a =
      elim (Bool-cases (has_class e.mro http_error)) [
        | inl http ↦ rw (http) http
        | inr other ↦ elim (Option-cases (find_handler handlers e.mro)) [
          | inl missing ↦
              rw (other, missing)
                (unexpected-IsHttp (has_class e.mro client_error) message refid logdata)
          | inr (f, found) ↦ rw (other, found) (find_handler-IsHttp handlers e.mro f a found)
        ]
      ]

  -- What the wrapper may do for an outcome of the function.
  abbrev pub Safe : {A : Type 0} → Outcome (Exception V) A → Outcome (Exception V) A → Type 0
  Safe (returned a) r = r ≡ returned a
  Safe (raised e) r = (e' : Exception V) × (r ≡ raised e') × IsHttp e' × (IsHttp e → e' ≡ e)

  -- If every handler makes an HttpError, then a result is returned unchanged, whatever the function
  -- raises becomes an HttpError, and an HttpError of the function's own is raised unchanged.
  pub wrapper-Safe :
      {A : Type 0} (message : Text) (exclusions : List Text) (handlers : Dict Class (Exception V))
      (names : List Text) (args : List V) (kwargs : Dict Text V) (refid : Text)
      (o : Outcome (Exception V) A)
      → All (λ h. IsHttp h.1) handlers
      → Safe o (wrapper message exclusions handlers names args kwargs refid o)
  unfolding wrapper
  wrapper-Safe message exclusions handlers names args kwargs refid (returned a) h = refl
  wrapper-Safe message exclusions handlers names args kwargs refid (raised e) h =
      (_, refl, translate-IsHttp message refid handlers _ e h, λ http. unfold translate in rw http)

  find_handler-nil : (mro : List Class) → find_handler {V = V} [] mro ≡ none
  unfolding find_handler Dict.get
  find_handler-nil [] = refl
  find_handler-nil (c ∷ mro) = find_handler-nil mro

  translate-unexpected :
      (message refid : Text) (logdata : Dict Text V) (e : Exception V)
      → has_class e.mro http_error ≡ false
      → translate message [] logdata refid e
        ≡ unexpected (has_class e.mro client_error) message refid logdata
  unfolding translate
  translate-unexpected message refid logdata e h = rw (h, find_handler-nil e.mro)

  response-unexpected :
      (upstream : Bool) (message refid fresh : Text) (logdata : Dict Text V)
      → json_error_handler fresh (unexpected upstream message refid logdata)
        ≡ response upstream message refid
  unfolding json_error_handler unexpected has_class Class-discrete
  response-unexpected true message refid fresh logdata = refl
  response-unexpected false message refid fresh logdata = refl

  -- The handler and the server together: for an exception that is no HttpError, where no handlers
  -- are given, the response has status 502 if it is a client error of an upstream request and 500
  -- otherwise, names the operation and the logged reference, and holds nothing of the exception.
  pub json_error_handler-translate :
      (message refid fresh : Text) (logdata : Dict Text V) (e : Exception V)
      → has_class e.mro http_error ≡ false
      → json_error_handler fresh (translate message [] logdata refid e)
        ≡ response (has_class e.mro client_error) message refid
  json_error_handler-translate message refid fresh logdata e h =
      ap (json_error_handler fresh) (translate-unexpected message refid logdata e h)
      ∙ response-unexpected (has_class e.mro client_error) message refid fresh logdata
