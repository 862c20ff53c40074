-- ===== src/Exceptions/Handler.antt =====
-- `HttpErrorHandler` of kh_common/exceptions/http_error.py. Its two wrappers, for coroutine and for
-- plain functions, are the same but for `await`, and are one function here.
use kh_common.Prelude.{Option, none, some, List, [], ◌∷◌, ◌++◌, Bool, true, false, if◌then◌else◌}
use kh_common.Prelude.Outcome.{Outcome, returned, raised}
use kh_common.Prelude.Dict
use kh_common.Prelude.Dict.{Dict}
use kh_common.Prelude.Text.{Text, Text-discrete, codes}
use kh_common.Exceptions.{
  Class, http_error, bad_gateway, internal_server_error, client_error, Class-discrete, class_status,
  http_mro, Exception, has_class,
}

module _ {V : Type 0} where
  -- `for cls in type(e).__mro__: if cls in handlers`, and the exception `Error(custom_message)` that
  -- the first match makes
  unfoldable pub find_handler : Dict Class (Exception V) → List Class → Option (Exception V)
  find_handler handlers [] = none
  find_handler handlers (c ∷ mro) = elim (Dict.get Class-discrete c handlers) [
    | some e ↦ some e
    | none ↦ find_handler handlers mro
  ]

  -- `zip(names, args)`
  unfoldable pub zip_args : List Text → List V → Dict Text V
  zip_args [] args = []
  zip_args (n ∷ names) [] = []
  zip_args (n ∷ names) (a ∷ args) = (n, a) ∷ zip_args names args

  -- `{ key: kwargs[key] for key in kwargs.keys() - exclusions }`
  unfoldable pub without : List Text → Dict Text V → Dict Text V
  without [] d = d
  without (x ∷ exclusions) d = without exclusions (Dict.remove Text-discrete x d)

  -- The parameters that are logged.
  unfoldable pub call_logdata : List Text → List Text → List V → Dict Text V → Dict Text V
  unfolding zip_args without
  call_logdata exclusions names args kwargs =
      without exclusions (Dict.update Text-discrete kwargs (zip_args names args))

  -- The error that stands for an unexpected one, of which `BaseError` keeps the logdata without a
  -- refid. `upstream` is `isinstance(e, ClientError)`.
  unfoldable pub unexpected : Bool → Text → Text → Dict Text V → Exception V
  unfolding class_status
  unexpected true message refid logdata = record {
    class_name = codes "BadGateway";
    mro = http_mro bad_gateway;
    message =
        codes "BadGateway: received an invalid response from an upstream server while "
        ++ (message ++ codes ".");
    status = class_status bad_gateway;
    refid = some refid;
    logdata = Dict.remove Text-discrete (codes "refid") logdata;
  }
  unexpected false message refid logdata = record {
    class_name = codes "InternalServerError";
    mro = http_mro internal_server_error;
    message = codes "an unexpected error occurred while " ++ (message ++ codes ".");
    status = class_status internal_server_error;
    refid = some refid;
    logdata = Dict.remove Text-discrete (codes "refid") logdata;
  }

  -- The two `except` clauses.
  unfoldable pub translate :
      Text → Dict Class (Exception V) → Dict Text V → Text → Exception V → Exception V
  unfolding unexpected has_class find_handler
  translate message handlers logdata refid e =
      if has_class e.mro http_error then e else (elim (find_handler handlers e.mro) [
        | some custom ↦ custom
        | none ↦ unexpected (has_class e.mro client_error) message refid logdata
      ])

  unfoldable pub wrapper :
      {A : Type 0}
      → Text
      → List Text
      → Dict Class (Exception V)
      → List Text
      → List V
      → Dict Text V
      → Text
      → Outcome (Exception V) A
      → Outcome (Exception V) A
  unfolding translate call_logdata
  wrapper message exclusions handlers names args kwargs refid (returned a) = returned a
  wrapper message exclusions handlers names args kwargs refid (raised e) =
      raised (translate message handlers (call_logdata exclusions names args kwargs) refid e)
