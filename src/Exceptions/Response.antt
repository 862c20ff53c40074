-- ===== src/Exceptions/Response.antt =====
-- `jsonErrorHandler` of kh_common/exceptions/__init__.py: the response for an exception.
use kh_common.Prelude.{ℕ, Option, none, some, ◌++◌, Bool, true, false, if◌then◌else◌}
use kh_common.Prelude.Text.{Text, codes}
use kh_common.Exceptions.{base_error, client_error, Exception, has_class}

pub record ErrorResponse : Type 0 where
  pub status_code : ℕ
  pub status : ℕ
  pub refid : Text
  pub error : Text
  pub logged : Bool

abbrev pub or_else : {A : Type 0} → A → Option A → A
or_else d none = d
or_else d (some a) = a

-- `fresh` is what `uuid4()` gives.
unfoldable pub json_error_handler : {V : Type 0} → Text → Exception V → ErrorResponse
unfolding has_class
json_error_handler fresh e =
    let status = or_else 500 e.status in
    let refid = or_else fresh e.refid in
    if has_class e.mro base_error
    then record {
      status_code = status;
      status = status;
      refid = refid;
      error = e.class_name ++ (codes ": " ++ e.message);
      logged = false;
    }
    else if has_class e.mro client_error
    then record {
      status_code = 502;
      status = 502;
      refid = refid;
      error = codes "BadGateway: received an invalid response from an upstream server.";
      logged = true;
    }
    else record {
      status_code = status;
      status = status;
      refid = refid;
      error = codes "Internal Server Error";
      logged = true;
    }
