-- ===== src/Exceptions.antt =====
-- kh_common/exceptions: the error classes, and an exception as the code looks at one.
pub mod Handler
pub mod Refid
pub mod Response
pub mod Translation
use kh_common.Prelude.{ℕ, Option, none, some, List, [], ◌∷◌, Bool, true, false, ℕ_discrete}
use kh_common.Prelude.Text.{Text}

-- The classes of base_error.py and http_error.py, Python's `Exception`, aiohttp's `ClientError`, and
-- any other class by a number.
pub data Class : Type 0 where
  exception base_error http_error bad_request unauthorized forbidden not_found conflict : Class
  unsupported_media unprocessable_entity bad_gateway service_unavailable : Class
  internal_server_error response_not_ok bad_or_malformed_response client_error : Class
  other_class : ℕ → Class

unfoldable pub Class-discrete : Discrete Class
Class-discrete = hlevel ℕ_discrete

-- `status` of a class, where it has one
unfoldable pub class_status : Class → Option ℕ
class_status http_error = some 500
class_status bad_request = some 400
class_status unauthorized = some 401
class_status forbidden = some 403
class_status not_found = some 404
class_status conflict = some 409
class_status unsupported_media = some 415
class_status unprocessable_entity = some 422
class_status bad_gateway = some 502
class_status service_unavailable = some 503
class_status internal_server_error = some 500
class_status response_not_ok = some 500
class_status bad_or_malformed_response = some 500
class_status _ = none

-- `cls.__mro__` of the classes of http_error.py, up to `Exception`
abbrev pub http_mro : Class → List Class
http_mro http_error = http_error ∷ base_error ∷ exception ∷ []
http_mro cls = cls ∷ http_error ∷ base_error ∷ exception ∷ []

-- An exception: the name of its class, the classes of `type(e).__mro__`, `str(e)`, and the
-- attributes `status`, `refid` and `logdata`.
pub record Exception {ℓ} (V : Type ℓ) : Type ℓ where
  pub class_name : Text
  pub mro : List Class
  pub message : Text
  pub status : Option ℕ
  pub refid : Option Text
  pub logdata : List (Text × V)

-- `isinstance(e, cls)`
unfoldable pub has_class : List Class → Class → Bool
has_class [] cls = false
has_class (c ∷ mro) cls = elim (Class-discrete c cls) [ yes p ↦ true | no p ↦ has_class mro cls ]
