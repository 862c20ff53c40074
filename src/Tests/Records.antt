-- ===== src/Tests/Records.antt =====
-- kh_common/exceptions/base_error.py, kh_common/utilities/json.py and kh_common/logging.py at concrete
-- inputs.
use kh_common.Prelude.{
  ℕ, ℕ_discrete, ◌≡◌, ◌≢◌, refl, some, none, List, [], ◌∷◌, Bool, true, false, inl, inr, ◌==◌,
  arith,
}
use kh_common.Prelude.Outcome.{Outcome, returned, raised, Yields}
use kh_common.Prelude.Text.{Text, Text-discrete, codes}
use kh_common.Prelude.Lists.{length}
use kh_common.Prelude.Dict.{Dict, get}
use kh_common.Exceptions.Refid.{
  Given, raw, other, text, bytes, Raw, UuidClass, RefidError, BaseError, init,
}
use kh_common.Exceptions.Refid.Settled.{UuidLaws, IsMade, init-IsMade}
use kh_common.Json
use kh_common.Json.{
  Value, json_stream, and_value, no_value, and_entry, no_entry, stream_values, stream_entries,
  is_truthy, set_entry, merge,
}
use kh_common.Json.Plain.{IsPlain, json_stream-IsPlain}
use kh_common.Logging.{LogError, retry_error, LogRecord, ErrorInfo, Call, emit, format}
use kh_common.Logging.Sent.{IsLogged, emit-IsLogged}

-- Two UUIDs, whose digits are all the same.
abbrev digits_of : Bool → Text
digits_of true = codes "00000000000000000000000000000000"
digits_of false = codes "11111111111111111111111111111111"

abbrev bytes_of : Bool → List ℕ
bytes_of true = codes "0000000000000000"
bytes_of false = codes "1111111111111111"

abbrev first_digit : List ℕ → Bool
first_digit [] = false
first_digit (d ∷ rest) = d == 48

abbrev read : Raw → Outcome RefidError Bool
read (text t) = returned (first_digit t)
read (bytes bs) = returned (first_digit bs)

abbrev uuids : UuidClass Bool
uuids = record { of_hex = read; of_bytes = read }

abbrev laws : UuidLaws uuids
laws = record {
  hex = digits_of;
  to_bytes = bytes_of;
  length-hex = λ u. elim u as (λ u. length (digits_of u) ≡ 32) [ true ↦ refl | false ↦ refl ];
  length-to_bytes = λ u. elim u as (λ u. length (bytes_of u) ≡ 16) [ true ↦ refl | false ↦ refl ];
  of_hex-hex = λ u. elim u as (λ u. uuids.of_hex (text (digits_of u)) ≡ returned u) [
    | true ↦ refl
    | false ↦ refl
  ];
  of_bytes-to_bytes = λ u. elim u as (λ u. uuids.of_bytes (bytes (bytes_of u)) ≡ returned u) [
    | true ↦ refl
    | false ↦ refl
  ];
}

-- The refid stands in the logdata, as its digits.
abbrev logdata : Dict Text (Given Bool ℕ)
logdata = (codes "url", other 1 true) ∷ (codes "refid", raw (text (digits_of false))) ∷ []

init-IsMade_example :
    (made : BaseError Bool ℕ) × (init uuids none logdata ((codes "status", other 5 true) ∷ []) true
      ≡ returned made)
    × IsMade uuids laws false logdata ((codes "status", other 5 true) ∷ []) made
unfolding get Text-discrete ℕ_discrete
init-IsMade_example =
    init-IsMade uuids laws false (raw (text (digits_of false))) none logdata
      ((codes "status", other 5 true) ∷ []) true (inr (inl refl)) (inr (refl, refl)) (ground arith)
      (ground arith)

-- A list with falsy elements, in a dictionary with an enum
abbrev entries : Json.Entries
entries =
    and_entry (codes "items")
      (Json.sequence Json.tuple (
        and_value (Json.number 0)
          (and_value (Json.uuid (codes "ab")) (and_value Json.null no_value))))
      (and_entry (codes "privacy") (Json.enum (codes "public")) no_entry)

abbrev value : Value
value = Json.dict entries

json_stream-IsPlain_example : Yields IsPlain (json_stream value)
json_stream-IsPlain_example = json_stream-IsPlain value (ground arith)

abbrev failure : ErrorInfo
failure = record {
  module_name = some (codes "kh_common.exceptions.http_error");
  class_name = codes "NotFound";
  message = codes "no such post";
  refid = some (codes "ab");
  stacktrace = codes "line 1" ∷ [];
  logdata = value;
}

abbrev log : LogRecord ℕ
log = record {
  msg = Json.text (codes "failed: %s");
  args = some 3;
  exc_info = some failure;
  levelname = codes "ERROR";
}

-- The agent raises RetryError.
abbrev percent : Text → ℕ → Outcome LogError Text
percent t n = returned (codes "failed: 3")

abbrev agent : Call → Outcome LogError (Unit {0})
agent call = raised retry_error

emit-IsLogged_example :
    IsLogged failure entries
      (Json.text (codes "failed: 3"))
      (codes "ERROR")
      (emit percent (λ v. []) agent log).0
    × ((emit percent (λ v. []) agent log).1 ≢ raised retry_error)
unfolding format
emit-IsLogged_example =
    emit-IsLogged percent (λ v. []) agent log failure entries (Json.text (codes "failed: 3")) refl
      refl refl (ground arith) tt
