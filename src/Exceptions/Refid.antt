-- ===== src/Exceptions/Refid.antt =====
-- `BaseError.__init__` of kh_common/exceptions/base_error.py: the forms of a refid, and the logdata.
-- `UUID` is a parameter, and so is the fresh one of `uuid4()`.
pub mod Settled
use kh_common.Prelude.{
  ℕ, zero, suc, Option, none, some, List, [], ◌∷◌, Bool, true, false, ◌==◌, if◌then◌else◌,
}
use kh_common.Prelude.Outcome.{Outcome, returned, raised, ◌>>=◌}
use kh_common.Prelude.Lists.{length}
use kh_common.Prelude.Dict
use kh_common.Prelude.Dict.{Dict}
use kh_common.Prelude.Text.{Text, Text-discrete, codes}

-- `ValueError('badly formed refid.')`, and what `UUID` raises
pub data RefidError : Type 0 where
  value_error : RefidError
  uuid_error : ℕ → RefidError

-- `str` or `bytes`
pub data Raw : Type 0 where
  text : Text → Raw
  bytes : List ℕ → Raw

-- A value of the logdata, or a refid; `other` is of another class, with its truth.
pub data Given (Uuid V : Type 0) : Type 0 where
  uuid : Uuid → Given Uuid V
  raw : Raw → Given Uuid V
  other : V → Bool → Given Uuid V

unfoldable pub size : Raw → ℕ
size (text t) = length t
size (bytes bs) = length bs

unfoldable pub is_truthy : {Uuid V : Type 0} → Given Uuid V → Bool
is_truthy (uuid u) = true
is_truthy (raw (text [])) = false
is_truthy (raw (bytes [])) = false
is_truthy (raw r) = true
is_truthy (other v b) = b

-- `a or b`, where `a` may be None
unfoldable pub either : {Uuid V : Type 0} → Option (Given Uuid V) → Given Uuid V → Given Uuid V
unfolding is_truthy
either none g = g
either (some g) h = if is_truthy g then g else h

-- The attributes of the exception, and what is left of the logdata that the caller passed
pub record BaseError (Uuid V : Type 0) : Type 0 where
  pub refid : Given Uuid V
  pub logdata : Dict Text (Given Uuid V)
  pub passed : Dict Text (Given Uuid V)

-- `UUID(hex=…)` and `UUID(bytes=…)`
pub record UuidClass (Uuid : Type 0) : Type 0 where
  pub of_hex : Raw → Outcome RefidError Uuid
  pub of_bytes : Raw → Outcome RefidError Uuid

module _ {Uuid V : Type 0} (uuids : UuidClass Uuid) where
  abbrev as_refid : Outcome RefidError Uuid → Outcome RefidError (Given Uuid V)
  as_refid (returned u) = returned (uuid u)
  as_refid (raised e) = raised e

  -- The `if` over the forms of the refid
  unfoldable pub settle : Given Uuid V → Outcome RefidError (Given Uuid V)
  unfolding size
  settle (uuid u) = returned (uuid u)
  settle (raw r) =
      if size r == 32
      then as_refid (uuids.of_hex r)
      else if size r == 16
      then as_refid (uuids.of_bytes r)
      else raised value_error
  settle (other v b) = returned (other v b)

  -- `BaseError.__init__`
  unfoldable pub init :
      Option (Given Uuid V)
      → Dict Text (Given Uuid V)
      → Dict Text (Given Uuid V)
      → Uuid
      → Outcome RefidError (BaseError Uuid V)
  unfolding either settle
  init refid logdata kwargs fresh = do
    settled ←
        settle (either refid (either (Dict.get Text-discrete (codes "refid") logdata) (uuid fresh)))
    returned (record {
      refid = settled;
      logdata =
          Dict.update Text-discrete (Dict.remove Text-discrete (codes "refid") logdata) kwargs;
      passed = Dict.remove Text-discrete (codes "refid") logdata;
    })
