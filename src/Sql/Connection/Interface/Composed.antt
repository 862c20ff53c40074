-- ===== src/Sql/Connection/Interface/Composed.antt =====
-- A query that is built, converted and run by kh_common/sql.
use kh_common.Prelude.{◌≡◌, Option, List, map, Bool}
use kh_common.Prelude.Outcome.{Outcome, returned}
use kh_common.Prelude.Lists.{length}
use kh_common.Prelude.Text.{Text}
use kh_common.Sql.Query.{Query}
use kh_common.Sql.Query.Render.{Param, build}
use kh_common.Sql.Query.Percents.{percents}
use kh_common.Sql.Connection.{Fetch, Driver}
use kh_common.Sql.Connection.Retry.{IsAttempt}
use kh_common.Sql.Connection.Interface.{Statement, convert_item}

module _ {V Class : Type 0} (conversions : Class → Option (Param V → Param V))
    (mro : Param V → List Class) {Row : Type 0} (driver : Driver (Statement V) Row) (q : Query V)
    (commit : Bool) (how : Fetch) (rows : Option (List Row)) where
  -- The text that `build` gives was executed in one attempt, with its converted parameters, and has
  -- a placeholder for each.
  pub record IsAnswered : Type 0 where
    pub sql : Text
    pub params : List (Param V)
    pub made : build q ≡ returned (sql, params)
    pub placeholders : percents sql ≡ length (map (convert_item conversions mro) params)
    pub attempted :
        IsAttempt driver (sql, map (convert_item conversions mro) params) commit how rows

module _ {V Class : Type 0} (conversions : Class → Option (Param V → Param V))
    (mro : Param V → List Class) where
  -- A converted parameter is not converted further, as with the conversions that the interface has
  -- by itself, of tuples to lists and of bytes to what the driver makes of them.
  abbrev pub Settled : Type 0
  Settled =
      (item : Param V)
      → convert_item conversions mro (convert_item conversions mro item)
        ≡ convert_item conversions mro item
