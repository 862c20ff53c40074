-- ===== src/Sql/Connection/Interface.antt =====
-- `SqlInterface.query` and `Transaction.query` of kh_common/sql/__init__.py as they are called: with
-- a text and its parameters or with a query that is built first, and with the conversions of the
-- parameters. A type of Python is an element of `Class`, and `mro` lists those of a parameter.
pub mod Composed
use kh_common.Prelude.{ℕ, zero, suc, ◌≡◌, Option, none, some, List, [], ◌∷◌, map, Bool}
use kh_common.Prelude.Outcome.{Outcome, returned, raised}
use kh_common.Prelude.Text.{Text}
use kh_common.Sql.Query.{Query, Failure}
use kh_common.Sql.Query.Render.{Param, build}
use kh_common.Sql.Connection.{SqlError, Fetch, Driver, Run, reopen, guarded, transaction_query}

-- `Union[str, Query]`
pub data Sql (V : Type 0) : Type 0 where
  text : Text → Sql V
  built : Query V → Sql V

-- What leaves a query: the exception of `build`, or one from the database.
pub data QueryError : Type 0 where
  unbuilt : Failure → QueryError
  failed : SqlError → QueryError

abbrev pub Statement : Type 0 → Type 0
Statement V = Text × List (Param V)

-- `isinstance(sql, Query)`
unfoldable pub prepare : {V : Type 0} → Sql V → List (Param V) → Outcome Failure (Statement V)
prepare (text sql) params = returned (sql, params)
prepare (built q) params = build q

abbrev pub outcome_of : {A : Type 0} → Outcome SqlError A → Outcome QueryError A
outcome_of (returned a) = returned a
outcome_of (raised e) = raised (failed e)

abbrev pub escaped : {S A : Type 0} → Outcome SqlError A × S → Outcome QueryError A × S
escaped (o, s) = (outcome_of o, s)

module _ {V Class : Type 0} (conversions : Class → Option (Param V → Param V))
    (mro : Param V → List Class) where
  -- The loop of `_convert_item`
  unfoldable pub convert_by : List Class → Param V → Param V
  convert_by [] item = item
  convert_by (cls ∷ classes) item = elim (conversions cls) [
    | some conversion ↦ conversion item
    | none ↦ convert_by classes item
  ]

  unfoldable pub convert_item : Param V → Param V
  unfolding convert_by
  convert_item item = convert_by (mro item) item

  abbrev pub converted : Statement V → Statement V
  converted (sql, params) = (sql, map convert_item params)

  module _ {Row : Type 0} (driver : Driver (Statement V) Row) where
    open driver use {State, Cursor}

    -- `query` from the conversion of the parameters on. A retry is given the text and the converted
    -- parameters, which it converts again.
    unfoldable pub tries :
        ℕ → Statement V → Bool → Fetch → State → Outcome SqlError (Option (List Row)) × State
    unfolding convert_item guarded
    tries zero sql commit how s = guarded driver none (converted sql) commit how (driver.cursor s)
    tries (suc retries) sql commit how s =
        guarded driver
          (some
            (λ s'. tries retries (converted sql) commit how (reopen driver (driver.closed s') s')))
          (converted sql) commit how (driver.cursor s)

    -- `query` from the building on
    abbrev pub after_build :
        ℕ
        → Bool
        → Fetch
        → State
        → Outcome Failure (Statement V)
        → Outcome QueryError (Option (List Row)) × State
    after_build retries commit how s (returned sql) = escaped (tries retries sql commit how s)
    after_build retries commit how s (raised e) = (raised (unbuilt e), s)

    -- `SqlInterface.query`; the number is `maxretry - 1`.
    unfoldable pub query_sql :
        ℕ
        → Sql V
        → List (Param V)
        → Bool
        → Fetch
        → State
        → Outcome QueryError (Option (List Row)) × State
    unfolding prepare tries
    query_sql retries sql params commit how s =
        after_build retries commit how (reopen driver (driver.closed s) s) (prepare sql params)

    abbrev pub in_transaction :
        Fetch
        → Cursor
        → State
        → Outcome Failure (Statement V)
        → Outcome QueryError (Option (List Row)) × State
    in_transaction how cur s (returned sql) =
        escaped (transaction_query driver (converted sql) how cur s)
    in_transaction how cur s (raised e) = (raised (unbuilt e), s)

    -- `Transaction.query`
    unfoldable pub transaction_query_sql :
        Sql V
        → List (Param V)
        → Fetch
        → Cursor
        → State
        → Outcome QueryError (Option (List Row)) × State
    unfolding prepare convert_item
    transaction_query_sql sql params how cur s = in_transaction how cur s (prepare sql params)
