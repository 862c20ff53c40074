-- ===== src/Sql/Connection.antt =====
-- `SqlInterface.query` and `Transaction` of kh_common/sql/__init__.py. The database driver is a
-- parameter: a state of the connection and of the database behind it, and the calls that the source
-- makes. The connection is the one of the class, which all objects share. Logging is left out, and a
-- query here is its text and parameters, already built and converted; Interface builds and converts.
pub mod Retry
pub mod Atomic
pub mod Interface
use kh_common.Prelude.{
  ℕ, zero, suc, ◌≡◌, Option, none, some, List, [], ◌∷◌, Bool, true, false, ltb, if◌then◌else◌,
}
use kh_common.Prelude.Outcome.{Outcome, returned, raised, ◌>>=◌}

-- `ConnectionException` of psycopg2; the UnboundLocalError of `cur.close()` where there is no
-- cursor; and any other exception.
pub data SqlError : Type 0 where
  connection_exception unbound_local : SqlError
  other_error : ℕ → SqlError

-- How the rows are fetched: `fetch_one`, else `fetch_all`, else nothing.
pub data Fetch : Type 0 where
  fetch_one fetch_all fetch_nothing : Fetch

-- Each call may change the state and may raise. `connect` is `dbConnect`, with the assignment of
-- the connection that it returns.
pub record Driver (Statement Row : Type 0) : Type 1 where
  pub State : Type 0
  pub Cursor : Type 0
  pub closed : State → Bool
  pub connect : State → Outcome SqlError State
  pub cursor : State → Outcome SqlError Cursor × State
  pub execute : Cursor → Statement → State → Outcome SqlError (Unit {0}) × State
  pub commit : State → Outcome SqlError (Unit {0}) × State
  pub rollback : State → Outcome SqlError (Unit {0}) × State
  pub fetchone : Cursor → State → Outcome SqlError (List Row) × State
  pub fetchall : Cursor → State → Outcome SqlError (List Row) × State
  pub close_cursor : Cursor → State → State

-- A computation that changes the state and may raise.
abbrev pub Run : Type 0 → Type 0 → Type 0
Run S A = S → Outcome SqlError A × S

abbrev pub bind : {S A B : Type 0} → Outcome SqlError A × S → (A → Run S B) → Outcome SqlError B × S
bind (returned a, s) k = k a s
bind (raised e, s) k = (raised e, s)

module _ {Statement Row : Type 0} (driver : Driver Statement Row) where
  open driver use {State, Cursor}

  abbrev pub connected : State → Outcome SqlError State → State
  connected old (returned s) = s
  connected old (raised e) = old

  -- `_sql_connect`, which never raises: where `dbConnect` fails, the old connection stays.
  unfoldable pub sql_connect : State → State
  sql_connect s = connected s (driver.connect s)

  -- `if SqlInterface._conn.closed`
  abbrev pub reopen : Bool → State → State
  reopen true s = sql_connect s
  reopen false s = s

  abbrev pub fetch : Fetch → Cursor → Run State (Option (List Row))
  fetch fetch_one cur s = bind (driver.fetchone cur s) λ rows s'. (returned (some rows), s')
  fetch fetch_all cur s = bind (driver.fetchall cur s) λ rows s'. (returned (some rows), s')
  fetch fetch_nothing cur s = (returned none, s)

  -- `commit` or `rollback`, which ends the transaction of a query that only reads
  abbrev pub finish : Bool → Run State (Unit {0})
  finish true s = driver.commit s
  finish false s = driver.rollback s

  -- The body of the `try` behind `cursor()`.
  unfoldable pub attempt : Statement → Bool → Fetch → Cursor → Run State (Option (List Row))
  attempt sql commit how cur s =
      bind (driver.execute cur sql s) λ u s1. bind (finish commit s1) λ v s2. fetch how cur s2

  -- `finally: cur.close()`, which fails where `cur` was never bound, and replaces what was to be
  -- returned or raised.
  unfoldable pub finally_ :
      {A : Type 0} → Option Cursor → Outcome SqlError A × State → Outcome SqlError A × State
  finally_ none (o, s) = (raised unbound_local, s)
  finally_ (some cur) (o, s) = (o, driver.close_cursor cur s)

  -- The roll back of the last `except`, whose own failure replaces the error.
  unfoldable pub recover : {A : Type 0} → SqlError → State → Outcome SqlError A × State
  recover e s = bind (driver.rollback s) λ u s'. (raised e, s')

  -- The `except` clauses; `again` is the query with one try less.
  unfoldable pub except :
      {A : Type 0} → Option (Run State A) → Outcome SqlError A × State → Outcome SqlError A × State
  unfolding recover
  except again (returned a, s) = (returned a, s)
  except (some retry) (raised connection_exception, s) = retry (sql_connect s)
  except none (raised connection_exception, s) = (raised connection_exception, s)
  except again (raised unbound_local, s) = recover unbound_local s
  except again (raised (other_error n), s) = recover (other_error n) s

  -- The `try` statement. `cursor` is opened first.
  unfoldable pub guarded :
      Option (Run State (Option (List Row)))
      → Statement
      → Bool
      → Fetch
      → Outcome SqlError Cursor × State
      → Outcome SqlError (Option (List Row)) × State
  unfolding attempt finally_ except
  guarded again sql commit how (returned cur, s) =
      finally_ (some cur) (except again (attempt sql commit how cur s))
  guarded again sql commit how (raised e, s) = finally_ none (except again (raised e, s))

  -- `SqlInterface.query`; the number is `maxretry - 1`, the reconnections that are left.
  unfoldable pub query :
      ℕ → Statement → Bool → Fetch → State → Outcome SqlError (Option (List Row)) × State
  unfolding guarded
  query zero sql commit how s =
      let s' = reopen (driver.closed s) s in guarded none sql commit how (driver.cursor s')
  query (suc retries) sql commit how s =
      let s' = reopen (driver.closed s) s in
      guarded (some (query retries sql commit how)) sql commit how (driver.cursor s')

  -- The `try` of `__enter__`; `again` is the rest of the loop.
  abbrev pub enter_or :
      Run State Cursor → Outcome SqlError Cursor × State → Outcome SqlError Cursor × State
  enter_or again (returned cur, s) = (returned cur, s)
  enter_or again (raised connection_exception, s) = again (sql_connect s)
  enter_or again (raised unbound_local, s) = (raised unbound_local, s)
  enter_or again (raised (other_error n), s) = (raised (other_error n), s)

  -- `Transaction.__enter__`, with the rounds that are left
  unfoldable pub enter : ℕ → State → Outcome SqlError Cursor × State
  enter zero s = (raised connection_exception, s)
  enter (suc rounds) s = enter_or (enter rounds) (driver.cursor s)

  -- `Transaction.__exit__`; `failed` is whether the block raised.
  unfoldable pub exit : Bool → Cursor → State → Outcome SqlError (Unit {0}) × State
  exit true cur s = bind (driver.rollback s) λ u s'. (returned tt, driver.close_cursor cur s')
  exit false cur s = (returned tt, driver.close_cursor cur s)

  -- `Transaction.query`
  unfoldable pub transaction_query :
      Statement → Fetch → Cursor → State → Outcome SqlError (Option (List Row)) × State
  transaction_query sql how cur s = bind (driver.execute cur sql s) λ u s'. fetch how cur s'

  -- `with transaction as t: t.query(…); …; t.commit()`: the statements in order, the first failure
  -- ending the block.
  unfoldable pub block : List Statement → Cursor → State → Outcome SqlError (Unit {0}) × State
  unfolding transaction_query
  block [] cur s = driver.commit s
  block (sql ∷ rest) cur s =
      bind (transaction_query sql fetch_nothing cur s) λ rows s'. block rest cur s'

  -- What leaves the `with`: an error of the block, unless the roll back fails.
  abbrev pub leave :
      Cursor → Outcome SqlError (Unit {0}) × State → Outcome SqlError (Unit {0}) × State
  leave cur (returned u, s) = exit false cur s
  leave cur (raised e, s) = bind (exit true cur s) λ u s'. (raised e, s')

  unfoldable pub run_transaction : List Statement → State → Outcome SqlError (Unit {0}) × State
  unfolding enter block exit
  run_transaction statements s = bind (enter 2 s) λ cur s'. leave cur (block statements cur s')
