-- ===== src/Sql/Connection/Retry.antt =====
-- What a query of `SqlInterface` that returns has done, and what is left of a transaction that fails.
use mathlib.Core.Path.{subst}
use kh_common.Prelude.{ℕ, zero, suc, ◌≡◌, refl, Option, none, some, List, Bool, false}
use kh_common.Prelude.Outcome.{Outcome, returned, raised}
use kh_common.Sql.Connection.{
  SqlError, connection_exception, unbound_local, other_error, Fetch, Driver, Run, bind, attempt,
  finally_, recover, except, guarded, query, sql_connect,
}

module _ {Statement Row : Type 0} (driver : Driver Statement Row) where
  open driver use {State, Cursor}

  -- One whole attempt, on one cursor, that gave these rows.
  pub record IsAttempt (sql : Statement) (commit : Bool) (how : Fetch) (rows : Option (List Row))
      : Type 0 where
    pub before : State
    pub opened : State
    pub after : State
    pub cur : Cursor
    pub cursor_opened : driver.cursor before ≡ (returned cur, opened)
    pub attempted : attempt driver sql commit how cur opened ≡ (returned rows, after)

  abbrev Goal : Statement → Bool → Fetch → Outcome SqlError (Option (List Row)) × State → Type 0
  Goal sql commit how (returned rows, s) = IsAttempt sql commit how rows
  Goal sql commit how (raised e, s) = Unit

  recover-Goal :
      (sql : Statement) (commit : Bool) (how : Fetch) (e : SqlError) (s : State)
      → Goal sql commit how (recover driver e s)
  unfolding recover
  recover-Goal sql commit how e s = from (driver.rollback s)
    where
      from :
          (r : Outcome SqlError (Unit {0}) × State)
          → Goal sql commit how (bind r λ u s'. (raised e, s'))
      from (returned u, s') = tt
      from (raised e', s') = tt

  finally-Goal :
      (sql : Statement) (commit : Bool) (how : Fetch) (c : Option Cursor)
      (r : Outcome SqlError (Option (List Row)) × State)
      → Goal sql commit how r
      → Goal sql commit how (finally_ driver c r)
  unfolding finally_
  finally-Goal sql commit how none (o, s) g = tt
  finally-Goal sql commit how (some cur) (returned rows, s) g = g
  finally-Goal sql commit how (some cur) (raised e, s) g = tt

  -- The tries that are left give an attempt if they return.
  abbrev Again : Statement → Bool → Fetch → Option (Run State (Option (List Row))) → Type 0
  Again sql commit how none = Unit
  Again sql commit how (some retry) = (s : State) → Goal sql commit how (retry s)

  except-Goal :
      (sql : Statement) (commit : Bool) (how : Fetch)
      (again : Option (Run State (Option (List Row))))
      (r : Outcome SqlError (Option (List Row)) × State)
      → Again sql commit how again
      → Goal sql commit how r
      → Goal sql commit how (except driver again r)
  unfolding except
  except-Goal sql commit how again (returned rows, s) a g = g
  except-Goal sql commit how (some retry) (raised connection_exception, s) a g =
      a (sql_connect driver s)
  except-Goal sql commit how none (raised connection_exception, s) a g = tt
  except-Goal sql commit how again (raised unbound_local, s) a g =
      recover-Goal sql commit how unbound_local s
  except-Goal sql commit how again (raised (other_error n), s) a g =
      recover-Goal sql commit how (other_error n) s

  attempt-Goal :
      (sql : Statement) (commit : Bool) (how : Fetch) (cur : Cursor) (before opened : State)
      (r : Outcome SqlError (Option (List Row)) × State)
      → driver.cursor before ≡ (returned cur, opened)
      → attempt driver sql commit how cur opened ≡ r
      → Goal sql commit how r
  attempt-Goal sql commit how cur before opened (returned rows, after) e h = record {
    before = before;
    opened = opened;
    after = after;
    cur = cur;
    cursor_opened = e;
    attempted = h;
  }
  attempt-Goal sql commit how cur before opened (raised x, after) e h = tt

  guarded-Goal :
      (sql : Statement) (commit : Bool) (how : Fetch)
      (again : Option (Run State (Option (List Row)))) (before : State)
      (r : Outcome SqlError Cursor × State)
      → Again sql commit how again
      → driver.cursor before ≡ r
      → Goal sql commit how (guarded driver again sql commit how r)
  unfolding guarded
  guarded-Goal sql commit how again before (returned cur, opened) a e =
      finally-Goal sql commit how (some cur) _ (
        except-Goal sql commit how again (attempt driver sql commit how cur opened) a
          (attempt-Goal sql commit how cur before opened _ e refl))
  guarded-Goal sql commit how again before (raised x, opened) a e =
      finally-Goal sql commit how none _ (except-Goal sql commit how again (raised x, opened) a tt)

  query-Goal :
      (retries : ℕ) (sql : Statement) (commit : Bool) (how : Fetch) (s : State)
      → Goal sql commit how (query driver retries sql commit how s)
  unfolding query
  query-Goal zero sql commit how s = guarded-Goal sql commit how none _ _ tt refl
  query-Goal (suc retries) sql commit how s =
      guarded-Goal sql commit how (some (query driver retries sql commit how)) _ _
        (query-Goal retries sql commit how) refl

  -- Whatever the driver does and however often the connection is lost, a query that returns gives
  -- the result of one whole attempt on one cursor: the statement executed, the transaction
  -- committed or rolled back, and the rows fetched, none of which raised.
  pub query-IsAttempt :
      (retries : ℕ) (sql : Statement) (commit : Bool) (how : Fetch) (s t : State)
      (rows : Option (List Row))
      → query driver retries sql commit how s ≡ (returned rows, t)
      → IsAttempt sql commit how rows
  query-IsAttempt retries sql commit how s t rows h =
      subst (Goal sql commit how) h (query-Goal retries sql commit how s)

  finally-unbound :
      {A : Type 0} (r : Outcome SqlError A × State)
      → (finally_ driver none r).0 ≡ raised unbound_local
  unfolding finally_
  finally-unbound (o, s) = refl

  guarded-unbound :
      (sql : Statement) (commit : Bool) (how : Fetch)
      (again : Option (Run State (Option (List Row)))) (e : SqlError) (s : State)
      (r : Outcome SqlError Cursor × State)
      → r ≡ (raised e, s)
      → (guarded driver again sql commit how r).0 ≡ raised unbound_local
  unfolding guarded
  guarded-unbound sql commit how again e s r h =
      rw h (finally-unbound (except driver again (raised e, s)))

  -- Where `cursor()` raises on an open connection, the query raises UnboundLocalError, however many
  -- tries are left and even if a later try succeeds.
  pub query_unbound :
      (retries : ℕ) (sql : Statement) (commit : Bool) (how : Fetch) (s t : State) (e : SqlError)
      → driver.closed s ≡ false
      → driver.cursor s ≡ (raised e, t)
      → (query driver retries sql commit how s).0 ≡ raised unbound_local
  unfolding query
  query_unbound zero sql commit how s t e c h = rw c (guarded-unbound sql commit how none e t _ h)
  query_unbound (suc retries) sql commit how s t e c h =
      rw c (guarded-unbound sql commit how (some (query driver retries sql commit how)) e t _ h)
