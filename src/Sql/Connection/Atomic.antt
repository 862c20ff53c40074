-- ===== src/Sql/Connection/Atomic.antt =====
-- What is left of a transaction that fails.
use mathlib.Core.Path.{subst}
use kh_common.Prelude.{ℕ, zero, suc, ◌≡◌, refl, ◌∙◌, Option, List, [], ◌∷◌, true}
use kh_common.Prelude.Outcome.{Outcome, returned, raised}
use kh_common.Sql.Connection.{
  sql_connect, connected, SqlError, connection_exception, unbound_local, other_error, fetch_nothing,
  Driver, Run, bind, fetch, enter_or, enter, exit, transaction_query, block, leave, run_transaction,
}

module _ {Statement Row : Type 0} (driver : Driver Statement Row) where
  open driver use {State, Cursor}

  -- What is assumed of the database: what is committed is changed by a commit that returns, and by
  -- no other call. The connection `IsClean` if it has no work that is not committed: so is a new one,
  -- and any after a roll back, even one that fails, since that is for a connection that is lost; to open
  -- or close a cursor makes none, and where there is none a commit changes nothing.
  pub record IsTransactional (D : Type 0) (committed : State → D) (IsClean : State → Type 0)
      : Type 0 where
    pub connect_keeps : (s t : State) → driver.connect s ≡ returned t → committed t ≡ committed s
    pub cursor_keeps : (s : State) → committed (driver.cursor s).1 ≡ committed s
    pub execute_keeps :
        (c : Cursor) (q : Statement) (s : State) → committed (driver.execute c q s).1 ≡ committed s
    pub rollback_keeps : (s : State) → committed (driver.rollback s).1 ≡ committed s
    pub close_keeps : (c : Cursor) (s : State) → committed (driver.close_cursor c s) ≡ committed s
    pub commit_raised :
        (s t : State) (e : SqlError) → driver.commit s ≡ (raised e, t) → committed t ≡ committed s
    pub connect_clean : (s t : State) → driver.connect s ≡ returned t → IsClean t
    pub cursor_clean : (s : State) → IsClean s → IsClean (driver.cursor s).1
    pub rollback_clean : (s : State) → IsClean (driver.rollback s).1
    pub close_clean : (c : Cursor) (s : State) → IsClean s → IsClean (driver.close_cursor c s)
    pub commit_clean : (s : State) → IsClean s → committed (driver.commit s).1 ≡ committed s

  module _ {D : Type 0} {committed : State → D} {IsClean : State → Type 0}
      (law : IsTransactional D committed IsClean) where
    -- A run that raises leaves what is committed as it was at `d`.
    abbrev Kept : {A : Type 0} → D → Outcome SqlError A × State → Type 0
    Kept d (returned a, s) = Unit
    Kept d (raised e, s) = committed s ≡ d

    bind-Kept :
        {A B : Type 0} (d : D) (r : Outcome SqlError A × State) (k : A → Run State B)
        → committed r.1 ≡ d
        → ((a : A) (s : State) → committed s ≡ d → Kept d (k a s))
        → Kept d (bind r k)
    bind-Kept d (returned a, s) k h g = g a s h
    bind-Kept d (raised e, s) k h g = h

    connected-kept :
        (s : State) (o : Outcome SqlError State)
        → driver.connect s ≡ o
        → committed (connected driver s o) ≡ committed s
    connected-kept s (returned t) h = law.connect_keeps s t h
    connected-kept s (raised e) h = refl

    sql_connect-kept : (s : State) → committed (sql_connect driver s) ≡ committed s
    unfolding sql_connect
    sql_connect-kept s = connected-kept s (driver.connect s) refl

    enter_or-kept :
        (again : Run State Cursor) (r : Outcome SqlError Cursor × State)
        → ((s : State) → committed (again s).1 ≡ committed s)
        → committed (enter_or driver again r).1 ≡ committed r.1
    enter_or-kept again (returned cur, t) g = refl
    enter_or-kept again (raised connection_exception, t) g =
        g (sql_connect driver t) ∙ sql_connect-kept t
    enter_or-kept again (raised unbound_local, t) g = refl
    enter_or-kept again (raised (other_error n), t) g = refl

    enter-kept : (rounds : ℕ) (s : State) → committed (enter driver rounds s).1 ≡ committed s
    unfolding enter
    enter-kept zero s = refl
    enter-kept (suc rounds) s =
        enter_or-kept (enter driver rounds) (driver.cursor s) (enter-kept rounds)
        ∙ law.cursor_keeps s

    commit-Kept :
        (s : State) (r : Outcome SqlError (Unit {0}) × State)
        → driver.commit s ≡ r
        → Kept (committed s) r
    commit-Kept s (returned u, t) h = tt
    commit-Kept s (raised e, t) h = law.commit_raised s t e h

    block-Kept :
        (statements : List Statement) (cur : Cursor) (d : D) (s : State)
        → committed s ≡ d
        → Kept d (block driver statements cur s)
    unfolding block transaction_query
    block-Kept [] cur d s h =
        subst (λ c. Kept c (driver.commit s)) h (commit-Kept s (driver.commit s) refl)
    block-Kept (q ∷ rest) cur d s h =
        bind-Kept d (transaction_query driver q fetch_nothing cur s) _
          (executed (driver.execute cur q s) (law.execute_keeps cur q s ∙ h))
          λ rows s' h'. block-Kept rest cur d s' h'
      where
        executed :
            (r : Outcome SqlError (Unit {0}) × State)
            → committed r.1 ≡ d
            → committed (bind {B = Option (List Row)} r λ u s'. fetch driver fetch_nothing cur s').1
              ≡ d
        executed (returned u, s') g = g
        executed (raised e, s') g = g

    exit-kept :
        (cur : Cursor) (d : D) (s : State)
        → committed s ≡ d
        → committed (exit driver true cur s).1 ≡ d
    unfolding exit
    exit-kept cur d s h = closed (driver.rollback s) (law.rollback_keeps s ∙ h)
      where
        closed :
            (r : Outcome SqlError (Unit {0}) × State)
            → committed r.1 ≡ d
            → committed (bind {B = Unit {0}} r λ u s'. (returned tt, driver.close_cursor cur s')).1
              ≡ d
        closed (returned u, s') g = law.close_keeps cur s' ∙ g
        closed (raised e, s') g = g

    leave-Kept :
        (cur : Cursor) (d : D) (r : Outcome SqlError (Unit {0}) × State)
        → Kept d r
        → Kept d (leave driver cur r)
    unfolding exit
    leave-Kept cur d (returned u, s) k = tt
    leave-Kept cur d (raised e, s) k =
        bind-Kept d (exit driver true cur s) _ (exit-kept cur d s k) λ u s' h. h

    -- A run that raises leaves no work that is not committed.
    abbrev Cleaned : {A : Type 0} → Outcome SqlError A × State → Type 0
    Cleaned (returned a, s) = Unit
    Cleaned (raised e, s) = IsClean s

    connected-IsClean :
        (s : State) (o : Outcome SqlError State)
        → driver.connect s ≡ o
        → IsClean s
        → IsClean (connected driver s o)
    connected-IsClean s (returned t) h c = law.connect_clean s t h
    connected-IsClean s (raised e) h c = c

    sql_connect-IsClean : (s : State) → IsClean s → IsClean (sql_connect driver s)
    unfolding sql_connect
    sql_connect-IsClean s c = connected-IsClean s (driver.connect s) refl c

    enter_or-Cleaned :
        (again : Run State Cursor) (r : Outcome SqlError Cursor × State)
        → IsClean r.1
        → ((s : State) → IsClean s → Cleaned (again s))
        → Cleaned (enter_or driver again r)
    enter_or-Cleaned again (returned cur, t) c g = tt
    enter_or-Cleaned again (raised connection_exception, t) c g =
        g (sql_connect driver t) (sql_connect-IsClean t c)
    enter_or-Cleaned again (raised unbound_local, t) c g = c
    enter_or-Cleaned again (raised (other_error n), t) c g = c

    enter-Cleaned : (rounds : ℕ) (s : State) → IsClean s → Cleaned (enter driver rounds s)
    unfolding enter
    enter-Cleaned zero s c = c
    enter-Cleaned (suc rounds) s c =
        enter_or-Cleaned (enter driver rounds) (driver.cursor s) (law.cursor_clean s c)
          (enter-Cleaned rounds)

    exit-IsClean : (cur : Cursor) (s : State) → IsClean (exit driver true cur s).1
    unfolding exit
    exit-IsClean cur s = closed (driver.rollback s) (law.rollback_clean s)
      where
        closed :
            (r : Outcome SqlError (Unit {0}) × State)
            → IsClean r.1
            → IsClean (bind {B = Unit {0}} r λ u s'. (returned tt, driver.close_cursor cur s')).1
        closed (returned u, s') c = law.close_clean cur s' c
        closed (raised e, s') c = c

    raised-Cleaned :
        (e : SqlError) (r : Outcome SqlError (Unit {0}) × State)
        → IsClean r.1
        → Cleaned {A = Unit {0}} (bind r λ u s'. (raised e, s'))
    raised-Cleaned e (returned u, s) c = c
    raised-Cleaned e (raised x, s) c = c

    leave-Cleaned :
        (cur : Cursor) (r : Outcome SqlError (Unit {0}) × State) → Cleaned (leave driver cur r)
    unfolding exit
    leave-Cleaned cur (returned u, s) = tt
    leave-Cleaned cur (raised e, s) = raised-Cleaned e (exit driver true cur s) (exit-IsClean cur s)

    entered-Cleaned :
        (statements : List Statement) (r : Outcome SqlError Cursor × State)
        → Cleaned r
        → Cleaned (bind r λ cur s'. leave driver cur (block driver statements cur s'))
    entered-Cleaned statements (returned cur, s) c =
        leave-Cleaned cur (block driver statements cur s)
    entered-Cleaned statements (raised e, s) c = c

    -- A `with` block over a transaction on a connection without uncommitted work, whose one commit
    -- stands at its end: whenever it raises, at whatever point, what is committed in the database is as
    -- it was, and the connection is left without uncommitted work, so that a later commit does not
    -- commit any of the block's either.
    pub run_transaction_atomic :
        (statements : List Statement) (s t : State) (e : SqlError)
        → IsClean s
        → run_transaction driver statements s ≡ (raised e, t)
        → (committed t ≡ committed s) × IsClean t × (committed (driver.commit t).1 ≡ committed s)
    unfolding run_transaction
    run_transaction_atomic statements s t e c h =
        let kept : committed t ≡ committed s = subst (Kept (committed s)) h (
          bind-Kept (committed s) (enter driver 2 s) _ (enter-kept 2 s) λ cur s' k.
            leave-Kept cur (committed s) (block driver statements cur s')
              (block-Kept statements cur (committed s) s' k)) in
        let clean : IsClean t =
          subst Cleaned h (entered-Cleaned statements (enter driver 2 s) (enter-Cleaned 2 s c)) in
        (kept, clean, law.commit_clean t clean ∙ kept)
