-- ===== src/Tests/Database.antt =====
-- kh_common/sql/__init__.py over a database that counts its rows.
use kh_common.Prelude.{
  arith, ℕ, zero, suc, ◌+◌, ◌≡◌, refl, sym, ap, Option, some, none, List, [], ◌∷◌, false,
}
use kh_common.Prelude.Outcome.{Outcome, returned, raised}
use kh_common.Sql.Connection.{
  SqlError, connection_exception, other_error, Driver, enter, exit, block, transaction_query,
  run_transaction, sql_connect,
}
use kh_common.Prelude.Text.{codes}
use kh_common.Sql.Query.{Query, Field, no_join, no_where, and_where, compares, field, value, equal}
use kh_common.Sql.Query.Render.{Param, user, number}
use kh_common.Sql.Connection.Interface.{Statement}
use kh_common.Sql.Connection.Atomic.{IsTransactional, run_transaction_atomic}

-- The rows that are committed, those of the open transaction, and how many calls fail first.
pub record Rows : Type 0 where
  pub committed : ℕ
  pub pending : ℕ
  pub lost : ℕ

abbrev open_cursor : ℕ → Rows → Outcome SqlError (Unit {0}) × Rows
open_cursor zero s = (returned tt, s)
open_cursor (suc n) s = (raised connection_exception, record s { lost = n })

-- Statement 0 is refused, and any other adds that many rows.
abbrev run : ℕ → Rows → Outcome SqlError (Unit {0}) × Rows
run zero s = (raised (other_error 1), s)
run (suc n) s = (returned tt, record s { pending = s.pending + suc n })

abbrev rows : Driver ℕ ℕ
rows = record {
  State = Rows;
  Cursor = Unit {0};
  closed = λ s. false;
  connect = λ s. returned (record s { pending = 0 });
  cursor = λ s. open_cursor s.lost s;
  execute = λ c q s. run q s;
  commit = λ s. (returned tt, record s { committed = s.committed + s.pending; pending = 0 });
  rollback = λ s. (returned tt, record s { pending = 0 });
  fetchone = λ c s. (returned (s.committed ∷ []), s);
  fetchall = λ c s. (returned (s.committed ∷ []), s);
  close_cursor = λ c s. s;
}

abbrev start : Rows
start = record { committed = 4; pending = 0; lost = 0 }

-- The connection is lost once before the transaction.
abbrev lost_once : Rows
lost_once = record { committed = 4; pending = 0; lost = 1 }

-- A type of parameters, number 1, is converted.
abbrev conversions : ℕ → Option (Param ℕ → Param ℕ)
conversions zero = none
conversions (suc zero) = some (λ p. user 0)
conversions (suc (suc n)) = none

abbrev mro : Param ℕ → List ℕ
mro (user n) = n ∷ 9 ∷ []
mro (number n) = []

-- The connection is lost in the first executions.
abbrev execute_lost : ℕ → Rows → Outcome SqlError (Unit {0}) × Rows
execute_lost zero s = (returned tt, s)
execute_lost (suc n) s = (raised connection_exception, record s { lost = n })

abbrev losing : Driver (Statement ℕ) ℕ
losing = record {
  State = Rows;
  Cursor = Unit {0};
  closed = λ s. false;
  connect = λ s. returned s;
  cursor = λ s. (returned tt, s);
  execute = λ c q s. execute_lost s.lost s;
  commit = λ s. (returned tt, s);
  rollback = λ s. (returned tt, s);
  fetchone = λ c s. (returned (s.committed ∷ []), s);
  fetchall = λ c s. (returned (s.committed ∷ []), s);
  close_cursor = λ c s. s;
}

abbrev id_field : Field
id_field = record { table = codes "tags"; column = codes "id"; function = none }

abbrev tags : Query ℕ
tags =
    Query.of (codes "kheina.public.tags") no_join (id_field ∷ [])
      (and_where (compares (field id_field) equal (value 1 none)) no_where) no_where [] [] (some 5)
      none none

open_cursor_keeps : (n : ℕ) (s : Rows) → (open_cursor n s).1.committed ≡ s.committed
open_cursor_keeps zero s = refl
open_cursor_keeps (suc n) s = refl

run_keeps : (q : ℕ) (s : Rows) → (run q s).1.committed ≡ s.committed
run_keeps zero s = refl
run_keeps (suc n) s = refl

abbrev kept : Outcome SqlError Rows → ℕ
kept (returned s) = s.committed
kept (raised e) = 0

abbrev pending_of : Outcome SqlError Rows → ℕ
pending_of (returned s) = s.pending
pending_of (raised e) = 0

open_cursor_clean : (n : ℕ) (s : Rows) → s.pending ≡ 0 → (open_cursor n s).1.pending ≡ 0
open_cursor_clean zero s h = h
open_cursor_clean (suc n) s h = h

rows-IsTransactional : IsTransactional rows ℕ (λ s. s.committed) (λ s. s.pending ≡ 0)
rows-IsTransactional = record {
  connect_keeps = λ s t h. sym (ap kept h);
  cursor_keeps = λ s. open_cursor_keeps s.lost s;
  execute_keeps = λ c q s. run_keeps q s;
  rollback_keeps = λ s. refl;
  close_keeps = λ c s. refl;
  commit_raised = λ s t e h. cc;
  connect_clean = λ s t h. sym (ap pending_of h);
  cursor_clean = λ s c. open_cursor_clean s.lost s c;
  rollback_clean = λ s. refl;
  close_clean = λ c s h. h;
  commit_clean = λ s h. omega (arith, h);
}

run_transaction_atomic_example :
    (start.committed ≡ lost_once.committed)
    × (start.pending ≡ 0)
    × ((rows.commit start).1.committed ≡ lost_once.committed)
unfolding run_transaction enter exit block transaction_query sql_connect
run_transaction_atomic_example =
    run_transaction_atomic rows rows-IsTransactional (3 ∷ 0 ∷ []) lost_once start (other_error 1)
      refl refl
