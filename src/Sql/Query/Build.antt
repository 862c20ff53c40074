-- ===== src/Sql/Query/Build.antt =====
-- kh_common/sql/query.py: the methods that put a query together. Each returns the object, so each is
-- a function to the new query; `where`, `select` and the others take any number of arguments. The
-- checks of an argument's class hold by typing. Only numbers from 0 on are modelled for `records`
-- and `page`.
pub mod Made
use kh_common.Prelude.{
  ℕ, ◌-◌, ◌*◌, Option, none, some, List, [], ◌∷◌, ◌++◌, ◌==◌, ltb, if◌then◌else◌,
}
use kh_common.Prelude.Outcome.{Outcome, returned, raised}
use kh_common.Prelude.Text.{Text, codes, count, starts_with}
use kh_common.Sql.Query.{
  Failure, assertion_error, Order, Field, Where, Wheres, no_where, and_where, Join, join_on, Joins,
  no_join, and_join, Query,
}

-- `Table.__init__`: the text that stands for the table
unfoldable pub table : Text → Option Text → Outcome Failure Text
unfolding starts_with count
table string alias =
    if starts_with string (codes "kheina.")
    then (if count b'.' string == 2
        then returned (elim alias [
          | none ↦ string
          | some [] ↦ string
          | some (c ∷ a) ↦ string ++ (codes " AS " ++ (c ∷ a))
        ])
        else raised assertion_error)
    else raised assertion_error

module _ {V : Type 0} where
  -- `self._where.append(w)` for each argument
  pub append_where : Wheres V → List (Where V) → Wheres V
  append_where no_where [] = no_where
  append_where no_where (w ∷ more) = and_where w (append_where no_where more)
  append_where (and_where w ws) more = and_where w (append_where ws more)

  -- `Join.where`
  unfoldable pub join_where : Join V → List (Where V) → Join V
  unfolding append_where
  join_where (join_on how t ws) more = join_on how t (append_where ws more)

  pub append_join : Joins V → List (Join V) → Joins V
  append_join no_join [] = no_join
  append_join no_join (j ∷ more) = and_join j (append_join no_join more)
  append_join (and_join j js) more = and_join j (append_join js more)

  -- `Query.__init__`
  unfoldable pub init : Text → Query V
  init t = Query.of t no_join [] no_where no_where [] [] none none none

  unfoldable pub select : Query V → List Field → Query V
  select (Query.of t js sel ws hs g o l f fn) more = Query.of t js (sel ++ more) ws hs g o l f fn

  unfoldable pub join : Query V → List (Join V) → Query V
  unfolding append_join
  join (Query.of t js sel ws hs g o l f fn) more =
      Query.of t (append_join js more) sel ws hs g o l f fn

  unfoldable pub where_ : Query V → List (Where V) → Query V
  unfolding append_where
  where_ (Query.of t js sel ws hs g o l f fn) more =
      Query.of t js sel (append_where ws more) hs g o l f fn

  unfoldable pub group : Query V → List Field → Query V
  group (Query.of t js sel ws hs g o l f fn) more = Query.of t js sel ws hs (g ++ more) o l f fn

  unfoldable pub having : Query V → List (Where V) → Query V
  unfolding append_where
  having (Query.of t js sel ws hs g o l f fn) more =
      Query.of t js sel ws (append_where hs more) g o l f fn

  unfoldable pub order : Query V → Field → Order → Query V
  order (Query.of t js sel ws hs g o l f fn) field how =
      Query.of t js sel ws hs g (o ++ (field, how) ∷ []) l f fn

  unfoldable pub limit : Query V → ℕ → Outcome Failure (Query V)
  limit (Query.of t js sel ws hs g o l f fn) records =
      if ltb 0 records
      then returned (Query.of t js sel ws hs g o (some records) f fn)
      else raised assertion_error

  unfoldable pub offset : Query V → ℕ → Outcome Failure (Query V)
  offset (Query.of t js sel ws hs g o l f fn) records =
      if ltb 0 records
      then returned (Query.of t js sel ws hs g o l (some records) fn)
      else raised assertion_error

  -- `assert self._limit and self._limit > 0`
  unfoldable pub page : Query V → ℕ → Outcome Failure (Query V)
  page (Query.of t js sel ws hs g o none f fn) number = raised assertion_error
  page (Query.of t js sel ws hs g o (some l) f fn) number =
      if ltb 0 number
      then (if ltb 0 l
          then returned (Query.of t js sel ws hs g o (some l) (some (l * (number - 1))) fn)
          else raised assertion_error)
      else raised assertion_error

  unfoldable pub function : Query V → Text → Query V
  function (Query.of t js sel ws hs g o l f fn) name = Query.of t js sel ws hs g o l f (some name)
