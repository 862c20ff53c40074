-- ===== src/Sql/Query/Render.antt =====
-- kh_common/sql/query.py: the text and the parameters of a query. The asserts make both fallible: a
-- query must select something, and a join must have a condition.
use kh_common.Prelude.{ℕ, zero, suc, Option, none, some, List, [], ◌∷◌, ◌++◌, map, true, false}
use kh_common.Prelude.Outcome.{Outcome, returned, raised, ◌>>=◌, ◌>>◌}
use kh_common.Prelude.Text.{Text, codes, join_text}
use kh_common.Sql.Query.{
  Failure, assertion_error, Order, order_sql, join_sql, is_unary, operator_sql, Field, field_str,
  value_str, Operand, field, value, query, Where, compares, Wheres, no_where, and_where, Join,
  join_on, Joins, no_join, and_join, Query,
}

-- A parameter that is handed to the database: a value of the caller's, or a limit or offset.
pub data Param (V : Type 0) : Type 0 where
  user : V → Param V
  number : ℕ → Param V

-- `assert self._select` and `assert self._where`
abbrev pub check_some {ℓ} : {A : Type ℓ} → List A → Outcome Failure (Unit {0})
check_some [] = raised assertion_error
check_some (x ∷ xs) = returned tt

-- `if clauses: query += keyword + sep.join(clauses)`
unfoldable pub section_sql : Text → Text → List Text → Text
unfolding join_text
section_sql keyword sep [] = []
section_sql keyword sep (t ∷ ts) = keyword ++ join_text sep (t ∷ ts)

-- `if self._limit: query += ' LIMIT %s'`, and the same for the offset
unfoldable pub number_sql : Text → Option ℕ → Text
number_sql keyword none = []
number_sql keyword (some zero) = []
number_sql keyword (some (suc n)) = keyword ++ codes "%s"

unfoldable pub number_params : {V : Type 0} → Option ℕ → List (Param V)
number_params none = []
number_params (some zero) = []
number_params (some (suc n)) = number (suc n) ∷ []

unfoldable pub order_item : Field × Order → Text
unfolding field_str order_sql
order_item (f, o) = field_str f ++ (codes " " ++ order_sql o)

-- `__build_query__`, once the joins and conditions have been rendered
unfoldable pub assemble :
    Text
    → List Field
    → List Text
    → List Text
    → List Text
    → List Field
    → List (Field × Order)
    → Option ℕ
    → Option ℕ
    → Text
unfolding section_sql number_sql order_item
assemble table select joins where_ having group order limit offset =
    codes "SELECT "
    ++ (join_text (codes ",") (map field_str select)
        ++ (codes " FROM "
            ++ (table
                ++ (section_sql (codes " ") (codes " ") joins
                    ++ (section_sql (codes " WHERE ") (codes " AND ") where_
                        ++ (section_sql (codes " GROUP BY ") (codes ",") (map field_str group)
                            ++ (section_sql (codes " HAVING ") (codes " AND ") having
                                ++ (section_sql (codes " ORDER BY ") (codes ",")
                                      (map order_item order)
                                    ++ (number_sql (codes " LIMIT ") limit
                                        ++ number_sql (codes " OFFSET ") offset)))))))))

-- `Query.__str__`: the parentheses are there with and without a function.
unfoldable pub subquery_str : Option Text → Text → Text
subquery_str none body = codes "(" ++ (body ++ codes ")")
subquery_str (some f) body = f ++ (codes "(" ++ (body ++ codes ")"))

-- `_function`
abbrev pub function_of : {V : Type 0} → Query V → Option Text
function_of (Query.of t js sel ws hs g o l f function) = function

unfoldable mutual
  -- `str(operand)`
  pub operand_str : {V : Type 0} → Operand V → Outcome Failure Text
  operand_str (field f) = returned (field_str f)
  operand_str (value v function) = returned (value_str function)
  operand_str (query q) = do body ← build_query q; returned (subquery_str (function_of q) body)

  -- `Where.__str__`
  pub where_str : {V : Type 0} → Where V → Outcome Failure Text
  where_str (compares a op b) = do
    x ← operand_str a
    elim (is_unary op) [
      | true ↦ returned (x ++ operator_sql op)
      | false ↦ do y ← operand_str b; returned (x ++ (operator_sql op ++ y))
    ]

  -- `list(map(str, wheres))`
  pub wheres_str : {V : Type 0} → Wheres V → Outcome Failure (List Text)
  wheres_str no_where = returned []
  wheres_str (and_where w ws) = do x ← where_str w; xs ← wheres_str ws; returned (x ∷ xs)

  -- `Join.__str__`
  pub join_str : {V : Type 0} → Join V → Outcome Failure Text
  join_str (join_on how table ws) = do
    xs ← wheres_str ws
    check_some xs
    returned
        (join_sql how ++ (codes " " ++ (table ++ (codes " ON " ++ join_text (codes " AND ") xs))))

  pub joins_str : {V : Type 0} → Joins V → Outcome Failure (List Text)
  joins_str no_join = returned []
  joins_str (and_join j js) = do x ← join_str j; xs ← joins_str js; returned (x ∷ xs)

  -- `Query.__build_query__`
  pub build_query : {V : Type 0} → Query V → Outcome Failure Text
  build_query (Query.of table js select ws hs group order limit offset function) = do
    check_some select
    joins ← joins_str js
    wheres ← wheres_str ws
    havings ← wheres_str hs
    returned (assemble table select joins wheres havings group order limit offset)

unfoldable mutual
  -- `operand.params()`, where the operand has it
  pub operand_params : {V : Type 0} → Operand V → Outcome Failure (List (Param V))
  operand_params (field f) = returned []
  operand_params (value v function) = returned (user v ∷ [])
  operand_params (query q) = query_params q

  -- `Where.params`
  pub where_params : {V : Type 0} → Where V → Outcome Failure (List (Param V))
  where_params (compares a op b) = do
    xs ← operand_params a
    elim (is_unary op) [
      | true ↦ returned xs
      | false ↦ do ys ← operand_params b; returned (xs ++ ys)
    ]

  pub wheres_params : {V : Type 0} → Wheres V → Outcome Failure (List (Param V))
  wheres_params no_where = returned []
  wheres_params (and_where w ws) = do
    xs ← where_params w
    ys ← wheres_params ws
    returned (xs ++ ys)

  -- `Join.params`
  pub join_params : {V : Type 0} → Join V → Outcome Failure (List (Param V))
  join_params (join_on how table ws) = wheres_params ws

  pub joins_params : {V : Type 0} → Joins V → Outcome Failure (List (Param V))
  joins_params no_join = returned []
  joins_params (and_join j js) = do xs ← join_params j; ys ← joins_params js; returned (xs ++ ys)

  -- `Query.params`
  pub query_params : {V : Type 0} → Query V → Outcome Failure (List (Param V))
  query_params (Query.of table js select ws hs group order limit offset function) = do
    check_some select
    joins ← joins_params js
    wheres ← wheres_params ws
    havings ← wheres_params hs
    returned (joins ++ (wheres ++ (havings ++ (number_params limit ++ number_params offset))))

-- `Query.build`
unfoldable pub build : {V : Type 0} → Query V → Outcome Failure (Text × List (Param V))
build q = do sql ← build_query q; params ← query_params q; returned (sql ++ codes ";", params)
