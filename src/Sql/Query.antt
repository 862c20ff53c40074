-- ===== src/Sql/Query.antt =====
-- kh_common/sql/query.py: the parts of a query and the rendering of a query to text and parameters.
-- The type of the values that a query compares with is the parameter `V`. `None` and the empty
-- text both fail the tests `if self.function` and `if alias`, and so do `None` and 0 those of
-- `_limit` and `_offset`.
pub mod Render
pub mod Totality
pub mod Build
pub mod Percents
pub mod Placeholders
use kh_common.Prelude.{
  ℕ, zero, suc, Option, none, some, List, [], ◌∷◌, ◌++◌, map, Bool, true, false,
}
use kh_common.Prelude.Outcome.{Outcome, returned, raised, ◌>>=◌, ◌>>◌}
use kh_common.Prelude.Text.{Text, codes, join_text}

pub data Failure : Type 0 where
  assertion_error : Failure

pub data Order : Type 0 where
  ascending ascending_nulls_first ascending_nulls_last : Order
  descending descending_nulls_first descending_nulls_last : Order

unfoldable pub order_sql : Order → Text
order_sql ascending = codes "ASC"
order_sql ascending_nulls_first = codes "ASC NULLS FIRST"
order_sql ascending_nulls_last = codes "ASC NULLS LAST"
order_sql descending = codes "DESC"
order_sql descending_nulls_first = codes "DESC NULLS FIRST"
order_sql descending_nulls_last = codes "DESC NULLS LAST"

pub data JoinType : Type 0 where
  inner outer cross left right : JoinType

unfoldable pub join_sql : JoinType → Text
join_sql inner = codes "INNER JOIN"
join_sql outer = codes "FULL OUTER JOIN"
join_sql cross = codes "CROSS JOIN"
join_sql left = codes "LEFT JOIN"
join_sql right = codes "RIGHT JOIN"

pub data Operator : Type 0 where
  equal not_equal greater_than greater_than_equal_to less_than less_than_equal_to : Operator
  like not_like within not_in is_null is_not_null : Operator

-- `operator in { Operator.is_null, Operator.is_not_null }`
abbrev pub is_unary : Operator → Bool
is_unary is_null = true
is_unary is_not_null = true
is_unary _ = false

-- What stands between, or behind, the places of the operator's template.
unfoldable pub operator_sql : Operator → Text
operator_sql equal = codes " = "
operator_sql not_equal = codes " != "
operator_sql greater_than = codes " > "
operator_sql greater_than_equal_to = codes " >= "
operator_sql less_than = codes " < "
operator_sql less_than_equal_to = codes " <= "
operator_sql like = codes " LIKE "
operator_sql not_like = codes " NOT LIKE "
operator_sql within = codes " IN "
operator_sql not_in = codes " NOT IN "
operator_sql is_null = codes " IS NULL"
operator_sql is_not_null = codes " IS NOT NULL"

pub record Field : Type 0 where
  pub table : Text
  pub column : Text
  pub function : Option Text

-- `f'{function}({body})'` if the function is set
unfoldable pub apply_function : Option Text → Text → Text
apply_function none body = body
apply_function (some []) body = body
apply_function (some (c ∷ f)) body = (c ∷ f) ++ (codes "(" ++ (body ++ codes ")"))

-- `Field.__str__`
unfoldable pub field_str : Field → Text
unfolding apply_function
field_str f = apply_function f.function (f.table ++ (codes "." ++ f.column))

-- `Value.__str__`
unfoldable pub value_str : Option Text → Text
unfolding apply_function
value_str function = apply_function function (codes "%s")

mutual
  -- `Union[Field, Value, Query]`
  pub data Operand (V : Type 0) : Type 0 where
    field : Field → Operand V
    value : V → Option Text → Operand V
    query : Query V → Operand V

  pub data Where (V : Type 0) : Type 0 where
    compares : Operand V → Operator → Operand V → Where V

  pub data Wheres (V : Type 0) : Type 0 where
    no_where : Wheres V
    and_where : Where V → Wheres V → Wheres V

  pub data Join (V : Type 0) : Type 0 where
    join_on : JoinType → Text → Wheres V → Join V

  pub data Joins (V : Type 0) : Type 0 where
    no_join : Joins V
    and_join : Join V → Joins V → Joins V

  -- `_table`, `_joins`, `_select`, `_where`, `_having`, `_group`, `_order`, `_limit`, `_offset`,
  -- `_function`
  pub data Query (V : Type 0) : Type 0 where
    of :
        Text
        → Joins V
        → List Field
        → Wheres V
        → Wheres V
        → List Field
        → List (Field × Order)
        → Option ℕ
        → Option ℕ
        → Option Text
        → Query V
