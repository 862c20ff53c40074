-- ===== src/Sql/Query/Percents.antt =====
-- The percent signs in the rendered parts of a query of kh_common/sql/query.py whose names have none.
use kh_common.Prelude.{
  ◌∙◌, ℕ, zero, suc, ◌+◌, ◌≡◌, refl, Option, none, some, List, [], ◌∷◌, ◌++◌, map, arith,
}
use kh_common.Prelude.Lists.{length, All}
use kh_common.Prelude.Text.{codes, Text, count, total, join_text, count-append, count-join_text}
use kh_common.Sql.Query.{
  Order, order_sql, JoinType, join_sql, Operator, operator_sql, Field, apply_function, field_str,
  value_str, Operand, field, value, query, Where, compares, Wheres, no_where, and_where, Join,
  join_on, Joins, no_join, and_join, Query,
}
use kh_common.Sql.Query.Render.{
  section_sql, number_sql, number_params, order_item, assemble, subquery_str,
}

-- The number of percent signs. Every placeholder is `%s`.
abbrev pub percents : Text → ℕ
percents = count b'%'

abbrev pub Plain : Text → Type 0
Plain t = percents t ≡ 0

abbrev pub PlainFunction : Option Text → Type 0
PlainFunction none = Unit
PlainFunction (some f) = Plain f

abbrev pub PlainField : Field → Type 0
PlainField f = Plain f.table × Plain f.column × PlainFunction f.function

-- No name in the query holds a percent sign.
abbrev mutual
  pub PlainOperand : {V : Type 0} → Operand V → Type 0
  PlainOperand (field f) = PlainField f
  PlainOperand (value v function) = PlainFunction function
  PlainOperand (query q) = PlainQuery q

  pub PlainWhere : {V : Type 0} → Where V → Type 0
  PlainWhere (compares a op b) = PlainOperand a × PlainOperand b

  pub PlainWheres : {V : Type 0} → Wheres V → Type 0
  PlainWheres no_where = Unit
  PlainWheres (and_where w ws) = PlainWhere w × PlainWheres ws

  pub PlainJoin : {V : Type 0} → Join V → Type 0
  PlainJoin (join_on how table ws) = Plain table × PlainWheres ws

  pub PlainJoins : {V : Type 0} → Joins V → Type 0
  PlainJoins no_join = Unit
  PlainJoins (and_join j js) = PlainJoin j × PlainJoins js

  pub PlainQuery : {V : Type 0} → Query V → Type 0
  PlainQuery (Query.of table js select ws hs group order limit offset function) =
      Plain table
      × PlainJoins js
      × All PlainField select
      × PlainWheres ws
      × PlainWheres hs
      × All PlainField group
      × All (λ x. PlainField x.0) order
      × PlainFunction function

pub percents-order_sql : (o : Order) → percents (order_sql o) ≡ 0
unfolding order_sql count
percents-order_sql Order.ascending = refl
percents-order_sql _ = refl

pub percents-join_sql : (j : JoinType) → percents (join_sql j) ≡ 0
unfolding join_sql count
percents-join_sql JoinType.inner = refl
percents-join_sql _ = refl

pub percents-operator_sql : (o : Operator) → percents (operator_sql o) ≡ 0
unfolding operator_sql count
percents-operator_sql Operator.equal = refl
percents-operator_sql _ = refl

pub percents-apply_function :
    (fn : Option Text) (body : Text)
    → PlainFunction fn
    → percents (apply_function fn body) ≡ percents body
unfolding apply_function count
percents-apply_function none body p = refl
percents-apply_function (some []) body p = refl
percents-apply_function (some (c ∷ f)) body p =
    count-append b'%' (c ∷ f) (b'(' ∷ (body ++ b')' ∷ []))
    ∙ omega (arith, count-append b'%' body (b')' ∷ []))

pub percents-subquery_str :
    (fn : Option Text) (body : Text)
    → PlainFunction fn
    → percents (subquery_str fn body) ≡ percents body
unfolding subquery_str count
percents-subquery_str none body p = omega (arith, count-append b'%' body (b')' ∷ []))
percents-subquery_str (some f) body p =
    count-append b'%' f (b'(' ∷ (body ++ b')' ∷ []))
    ∙ omega (arith, count-append b'%' body (b')' ∷ []))

pub percents-field_str : (f : Field) → PlainField f → percents (field_str f) ≡ 0
unfolding field_str count
percents-field_str f p =
    percents-apply_function f.function (f.table ++ b'.' ∷ f.column) p.2
    ∙ omega (arith, count-append b'%' f.table (b'.' ∷ f.column))

pub percents-value_str : (fn : Option Text) → PlainFunction fn → percents (value_str fn) ≡ 1
unfolding value_str count
percents-value_str fn p = percents-apply_function fn (b'%' ∷ b's' ∷ []) p

pub total-map-field_str : (fs : List Field) → All PlainField fs → total b'%' (map field_str fs) ≡ 0
unfolding total
total-map-field_str [] p = refl
total-map-field_str (f ∷ fs) p = omega (arith, percents-field_str f p.0, total-map-field_str fs p.1)

pub percents-order_item : (x : Field × Order) → PlainField x.0 → percents (order_item x) ≡ 0
unfolding order_item count
percents-order_item (f, o) p =
    count-append b'%' (field_str f) (b' ' ∷ order_sql o)
    ∙ omega (arith, percents-field_str f p, percents-order_sql o)

pub total-map-order_item :
    (xs : List (Field × Order)) → All (λ x. PlainField x.0) xs → total b'%' (map order_item xs) ≡ 0
unfolding total
total-map-order_item [] p = refl
total-map-order_item (x ∷ xs) p =
    omega (arith, percents-order_item x p.0, total-map-order_item xs p.1)

pub percents-section_sql :
    (keyword sep : Text) (ts : List Text)
    → Plain keyword
    → Plain sep
    → percents (section_sql keyword sep ts) ≡ total b'%' ts
unfolding section_sql total count
percents-section_sql keyword sep [] p q = refl
percents-section_sql keyword sep (t ∷ ts) p q =
    count-append b'%' keyword (join_text sep (t ∷ ts))
    ∙ omega (arith, count-join_text b'%' sep (t ∷ ts) q)

pub percents-number_sql :
    (V : Type 0) (keyword : Text) (n : Option ℕ)
    → Plain keyword
    → percents (number_sql keyword n) ≡ length (number_params {V = V} n)
unfolding number_sql number_params count
percents-number_sql V keyword none p = refl
percents-number_sql V keyword (some zero) p = refl
percents-number_sql V keyword (some (suc n)) p =
    count-append b'%' keyword (b'%' ∷ b's' ∷ []) ∙ omega arith

pub percents-assemble :
    (V : Type 0) (table : Text) (select group : List Field) (js ws hs : List Text)
    (order : List (Field × Order)) (limit offset : Option ℕ)
    → Plain table
    → All PlainField select
    → All PlainField group
    → All (λ x. PlainField x.0) order
    → percents (assemble table select js ws hs group order limit offset)
      ≡ total b'%' js
        + total b'%' ws
        + total b'%' hs
        + length (number_params {V = V} limit)
        + length (number_params {V = V} offset)
unfolding assemble count
percents-assemble V table select group js ws hs order limit offset pt ps pg po = simp count-append (
    omega (
      arith,
      count-join_text b'%' (codes ",") (map field_str select) refl,
      total-map-field_str select ps,
      total-map-field_str group pg,
      total-map-order_item order po,
      percents-section_sql (codes " ") (codes " ") js refl refl,
      percents-section_sql (codes " WHERE ") (codes " AND ") ws refl refl,
      percents-section_sql (codes " GROUP BY ") (codes ",") (map field_str group) refl refl,
      percents-section_sql (codes " HAVING ") (codes " AND ") hs refl refl,
      percents-section_sql (codes " ORDER BY ") (codes ",") (map order_item order) refl refl,
      percents-number_sql V (codes " LIMIT ") limit refl,
      percents-number_sql V (codes " OFFSET ") offset refl,
    ))

pub percents-join :
    (how : JoinType) (table : Text) (xs : List Text)
    → Plain table
    → percents
        (join_sql how ++ (codes " " ++ (table ++ (codes " ON " ++ join_text (codes " AND ") xs))))
      ≡ total b'%' xs
unfolding count
percents-join how table xs p =
    simp count-append
      (omega (arith, percents-join_sql how, count-join_text b'%' (codes " AND ") xs refl))

pub percents-unary : (op : Operator) (x : Text) → percents (x ++ operator_sql op) ≡ percents x
percents-unary op x = omega (arith, count-append b'%' x (operator_sql op), percents-operator_sql op)

pub percents-binary :
    (op : Operator) (x y : Text) → percents (x ++ (operator_sql op ++ y)) ≡ percents x + percents y
percents-binary op x y = simp count-append (omega (arith, percents-operator_sql op))
