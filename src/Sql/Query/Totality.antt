-- ===== src/Sql/Query/Totality.antt =====
-- Which queries can be built.
use kh_common.Prelude.{◌≡◌, List, [], ◌∷◌, ◌++◌, Bool, true, false}
use kh_common.Prelude.Outcome.{Outcome, returned, ◌>>=◌, ◌>>◌, Yields, Yields-bind, Yields-returned}
use kh_common.Prelude.Text.{Text}
use kh_common.Sql.Query.{
  Failure, is_unary, operator_sql, Operand, field, value, query, Where, compares, Wheres, no_where,
  and_where, Join, join_on, Joins, no_join, and_join, Query,
}
use kh_common.Sql.Query.Render.{
  Param, check_some, operand_str, where_str, wheres_str, join_str, joins_str, build_query,
  operand_params, where_params, wheres_params, join_params, joins_params, query_params, build,
}

abbrev pub Some {ℓ} : {A : Type ℓ} → List A → Type 0
Some [] = ⊥
Some (x ∷ xs) = Unit

abbrev pub SomeWhere : {V : Type 0} → Wheres V → Type 0
SomeWhere no_where = ⊥
SomeWhere (and_where w ws) = Unit

-- A condition on the right side of an operator, which a unary one has not.
abbrev pub OnBinary : Bool → Type 0 → Type 0
OnBinary true P = Unit
OnBinary false P = P

-- Every query in it selects something, and every join has a condition. The right side of a unary
-- operator is not looked at.
abbrev mutual
  pub CompleteOperand : {V : Type 0} → Operand V → Type 0
  CompleteOperand (field f) = Unit
  CompleteOperand (value v function) = Unit
  CompleteOperand (query q) = Complete q

  pub CompleteWhere : {V : Type 0} → Where V → Type 0
  CompleteWhere (compares a op b) = CompleteOperand a × OnBinary (is_unary op) (CompleteOperand b)

  pub CompleteWheres : {V : Type 0} → Wheres V → Type 0
  CompleteWheres no_where = Unit
  CompleteWheres (and_where w ws) = CompleteWhere w × CompleteWheres ws

  pub CompleteJoin : {V : Type 0} → Join V → Type 0
  CompleteJoin (join_on how table ws) = SomeWhere ws × CompleteWheres ws

  pub CompleteJoins : {V : Type 0} → Joins V → Type 0
  CompleteJoins no_join = Unit
  CompleteJoins (and_join j js) = CompleteJoin j × CompleteJoins js

  pub Complete : {V : Type 0} → Query V → Type 0
  Complete (Query.of table js select ws hs group order limit offset function) =
      Some select × CompleteJoins js × CompleteWheres ws × CompleteWheres hs

abbrev Any : {A : Type 0} → A → Type 0
Any a = Unit

-- The list of texts has a member if there is a condition.
abbrev Like : {V : Type 0} → Wheres V → List Text → Type 0
Like ws xs = SomeWhere ws → Some xs

check_returns :
    {A : Type 0} (xs : List Text) (o : Outcome Failure A)
    → Some xs
    → Yields Any o
    → Yields Any (check_some xs >> o)
check_returns [] o s y = absurd s
check_returns (x ∷ xs) o s y = y

mutual
  unfolding operand_str

  operand_returns : {V : Type 0} (a : Operand V) → CompleteOperand a → Yields Any (operand_str a)
  operand_returns (field f) c = tt
  operand_returns (value v fn) c = tt
  operand_returns (query q) c = Yields-bind Any Any (build_query q) _ (query_returns q c) λ t h. tt

  where_returns : {V : Type 0} (w : Where V) → CompleteWhere w → Yields Any (where_str w)
  where_returns (compares a op b) c =
      Yields-bind Any Any (operand_str a) _ (operand_returns a c.0) λ x h.
        (elim (is_unary op)
            as (λ u.
              OnBinary u (CompleteOperand b)
              → Yields {E = Failure} (Any {A = Text}) (elim u [
                | true ↦ returned (x ++ operator_sql op)
                | false ↦ operand_str b >>= λ y. returned (x ++ (operator_sql op ++ y))
              ])) [
                | true ↦ λ d. tt
                | false ↦ λ d.
                    Yields-bind Any (Any {A = Text}) (operand_str b)
                      (λ y. returned (x ++ (operator_sql op ++ y))) (operand_returns b d) λ y k. tt
              ])
          c.1

  wheres_returns :
      {V : Type 0} (ws : Wheres V) → CompleteWheres ws → Yields (Like ws) (wheres_str ws)
  wheres_returns no_where c = λ h. h
  wheres_returns (and_where w ws) c =
      Yields-bind Any (Like (and_where w ws)) (where_str w) _ (where_returns w c.0) λ x h.
        Yields-bind (Like ws) (Like (and_where w ws)) (wheres_str ws) _ (wheres_returns ws c.1)
          λ xs k s. tt

  join_returns : {V : Type 0} (j : Join V) → CompleteJoin j → Yields Any (join_str j)
  join_returns (join_on how table ws) c =
      Yields-bind (Like ws) Any (wheres_str ws) _ (wheres_returns ws c.1)
        λ xs h. check_returns xs _ (h c.0) tt

  joins_returns : {V : Type 0} (js : Joins V) → CompleteJoins js → Yields Any (joins_str js)
  joins_returns no_join c = tt
  joins_returns (and_join j js) c =
      Yields-bind Any Any (join_str j) _ (join_returns j c.0)
        λ x h. Yields-bind Any Any (joins_str js) _ (joins_returns js c.1) λ xs k. tt

  query_returns : {V : Type 0} (q : Query V) → Complete q → Yields Any (build_query q)
  query_returns (Query.of table js [] ws hs group order limit offset fn) c = absurd c.0
  query_returns (Query.of table js (x ∷ xs) ws hs group order limit offset fn) c =
      Yields-bind Any Any (joins_str js) _ (joins_returns js c.1) λ ts h.
        Yields-bind (Like ws) Any (wheres_str ws) _ (wheres_returns ws c.2)
          λ us k. Yields-bind (Like hs) Any (wheres_str hs) _ (wheres_returns hs c.3) λ vs l. tt

mutual
  unfolding operand_params

  operand_lists : {V : Type 0} (a : Operand V) → CompleteOperand a → Yields Any (operand_params a)
  operand_lists (field f) c = tt
  operand_lists (value v fn) c = tt
  operand_lists (query q) c = query_lists q c

  where_lists : {V : Type 0} (w : Where V) → CompleteWhere w → Yields Any (where_params w)
  where_lists {V} (compares a op b) c =
      Yields-bind Any Any (operand_params a) _ (operand_lists a c.0) λ xs h.
        (elim (is_unary op)
            as (λ u.
              OnBinary u (CompleteOperand b)
              → Yields {E = Failure} (Any {A = List (Param V)}) (elim u [
                | true ↦ returned xs
                | false ↦ operand_params b >>= λ ys. returned (xs ++ ys)
              ])) [
                | true ↦ λ d. tt
                | false ↦ λ d.
                    Yields-bind Any (Any {A = List (Param V)}) (operand_params b)
                      (λ ys. returned (xs ++ ys)) (operand_lists b d) λ y k. tt
              ])
          c.1

  wheres_lists : {V : Type 0} (ws : Wheres V) → CompleteWheres ws → Yields Any (wheres_params ws)
  wheres_lists no_where c = tt
  wheres_lists (and_where w ws) c =
      Yields-bind Any Any (where_params w) _ (where_lists w c.0)
        λ x h. Yields-bind Any Any (wheres_params ws) _ (wheres_lists ws c.1) λ xs k. tt

  join_lists : {V : Type 0} (j : Join V) → CompleteJoin j → Yields Any (join_params j)
  join_lists (join_on how table ws) c = wheres_lists ws c.1

  joins_lists : {V : Type 0} (js : Joins V) → CompleteJoins js → Yields Any (joins_params js)
  joins_lists no_join c = tt
  joins_lists (and_join j js) c =
      Yields-bind Any Any (join_params j) _ (join_lists j c.0)
        λ x h. Yields-bind Any Any (joins_params js) _ (joins_lists js c.1) λ xs k. tt

  query_lists : {V : Type 0} (q : Query V) → Complete q → Yields Any (query_params q)
  query_lists (Query.of table js [] ws hs group order limit offset fn) c = absurd c.0
  query_lists (Query.of table js (x ∷ xs) ws hs group order limit offset fn) c =
      Yields-bind Any Any (joins_params js) _ (joins_lists js c.1) λ ts h.
        Yields-bind Any Any (wheres_params ws) _ (wheres_lists ws c.2)
          λ us k. Yields-bind Any Any (wheres_params hs) _ (wheres_lists hs c.3) λ vs l. tt

-- A query in which every select list has a member and every join has a condition, nested queries
-- included, can be built: no assertion fails, and `build` returns a text and parameters.
pub build-Complete :
    {V : Type 0} (q : Query V) → Complete q → (r : Text × List (Param V)) × (build q ≡ returned r)
unfolding build
build-Complete q c =
    let (r, e, h) = Yields-returned Any (build q) (
      Yields-bind Any Any (build_query q) _ (query_returns q c)
        λ t h. Yields-bind Any Any (query_params q) _ (query_lists q c) λ ps k. tt) in
    (r, e)
