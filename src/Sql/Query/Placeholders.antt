-- ===== src/Sql/Query/Placeholders.antt =====
-- The rendered text of a query has one placeholder for each of its parameters.
use kh_common.Prelude.{◌∙◌, ℕ, ◌+◌, ◌≡◌, refl, Option, List, [], ◌∷◌, ◌++◌, true, false, arith}
use kh_common.Prelude.Outcome.{>>=-eq-returned, Outcome, returned, ◌>>=◌, ◌>>◌}
use kh_common.Prelude.Lists.{length, length-append}
use kh_common.Prelude.Text.{codes, Text, count, total, count-append}
use kh_common.Sql.Query.{
  Failure, is_unary, operator_sql, field_str, value_str, Operand, field, value, query, Where,
  compares, Wheres, no_where, and_where, Join, join_on, Joins, no_join, and_join, Query,
}
use kh_common.Sql.Query.Render.{
  Param, user, check_some, number_params, function_of, operand_str, where_str, wheres_str, join_str,
  joins_str, build_query, operand_params, where_params, wheres_params, join_params, joins_params,
  query_params, build,
}
use kh_common.Sql.Query.Percents.{
  percents, PlainFunction, PlainOperand, PlainWhere, PlainWheres, PlainJoin, PlainJoins, PlainQuery,
  percents-assemble, percents-join, percents-unary, percents-binary, percents-field_str,
  percents-value_str, percents-subquery_str,
}

-- Where a rendering and a list of parameters both come out, the first has as many percent signs,
-- by the measure `m`, as the second has members.
abbrev pub Agree :
    {A V : Type 0} → (A → ℕ) → Outcome Failure A → Outcome Failure (List (Param V)) → Type 0
Agree {A} {V} m o p =
    (a : A) (ps : List (Param V)) → o ≡ returned a → p ≡ returned ps → m a ≡ length ps

module _ {A V : Type 0} (m : A → ℕ) where
  Agree-returned :
      (a : A) (ps : List (Param V)) → m a ≡ length ps → Agree m (returned a) (returned ps)
  Agree-returned a ps h b qs p q = cc

  Agree-check :
      {B : Type 0} (xs : List B) (o : Outcome Failure A) (p : Outcome Failure (List (Param V)))
      → Agree m o p
      → Agree m (check_some xs >> o) (check_some xs >> p)
  Agree-check [] o p h a ps e f = cc
  Agree-check (x ∷ xs) o p h a ps e f = h a ps e f

  Agree-check_left :
      {B : Type 0} (xs : List B) (o : Outcome Failure A) (p : Outcome Failure (List (Param V)))
      → Agree m o p
      → Agree m (check_some xs >> o) p
  Agree-check_left [] o p h a ps e f = cc
  Agree-check_left (x ∷ xs) o p h a ps e f = h a ps e f

Agree-bind :
    {A B V : Type 0} (m : A → ℕ) (n : B → ℕ) (o : Outcome Failure A)
    (p : Outcome Failure (List (Param V))) (f : A → Outcome Failure B)
    (g : List (Param V) → Outcome Failure (List (Param V)))
    → Agree m o p
    → ((a : A) (ps : List (Param V)) → m a ≡ length ps → Agree n (f a) (g ps))
    → Agree n (o >>= f) (p >>= g)
Agree-bind m n o p f g h k b qs e d =
    let (a, oa, fa) = >>=-eq-returned o f e in
    let (ps, pp, gp) = >>=-eq-returned p g d in k a ps (h a ps oa pp) b qs fa gp

-- A rendering that goes on where the parameters are done.
Agree-bind_left :
    {A B V : Type 0} (m : A → ℕ) (n : B → ℕ) (o : Outcome Failure A)
    (p : Outcome Failure (List (Param V))) (f : A → Outcome Failure B)
    → Agree m o p
    → ((a : A) (ps : List (Param V)) → m a ≡ length ps → Agree n (f a) (returned ps))
    → Agree n (o >>= f) p
Agree-bind_left m n o p f h k b qs e d =
    let (a, oa, fa) = >>=-eq-returned o f e in k a qs (h a qs oa d) b qs fa refl

PlainQuery-function : {V : Type 0} (q : Query V) → PlainQuery q → PlainFunction (function_of q)
PlainQuery-function (Query.of table js select ws hs group order limit offset function) c = c.7

length-params :
    {V : Type 0} (limit offset : Option ℕ) (ps qs rs : List (Param V)) {x y z : ℕ}
    → x ≡ length ps
    → y ≡ length qs
    → z ≡ length rs
    → x + y + z + length (number_params {V = V} limit) + length (number_params {V = V} offset)
      ≡ length (ps ++ (qs ++ (rs ++ (number_params limit ++ number_params offset))))
length-params {V} limit offset ps qs rs h k l = omega (arith, length-append {0})

mutual
  unfolding operand_str operand_params count total

  operand-Agree :
      {V : Type 0} (a : Operand V)
      → PlainOperand a
      → Agree percents (operand_str a) (operand_params a)
  operand-Agree (field f) c = Agree-returned percents (field_str f) [] (percents-field_str f c)
  operand-Agree (value v fn) c =
      Agree-returned percents (value_str fn) (user v ∷ []) (percents-value_str fn c)
  operand-Agree (query q) c =
      Agree-bind_left percents percents (build_query q) (query_params q) _ (query-Agree q c)
        λ t ps h.
          Agree-returned percents _ ps
            (percents-subquery_str (function_of q) t (PlainQuery-function q c) ∙ h)

  where-Agree :
      {V : Type 0} (w : Where V) → PlainWhere w → Agree percents (where_str w) (where_params w)
  where-Agree {V} (compares a op b) c =
      Agree-bind percents percents (operand_str a) (operand_params a) _ _ (operand-Agree a c.0)
        λ x xs h.
          elim (is_unary op)
            as (λ u.
              Agree {V = V} percents
                (elim u [
                  | true ↦ returned (x ++ operator_sql op)
                  | false ↦ operand_str b >>= λ y. returned (x ++ (operator_sql op ++ y))
                ])
                (elim u [
                  | true ↦ returned xs
                  | false ↦ operand_params b >>= λ ys. returned (xs ++ ys)
                ])) [
                  | true ↦ Agree-returned percents _ xs (percents-unary op x ∙ h)
                  | false ↦
                      Agree-bind percents percents (operand_str b) (operand_params b) _ _
                        (operand-Agree b c.1)
                        λ y ys k.
                          Agree-returned percents _ (xs ++ ys)
                            (percents-binary op x y ∙ omega (arith, length-append xs ys))
                ]

  wheres-Agree :
      {V : Type 0} (ws : Wheres V)
      → PlainWheres ws
      → Agree (total b'%') (wheres_str ws) (wheres_params ws)
  wheres-Agree no_where c = Agree-returned (total b'%') [] [] refl
  wheres-Agree (and_where w ws) c =
      Agree-bind percents (total b'%') (where_str w) (where_params w) _ _ (where-Agree w c.0)
        λ x ps h.
          Agree-bind (total b'%') (total b'%') (wheres_str ws) (wheres_params ws) _ _
            (wheres-Agree ws c.1)
            λ xs qs k.
              Agree-returned (total b'%') (x ∷ xs) (ps ++ qs) (omega (arith, length-append ps qs))

  join-Agree : {V : Type 0} (j : Join V) → PlainJoin j → Agree percents (join_str j) (join_params j)
  join-Agree (join_on how table ws) c =
      Agree-bind_left (total b'%') percents (wheres_str ws) (wheres_params ws) _
        (wheres-Agree ws c.1)
        λ xs ps h.
          Agree-check_left percents xs _ _
            (Agree-returned percents _ ps (percents-join how table xs c.0 ∙ h))

  joins-Agree :
      {V : Type 0} (js : Joins V)
      → PlainJoins js
      → Agree (total b'%') (joins_str js) (joins_params js)
  joins-Agree no_join c = Agree-returned (total b'%') [] [] refl
  joins-Agree (and_join j js) c =
      Agree-bind percents (total b'%') (join_str j) (join_params j) _ _ (join-Agree j c.0) λ x ps h.
        Agree-bind (total b'%') (total b'%') (joins_str js) (joins_params js) _ _
          (joins-Agree js c.1)
          λ xs qs k.
            Agree-returned (total b'%') (x ∷ xs) (ps ++ qs) (omega (arith, length-append ps qs))

  query-Agree :
      {V : Type 0} (q : Query V) → PlainQuery q → Agree percents (build_query q) (query_params q)
  query-Agree {V} (Query.of table js select ws hs group order limit offset function) c =
      Agree-check percents select _ _ (
        Agree-bind (total b'%') percents (joins_str js) (joins_params js) _ _ (joins-Agree js c.1)
          λ xs ps h.
            Agree-bind (total b'%') percents (wheres_str ws) (wheres_params ws) _ _
              (wheres-Agree ws c.3)
              λ ys qs k.
                Agree-bind (total b'%') percents (wheres_str hs) (wheres_params hs) _ _
                  (wheres-Agree hs c.4)
                  λ zs rs l. Agree-returned percents _ _ (
                    percents-assemble V table select group xs ys zs order limit offset c.0 c.2 c.5
                      c.6
                    ∙ length-params limit offset ps qs rs h k l))

-- Where no name in a query holds a percent sign, a `build` that returns gives a text with exactly
-- one placeholder for each parameter of the list beside it: nested queries, functions, joins and
-- conditions with no value included.
pub build_placeholders :
    {V : Type 0} (q : Query V) (sql : Text) (params : List (Param V))
    → PlainQuery q
    → build q ≡ returned (sql, params)
    → percents sql ≡ length params
unfolding build count
build_placeholders q sql params c h =
    let (t, e, h1) = >>=-eq-returned (build_query q) _ h in
    let (ps, d, h2) = >>=-eq-returned (query_params q) _ h1 in
    ground (arith, query-Agree q c t ps e d, count-append b'%' t (codes ";"))
