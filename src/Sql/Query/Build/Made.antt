-- ===== src/Sql/Query/Build/Made.antt =====
-- Queries that are put together by the methods alone.
use kh_common.Prelude.{
  ℕ, ◌-◌, ◌*◌, ◌≡◌, none, some, List, [], ◌∷◌, Bool, true, false, ltb, if◌then◌else◌, Bool-cases,
  inl, inr,
}
use kh_common.Prelude.Lists.{All}
use kh_common.Prelude.Outcome.{returned, raised}
use kh_common.Prelude.Text.{Text}
use kh_common.Sql.Query.{
  assertion_error, Order, Field, Where, Wheres, no_where, and_where, Join, Joins, no_join, and_join,
  Query,
}
use kh_common.Sql.Query.Render.{Param, build}
use kh_common.Sql.Query.Totality.{
  Some, CompleteWhere, CompleteWheres, CompleteJoin, CompleteJoins, Complete, build-Complete,
}
use kh_common.Sql.Query.Build.{
  append_where, append_join, init, select, join, where_, group, having, order, limit, offset, page,
  function,
}

module _ {V : Type 0} where
  -- `_select`
  abbrev pub selected : Query V → List Field
  selected (Query.of t js sel ws hs g o l f fn) = sel

  abbrev Parts : Query V → Type 0
  Parts (Query.of t js sel ws hs g o l f fn) =
      CompleteJoins js × CompleteWheres ws × CompleteWheres hs

  append_where-Complete :
      (ws : Wheres V) (more : List (Where V))
      → CompleteWheres ws
      → All CompleteWhere more
      → CompleteWheres (append_where ws more)
  unfolding append_where
  append_where-Complete no_where [] c a = tt
  append_where-Complete no_where (w ∷ more) c a = (a.0, append_where-Complete no_where more c a.1)
  append_where-Complete (and_where w ws) more c a = (c.0, append_where-Complete ws more c.1 a)

  append_join-Complete :
      (js : Joins V) (more : List (Join V))
      → CompleteJoins js
      → All CompleteJoin more
      → CompleteJoins (append_join js more)
  unfolding append_join
  append_join-Complete no_join [] c a = tt
  append_join-Complete no_join (j ∷ more) c a = (a.0, append_join-Complete no_join more c a.1)
  append_join-Complete (and_join j js) more c a = (c.0, append_join-Complete js more c.1 a)

  -- The queries that the methods make, in any order, where each condition and each join that is
  -- passed in is complete.
  pub data Made : Query V → Type 0 where
    made_init : (t : Text) → Made (init t)
    made_select : {q : Query V} (fs : List Field) → Made q → Made (select q fs)
    made_join : {q : Query V} (js : List (Join V)) → All CompleteJoin js → Made q → Made (join q js)
    made_where :
        {q : Query V} (ws : List (Where V)) → All CompleteWhere ws → Made q → Made (where_ q ws)
    made_group : {q : Query V} (fs : List Field) → Made q → Made (group q fs)
    made_having :
        {q : Query V} (ws : List (Where V)) → All CompleteWhere ws → Made q → Made (having q ws)
    made_order : {q : Query V} (f : Field) (o : Order) → Made q → Made (order q f o)
    made_limit : {q r : Query V} (n : ℕ) → limit q n ≡ returned r → Made q → Made r
    made_offset : {q r : Query V} (n : ℕ) → offset q n ≡ returned r → Made q → Made r
    made_page : {q r : Query V} (n : ℕ) → page q n ≡ returned r → Made q → Made r
    made_function : {q : Query V} (t : Text) → Made q → Made (function q t)

  join-Parts :
      (q : Query V) (js : List (Join V)) → All CompleteJoin js → Parts q → Parts (join q js)
  unfolding join
  join-Parts (Query.of t js sel ws hs g o l f fn) more a p =
      (append_join-Complete js more p.0 a, p.1, p.2)

  where-Parts :
      (q : Query V) (ws : List (Where V)) → All CompleteWhere ws → Parts q → Parts (where_ q ws)
  unfolding where_
  where-Parts (Query.of t js sel ws hs g o l f fn) more a p =
      (p.0, append_where-Complete ws more p.1 a, p.2)

  having-Parts :
      (q : Query V) (ws : List (Where V)) → All CompleteWhere ws → Parts q → Parts (having q ws)
  unfolding having
  having-Parts (Query.of t js sel ws hs g o l f fn) more a p =
      (p.0, p.1, append_where-Complete hs more p.2 a)

  select-Parts : (q : Query V) (fs : List Field) → Parts q → Parts (select q fs)
  unfolding select
  select-Parts (Query.of t js sel ws hs g o l f fn) fs p = p

  group-Parts : (q : Query V) (fs : List Field) → Parts q → Parts (group q fs)
  unfolding group
  group-Parts (Query.of t js sel ws hs g o l f fn) fs p = p

  order-Parts : (q : Query V) (f : Field) (o : Order) → Parts q → Parts (order q f o)
  unfolding order
  order-Parts (Query.of t js sel ws hs g o l f fn) field how p = p

  function-Parts : (q : Query V) (t : Text) → Parts q → Parts (function q t)
  unfolding function
  function-Parts (Query.of t js sel ws hs g o l f fn) name p = p

  -- A query that a guarded method returns differs in its numbers alone.
  kept :
      (b : Bool) (q r : Query V)
      → (if b then returned q else raised assertion_error) ≡ returned r
      → Parts q
      → Parts r
  kept true q r h p = let e : q ≡ r = cc in rw (← e) p
  kept false q r h p = cc

  limit-Parts : (q r : Query V) (n : ℕ) → limit q n ≡ returned r → Parts q → Parts r
  unfolding limit
  limit-Parts (Query.of t js sel ws hs g o l f fn) r n h p = kept (ltb 0 n) _ r h p

  offset-Parts : (q r : Query V) (n : ℕ) → offset q n ≡ returned r → Parts q → Parts r
  unfolding offset
  offset-Parts (Query.of t js sel ws hs g o l f fn) r n h p = kept (ltb 0 n) _ r h p

  page-Parts : (q r : Query V) (n : ℕ) → page q n ≡ returned r → Parts q → Parts r
  unfolding page
  page-Parts (Query.of t js sel ws hs g o none f fn) r n h p = cc
  page-Parts (Query.of t js sel ws hs g o (some l) f fn) r n h p = elim (Bool-cases (ltb 0 n)) [
    | inl b ↦
        let q = Query.of t js sel ws hs g o (some l) (some (l * (n - 1))) fn in
        let h' : (if ltb 0 l then returned q else raised assertion_error) ≡ returned r =
          rw b at h in
        kept (ltb 0 l) q r h' p
    | inr b ↦ let h' : raised assertion_error ≡ returned r = rw b at h in cc
  ]

  Made-Parts : {q : Query V} → Made q → Parts q
  unfolding init
  Made-Parts (made_init t) = (tt, tt, tt)
  Made-Parts (made_select {q = q} fs m) = select-Parts q fs (Made-Parts m)
  Made-Parts (made_join {q = q} js a m) = join-Parts q js a (Made-Parts m)
  Made-Parts (made_where {q = q} ws a m) = where-Parts q ws a (Made-Parts m)
  Made-Parts (made_group {q = q} fs m) = group-Parts q fs (Made-Parts m)
  Made-Parts (made_having {q = q} ws a m) = having-Parts q ws a (Made-Parts m)
  Made-Parts (made_order {q = q} f o m) = order-Parts q f o (Made-Parts m)
  Made-Parts (made_limit {q = q} {r = r} n h m) = limit-Parts q r n h (Made-Parts m)
  Made-Parts (made_offset {q = q} {r = r} n h m) = offset-Parts q r n h (Made-Parts m)
  Made-Parts (made_page {q = q} {r = r} n h m) = page-Parts q r n h (Made-Parts m)
  Made-Parts (made_function {q = q} t m) = function-Parts q t (Made-Parts m)

  Parts-Complete : (q : Query V) → Parts q → Some (selected q) → Complete q
  Parts-Complete (Query.of t js sel ws hs g o l f fn) p s = (s, p.0, p.1, p.2)

  -- A query that was put together by the methods alone, in any order, from complete conditions and
  -- joins, can be built as soon as it selects something.
  pub build-Made :
      (q : Query V)
      → Made q
      → Some (selected q)
      → (r : Text × List (Param V)) × (build q ≡ returned r)
  build-Made q m s = build-Complete q (Parts-Complete q (Made-Parts m) s)
