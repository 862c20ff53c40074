-- ===== src/Tests/Queries.antt =====
-- kh_common/sql/query.py and `splitMessage` of kh_common/telegram/__init__.py at concrete inputs.
use kh_common.Prelude.{ℕ, ◌≡◌, refl, none, some, List, [], ◌∷◌, arith}
use kh_common.Prelude.Lists.{length}
use kh_common.Prelude.Outcome.{returned}
use kh_common.Prelude.Text.{Text, codes, count}
use kh_common.Sql.Query.{
  join_sql, operator_sql, value_str, Field, field, value, query, compares, no_where, and_where,
  join_on, no_join, and_join, Query, inner, equal, within, is_null,
}
use kh_common.Sql.Query.Build.{init, select, where_}
use kh_common.Sql.Query.Build.Made.{made_init, made_select, made_where, build-Made}
use kh_common.Sql.Query.Render.{
  Param, user, number, build, operand_str, operand_params, assemble, number_params, subquery_str,
}
use kh_common.Sql.Query.Percents.{percents}
use kh_common.Sql.Query.Placeholders.{build_placeholders}
use kh_common.Telegram.Split.{split_message}
use kh_common.Telegram.Split.Chunks.{IsSplit, split_message_lem}

abbrev id_field : Text → Field
id_field t = record { table = t; column = codes "id"; function = none }

abbrev nested : Query ℕ
nested =
    Query.of (codes "kheina.public.tags") no_join (id_field (codes "tags") ∷ [])
      (and_where (compares (field (id_field (codes "tags"))) equal (value 3 (some (codes "lower"))))
        no_where)
      no_where [] [] (some 5) none none

abbrev posts : Query ℕ
posts =
    Query.of (codes "kheina.public.posts")
      (and_join
        (join_on inner (codes "kheina.public.users") (
          and_where
            (compares (field (id_field (codes "users"))) equal (field (id_field (codes "posts"))))
            no_where))
        no_join)
      (id_field (codes "posts") ∷ [])
      (and_where (compares (field (id_field (codes "posts"))) within (query nested)) no_where)
      (and_where (compares (field (id_field (codes "posts"))) is_null (value 9 none)) no_where) []
      [] (some 10) (some 20) none

abbrev posts_sql : Text
posts_sql =
    codes
      "SELECT posts.id FROM kheina.public.posts INNER JOIN kheina.public.users ON users.id = posts.id WHERE posts.id IN (SELECT tags.id FROM kheina.public.tags WHERE tags.id = lower(%s) LIMIT %s) HAVING posts.id IS NULL LIMIT %s OFFSET %s;"

build_placeholders_example :
    percents posts_sql ≡ length {A = Param ℕ} (user 3 ∷ number 5 ∷ number 10 ∷ number 20 ∷ [])
unfolding count build operand_str operand_params assemble number_params join_sql operator_sql
    subquery_str value_str
build_placeholders_example =
    build_placeholders posts posts_sql (user 3 ∷ number 5 ∷ number 10 ∷ number 20 ∷ [])
      (ground arith) refl

split_message_lem_example :
    (messages : List Text) × (split_message 6 (codes " " ∷ []) (codes "one two three")
      ≡ some messages)
    × IsSplit 6 (codes " " ∷ []) (codes "one two three") messages
split_message_lem_example =
    split_message_lem 6 (codes " " ∷ []) (codes "one two three") (omega arith)

abbrev tags : Query ℕ
tags =
    select
      (where_ (init (codes "kheina.public.tags"))
        (compares (field (id_field (codes "tags"))) equal (value 3 none) ∷ []))
      (id_field (codes "tags") ∷ [])

build-Made_example : (r : Text × List (Param ℕ)) × (build tags ≡ returned r)
unfolding select where_ init
build-Made_example =
    build-Made tags
      (made_select (id_field (codes "tags") ∷ []) (
        made_where (compares (field (id_field (codes "tags"))) equal (value 3 none) ∷ [])
          ((tt, tt), tt) (made_init (codes "kheina.public.tags"))))
      tt
