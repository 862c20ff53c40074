-- ===== src/Cors/Allowed.antt =====
-- Which origins are let through to the application, and told so.
use kh_common.Prelude.Dict
use kh_common.Prelude.Dict.{Dict}
use kh_common.Prelude.Text.{Text}
