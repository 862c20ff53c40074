-- ===== src/Sql.antt =====
-- kh_common/sql: the query builder, and the interface to the database.
pub mod Query
pub mod Connection
