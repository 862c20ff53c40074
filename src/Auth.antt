-- ===== src/Auth.antt =====
-- kh_common/auth and kh_common/models/auth.py: tokens, scopes and users.
pub mod Scope
pub mod Parse
pub mod Token
pub mod Key
pub mod User
pub mod Middleware
pub mod Recent
