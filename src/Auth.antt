-- ===== src/Auth.antt =====
-- lied/src/auth: who may do what.
pub mod Authz
pub mod Csrf
