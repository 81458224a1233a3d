-- ===== src/Auth.antt =====
-- Authentication: server-side sessions, CSRF tokens and local super-admins (app/auth).
pub mod Session
pub mod Csrf
pub mod Local
