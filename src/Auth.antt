-- ===== src/Auth.antt =====
-- app/application/auth/commands and the authentication dependency of app/api/dependencies/auth.py.
pub mod Login
pub mod Refresh
pub mod Logout
pub mod CurrentUser
pub mod Kinds
