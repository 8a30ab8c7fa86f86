-- ===== src/Users.antt =====
-- app/application/users/commands.
pub mod CreateUser
pub mod ChangePassword
