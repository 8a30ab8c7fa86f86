-- ===== src/Users/ChangePassword.antt =====
-- app/application/users/commands/change_password.py.
pub mod Refines
pub mod Revoking
pub mod Raises
pub mod Effects
use fastapi_starter.Prelude.{String, Option, none, some}
use fastapi_starter.Domain.Errors.{user_not_found, invalid_credentials}
use fastapi_starter.Domain.Email.{hashed_password}
use fastapi_starter.Domain.Users.{Uuid, User, change_password}
use fastapi_starter.Exec.{Exec, raise_domain, lift, branch, ◌>>=◌, ◌>>◌}
use fastapi_starter.Ports.{Env, World, ask, ask_hasher}
use fastapi_starter.Database.Session.{Session}
use fastapi_starter.Database.UserRepository
use fastapi_starter.Database.TokenRepository
use fastapi_starter.Database.UnitOfWork

pub record ChangePasswordCommand : Type 0 where
  pub user_id : Uuid
  pub current_password : String
  pub new_password : String

module _ {S : Type 0} (db : Session S) (env : Env) where
  replace : ChangePasswordCommand → User → Exec (World S) (Unit {0})
  unfolding ask ask_hasher hashed_password change_password UserRepository.update
      TokenRepository.revoke_all_for_user UnitOfWork.commit
  replace command user = do
    hash ← ask_hasher (λ n. env.hash n command.new_password)
    password ← lift (hashed_password hash)
    let user' = change_password password user
    UserRepository.update db env user'
    now ← ask env.now
    TokenRepository.revoke_all_for_user db user'.id now
    UnitOfWork.commit db

  verified : ChangePasswordCommand → Option User → Exec (World S) (Unit {0})
  unfolding ask_hasher replace
  verified command none = raise_domain user_not_found
  verified command (some user) = do
    same ← ask_hasher (λ _. env.verify command.current_password user.hashed_password.value)
    branch same (replace command user) (raise_domain invalid_credentials)

  unfoldable pub execute : ChangePasswordCommand → Exec (World S) (Unit {0})
  unfolding verified UserRepository.get_by_id
  execute command = do
    user ← UserRepository.get_by_id db env (record { value = command.user_id })
    verified command user
