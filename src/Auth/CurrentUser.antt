-- ===== src/Auth/CurrentUser.antt =====
-- app/api/dependencies/auth.py.
pub mod Guard
pub mod Raises
use fastapi_starter.Prelude.{String, Option, none, some}
use fastapi_starter.Domain.Errors.{domain_of, invalid_token}
use fastapi_starter.Domain.Users.{User, UserId, from_str}
use fastapi_starter.Exec.{Exec, pure, raise_domain, lift, branch, except_validation, ◌>>=◌}
use fastapi_starter.Ports.{TokenPayload, Env, World, ask_result}
use fastapi_starter.Database.Session.{Session}
use fastapi_starter.Database.UserRepository
use fastapi_starter.Auth.Refresh.{is_refresh}

module _ {S : Type 0} (db : Session S) (env : Env) where
  unfoldable pub accept : Option User → Exec (World S) User
  accept none = raise_domain invalid_token
  accept (some user) = branch user.is_active (pure user) (raise_domain invalid_token)

  unfoldable pub known : UserId → Exec (World S) User
  unfolding accept UserRepository.get_by_id
  known user_id = do user ← UserRepository.get_by_id db env user_id; accept user

  unfoldable pub admitted : TokenPayload → Exec (World S) User
  unfolding known except_validation from_str
  admitted payload = branch (is_refresh payload.token_type) (raise_domain invalid_token) (do
    user_id ←
        lift (except_validation (from_str env.uuid_parse payload.subject) (domain_of invalid_token))
    known user_id)

  unfoldable pub get_current_user : String → Exec (World S) User
  unfolding ask_result admitted
  get_current_user credentials = do
    payload ← ask_result (λ n. env.tokens.decode n credentials)
    admitted payload
