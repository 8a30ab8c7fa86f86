-- ===== src/Auth/Login.antt =====
-- app/application/auth/commands/login.py.
pub mod Refines
pub mod Revoking
pub mod Raises
pub mod Sound
pub mod Refusals
pub mod Success
use fastapi_starter.Prelude.{String, Option, none, some}
use fastapi_starter.Domain.Errors.{domain_of, invalid_credentials}
use fastapi_starter.Domain.Email.{email}
use fastapi_starter.Domain.Users.{User}
use fastapi_starter.Exec.{Exec, pure, raise_domain, lift, branch, except_validation, ◌>>=◌, ◌>>◌}
use fastapi_starter.Ports.{Env, World, ask, ask_hasher}
use fastapi_starter.Database.Session.{Session}
use fastapi_starter.Database.UserRepository
use fastapi_starter.Database.TokenRepository
use fastapi_starter.Database.UnitOfWork

pub record LoginCommand : Type 0 where
  pub email : String
  pub password : String

-- dto.py; `token_type` is always "bearer".
pub record TokenPair : Type 0 where
  pub access_token : String
  pub refresh_token : String

module _ {S : Type 0} (db : Session S) (env : Env) where
  -- An unknown or inactive account costs one hash too.
  reject : LoginCommand → Exec (World S) TokenPair
  unfolding ask_hasher
  reject command = do
    _ ← ask_hasher (λ n. env.hash n command.password)
    raise_domain invalid_credentials

  issue : User → Exec (World S) TokenPair
  unfolding ask TokenRepository.add UnitOfWork.commit
  issue user = do
    let subject = env.uuid_str user.id.value
    jti ← ask env.uuid4
    issued ← ask (λ n. env.tokens.create_refresh_token n subject jti)
    family ← ask env.uuid4
    TokenRepository.add db (record {
      jti = jti;
      user_id = user.id;
      family_id = family;
      expires_at = issued.expires_at;
      revoked_at = none;
    })
    UnitOfWork.commit db
    access_token ← ask (λ n. env.tokens.create_access_token n subject)
    pure (record { access_token = access_token; refresh_token = issued.token })

  admit : LoginCommand → User → Exec (World S) TokenPair
  unfolding issue ask_hasher
  admit command user = do
    verified ← ask_hasher (λ _. env.verify command.password user.hashed_password.value)
    branch verified (issue user) (raise_domain invalid_credentials)

  authenticate : LoginCommand → Option User → Exec (World S) TokenPair
  unfolding reject admit
  authenticate command none = reject command
  authenticate command (some user) = branch user.is_active (admit command user) (reject command)

  unfoldable pub execute : LoginCommand → Exec (World S) TokenPair
  unfolding authenticate except_validation UserRepository.get_by_email
  execute command = do
    address ←
        lift (
          except_validation (email env.lower env.repr command.email)
            (domain_of invalid_credentials))
    user ← UserRepository.get_by_email db env address
    authenticate command user
