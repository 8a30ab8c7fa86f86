-- ===== src/Auth/Logout.antt =====
-- app/application/auth/commands/logout.py.
pub mod Refines
pub mod Revoking
pub mod Raises
pub mod Effects
use fastapi_starter.Prelude.{String, Option, none, some}
use fastapi_starter.Domain.Errors.{invalid_token}
use fastapi_starter.Domain.Tokens.{RefreshTokenRecord}
use fastapi_starter.Exec.{Exec, pure, raise_domain, branch, ◌>>=◌, ◌>>◌}
use fastapi_starter.Ports.{Env, World, ask, ask_result}
use fastapi_starter.Database.Session.{Session}
use fastapi_starter.Database.TokenRepository
use fastapi_starter.Database.UnitOfWork
use fastapi_starter.Auth.Refresh.{is_refresh}

module _ {S : Type 0} (db : Session S) (env : Env) where
  -- An unknown record counts as logged out already.
  end_session : Option RefreshTokenRecord → Exec (World S) (Unit {0})
  unfolding ask TokenRepository.revoke_family UnitOfWork.commit
  end_session none = pure tt
  end_session (some r) = do
    now ← ask env.now
    TokenRepository.revoke_family db r.family_id now
    UnitOfWork.commit db

  unfoldable pub execute : String → Exec (World S) (Unit {0})
  unfolding ask_result end_session TokenRepository.get_by_jti
  execute refresh_token = do
    payload ← ask_result (λ n. env.tokens.decode n refresh_token)
    branch (is_refresh payload.token_type)
        (do r ← TokenRepository.get_by_jti db payload.token_id; end_session r)
        (raise_domain invalid_token)
