-- ===== src/Auth/Refresh.antt =====
-- app/application/auth/commands/refresh_token.py.
pub mod Replay
pub mod Rotation
pub mod Exchange
pub mod Overlap
pub mod Refines
pub mod Revoking
pub mod Raises
pub mod Sound
use fastapi_starter.Prelude.{String, Bool, true, false, Option, none, some, leb}
use fastapi_starter.Domain.Errors.{domain_of, invalid_token, token_expired}
use fastapi_starter.Domain.Users.{Instant, User, from_str}
use fastapi_starter.Domain.Tokens.{RefreshTokenRecord, is_revoked, revoke}
use fastapi_starter.Exec.{Exec, pure, raise_domain, lift, branch, except_validation, ◌>>=◌, ◌>>◌}
use fastapi_starter.Ports.{TokenType, access, refresh, TokenPayload, Env, World, ask, ask_result}
use fastapi_starter.Database.Session.{Session}
use fastapi_starter.Database.UserRepository
use fastapi_starter.Database.TokenRepository
use fastapi_starter.Database.UnitOfWork
use fastapi_starter.Auth.Login.{TokenPair}

abbrev pub is_refresh : TokenType → Bool
is_refresh refresh = true
is_refresh access = false

module _ {S : Type 0} (db : Session S) (env : Env) where
  -- A replayed token: its whole family is revoked, and that is committed.
  replayed : RefreshTokenRecord → Instant → Exec (World S) TokenPair
  unfolding TokenRepository.revoke_family UnitOfWork.commit
  replayed r now = do
    TokenRepository.revoke_family db r.family_id now
    UnitOfWork.commit db
    raise_domain invalid_token

  rotate : RefreshTokenRecord → Instant → User → Exec (World S) TokenPair
  unfolding revoke ask TokenRepository.update TokenRepository.add UnitOfWork.commit
  rotate r now user = do
    let subject = env.uuid_str user.id.value
    TokenRepository.update db (revoke now r)
    new_jti ← ask env.uuid4
    issued ← ask (λ n. env.tokens.create_refresh_token n subject new_jti)
    TokenRepository.add db (record {
      jti = new_jti;
      user_id = user.id;
      family_id = r.family_id;
      expires_at = issued.expires_at;
      revoked_at = none;
    })
    UnitOfWork.commit db
    access_token ← ask (λ n. env.tokens.create_access_token n subject)
    pure (record { access_token = access_token; refresh_token = issued.token })

  rotate_active : RefreshTokenRecord → Instant → Option User → Exec (World S) TokenPair
  unfolding rotate
  rotate_active r now none = raise_domain invalid_token
  rotate_active r now (some user) =
      branch user.is_active (rotate r now user) (raise_domain invalid_token)

  current : TokenPayload → RefreshTokenRecord → Instant → Exec (World S) TokenPair
  unfolding rotate_active except_validation from_str UserRepository.get_by_id
  current payload r now = do
    user_id ←
        lift (except_validation (from_str env.uuid_parse payload.subject) (domain_of invalid_token))
    user ← UserRepository.get_by_id db env user_id
    rotate_active r now user

  presented : TokenPayload → Option RefreshTokenRecord → Exec (World S) TokenPair
  unfolding ask is_revoked replayed current
  presented payload none = raise_domain invalid_token
  presented payload (some r) = do
    now ← ask env.now
    branch (is_revoked r) (replayed r now)
        (branch (leb r.expires_at now) (raise_domain token_expired) (current payload r now))

  unfoldable pub execute : String → Exec (World S) TokenPair
  unfolding ask_result presented TokenRepository.get_by_jti
  execute refresh_token = do
    payload ← ask_result (λ n. env.tokens.decode n refresh_token)
    branch (is_refresh payload.token_type)
        (do r ← TokenRepository.get_by_jti db payload.token_id; presented payload r)
        (raise_domain invalid_token)
