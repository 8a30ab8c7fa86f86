-- ===== src/Auth/Refresh/Raises.antt =====
-- What a refresh may raise.
use fastapi_starter.Prelude.{String, ◌+◌, Option, none, some, leb, Option-cases, inl, inr}
use fastapi_starter.Domain.Errors.{domain_of, invalid_token, message}
use fastapi_starter.Exec.{Errs, resume-Errs, branch-Errs, except_validation}
use fastapi_starter.Ports.{Env, World, TokenPayload}
use fastapi_starter.Database.Session.{Session, IsSession}
use fastapi_starter.Database.UnitOfWork.{commit}
use fastapi_starter.Database.UserRepository.{load}
use fastapi_starter.Domain.Users.{User, Instant, from_str}
use fastapi_starter.Domain.Tokens.{RefreshTokenRecord, is_revoked, revoke}
use fastapi_starter.Database.Faults.{
  OfSessions, NamesClashes, DecodeRaises, Apart, commit-Errs, except-Errs, load-Errs, from_str-Errs,
}
use fastapi_starter.Database.TokenRepository
use fastapi_starter.Auth.Refresh.{
  is_refresh, execute, presented, replayed, current, rotate, rotate_active,
}

module _ {S : Type 0} (db : Session S) (env : Env) (h : IsSession db) (names : NamesClashes db h)
    (decodes : DecodeRaises env) where
  replayed-Errs :
      (r : RefreshTokenRecord) (now : Instant) (w : World S)
      → Apart db h w.session
      → Errs OfSessions (replayed db env r now w).0
  unfolding replayed message
  replayed-Errs r now w apart =
      resume-Errs OfSessions (commit db _).0 _ _
        (commit-Errs db h names _ (rw h.update_tokens_lem apart)) (λ _. tt)

  update-Errs :
      (r : RefreshTokenRecord) (w : World S)
      → Apart db h w.session
      → Errs OfSessions (TokenRepository.update db r w).0
        × Apart db h (TokenRepository.update db r w).1.session
  unfolding TokenRepository.update message
  update-Errs r w apart = elim (Option-cases (db.get_token r.jti w.session)) [
    | inl missing ↦ rw missing (tt, apart)
    | inr (m, found) ↦ rw (found, h.set_token_lem) (tt, apart)
  ]

  rotate-Errs :
      (r : RefreshTokenRecord) (now : Instant) (user : User) (w : World S)
      → Apart db h w.session
      → Errs OfSessions (rotate db env r now user w).0
  unfolding rotate
  rotate-Errs r now user w apart =
      let updated = TokenRepository.update db (revoke now r) w in
      let (errs, apart') = update-Errs (revoke now r) w apart in
      resume-Errs OfSessions updated.0 _ updated.1 errs λ _.
        resume-Errs OfSessions (commit db _).0 _ _
          (commit-Errs db h names _ (rw h.add_token_lem apart')) (λ _. tt)

  rotate_active-Errs :
      (r : RefreshTokenRecord) (now : Instant) (user : Option User) (w : World S)
      → Apart db h w.session
      → Errs OfSessions (rotate_active db env r now user w).0
  unfolding rotate_active message
  rotate_active-Errs r now none w apart = tt
  rotate_active-Errs r now (some user) w apart =
      branch-Errs OfSessions user.is_active _ _ w (rotate-Errs r now user w apart) tt

  current-Errs :
      (payload : TokenPayload) (r : RefreshTokenRecord) (now : Instant) (w : World S)
      → Apart db h w.session
      → Errs OfSessions (current db env payload r now w).0
  unfolding current message
  current-Errs payload r now w apart =
      resume-Errs OfSessions
        (except_validation (from_str env.uuid_parse payload.subject) (domain_of invalid_token)) _ w
        (except-Errs env.lower env.repr _ _
          (from_str-Errs env.lower env.repr env.uuid_parse payload.subject) tt)
        λ user_id.
          resume-Errs OfSessions (load env.lower env.repr (db.get_user user_id.value w.session)) _ w
            (load-Errs env.lower env.repr (db.get_user user_id.value w.session))
            λ user. rotate_active-Errs r now user w apart

  presented-Errs :
      (payload : TokenPayload) (found : Option RefreshTokenRecord) (w : World S)
      → Apart db h w.session
      → Errs OfSessions (presented db env payload found w).0
  unfolding presented message
  presented-Errs payload none w apart = tt
  presented-Errs payload (some r) w apart =
      let w' : World S = record w { calls = w.calls + 1 } in
      branch-Errs OfSessions (is_revoked r) _ _ w' (replayed-Errs r _ w' apart) (
        branch-Errs OfSessions (leb r.expires_at (env.now w.calls)) _ _ w' tt
          (current-Errs payload r _ w' apart))

  pub execute-Errs :
      (token : String) (w : World S)
      → Apart db h w.session
      → Errs OfSessions (execute db env token w).0
  unfolding execute message
  execute-Errs token w apart =
      let w' : World S = record w { calls = w.calls + 1 } in
      resume-Errs OfSessions (env.tokens.decode w.calls token) _ w' (decodes w.calls token)
        λ payload.
          branch-Errs OfSessions (is_refresh payload.token_type) _ _ w'
            (presented-Errs payload _ w' apart) tt
