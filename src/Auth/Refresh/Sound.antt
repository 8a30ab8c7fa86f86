-- ===== src/Auth/Refresh/Sound.antt =====
-- Who gets a new pair of tokens from a refresh.
use fastapi_starter.Prelude.{
  ◌+◌, ◌<◌, String, ◌≡◌, refl, ap, ◌∙◌, true, false, Option, none, some, leb, arith, Bool-cases,
  inl, inr,
}
use fastapi_starter.Domain.Errors.{ok, domain_of, invalid_token, token_expired}
use fastapi_starter.Domain.Users.{Instant, User, UserId, from_str}
use fastapi_starter.Domain.Tokens.{RefreshTokenRecord, is_revoked}
use fastapi_starter.Exec.{
  resume_ok, branch_or-raise, branch-raise, except_validation, except_validation_ok,
}
use fastapi_starter.Ports.{TokenType, access, refresh, TokenPayload, Env, World}
use fastapi_starter.Database.Session.{Session}
use fastapi_starter.Database.UserRepository.{load}
use fastapi_starter.Database.TokenRepository.{get_by_jti}
use fastapi_starter.Database.UnitOfWork.{commit}
use fastapi_starter.Auth.Login.{TokenPair}
use fastapi_starter.Auth.Refresh.{
  is_refresh, execute, presented, replayed, current, rotate, rotate_active,
}

is_refresh_yes : (t : TokenType) → is_refresh t ≡ true → t ≡ refresh
is_refresh_yes refresh h = refl
is_refresh_yes access h = cc

module _ {S : Type 0} (db : Session S) (env : Env) where
  replayed_fails :
      (r : RefreshTokenRecord) (now : Instant) (w : World S) {pair : TokenPair}
      → (replayed db env r now w).0 ≡ ok pair
      → ⊥
  unfolding replayed
  replayed_fails r now w {pair} h =
      let (_, _, rest) = resume_ok (commit db _).0 _ _ {b = pair} h in cc

  rotate_active_ok :
      (r : RefreshTokenRecord) (now : Instant) (found : Option User) (w : World S)
      {pair : TokenPair}
      → (rotate_active db env r now found w).0 ≡ ok pair
      → (user : User) × (found ≡ some user) × (user.is_active ≡ true)
  unfolding rotate_active
  rotate_active_ok r now none w {pair} h = cc
  rotate_active_ok r now (some user) w {pair} h = (
    user,
    refl,
    (branch_or-raise user.is_active (rotate db env r now user) (domain_of invalid_token) w h).0,
  )

  -- The user whom a token was issued for is stored and active.
  abbrev pub IsOfActiveUser : TokenPayload → World S → Type 0
  IsOfActiveUser payload w =
      (id : UserId) × (from_str env.uuid_parse payload.subject ≡ ok id)
      × (user : User) × (load env.lower env.repr (db.get_user id.value w.session) ≡ ok (some user))
      × (user.is_active ≡ true)

  current_ok :
      (payload : TokenPayload) (r : RefreshTokenRecord) (now : Instant) (w : World S)
      {pair : TokenPair}
      → (current db env payload r now w).0 ≡ ok pair
      → IsOfActiveUser payload w
  unfolding current
  current_ok payload r now w {pair} h =
      let (id, parsed, rest) =
        resume_ok
          (except_validation (from_str env.uuid_parse payload.subject) (domain_of invalid_token)) _
          w {b = pair} h in
      let (found, loaded, rest') =
        resume_ok (load env.lower env.repr (db.get_user id.value w.session))
          (rotate_active db env r now) w {b = pair} rest in
      let (user, same, active) = rotate_active_ok r now found w {pair = pair} rest' in
      (
        id,
        except_validation_ok (from_str env.uuid_parse payload.subject) (domain_of invalid_token)
            parsed,
        user,
        loaded ∙ ap ok same,
        active,
      )

  presented_ok :
      (payload : TokenPayload) (found : Option RefreshTokenRecord) (w : World S) {pair : TokenPair}
      → (presented db env payload found w).0 ≡ ok pair
      → (r : RefreshTokenRecord) × (found ≡ some r)
        × (is_revoked r ≡ false)
        × (env.now w.calls < r.expires_at)
        × IsOfActiveUser payload w
  unfolding presented
  presented_ok payload none w {pair} h = cc
  presented_ok payload (some r) w {pair} h =
      let w' : World S = record w { calls = w.calls + 1 } in
      elim (Bool-cases (is_revoked r)) [
        | inl revoked ↦
            absurd (replayed_fails r (env.now w.calls) w' {pair = pair} (rw revoked at h))
        | inr live ↦
            let h' = rw live at h in
            let (unexpired, rest) =
              branch-raise (leb r.expires_at (env.now w.calls)) (domain_of token_expired)
                (current db env payload r (env.now w.calls)) w' {a = pair} h' in
            let holds = current_ok payload r (env.now w.calls) w' {pair = pair} rest in
            (r, refl, live, ground (arith, unexpired), holds)
      ]

  -- Whoever gets a new pair from a refresh presented a valid refresh token, whose record is stored,
  -- is not revoked and has not expired at the time of the check, and whose user is stored and active.
  pub refresh_sound :
      (token : String) (w : World S) (pair : TokenPair)
      → (execute db env token w).0 ≡ ok pair
      → (payload : TokenPayload) × (env.tokens.decode w.calls token ≡ ok payload)
        × (payload.token_type ≡ refresh)
        × (r : RefreshTokenRecord) × ((get_by_jti db payload.token_id w).0 ≡ ok (some r))
        × (is_revoked r ≡ false)
        × (env.now (w.calls + 1) < r.expires_at)
        × IsOfActiveUser payload w
  unfolding execute get_by_jti
  refresh_sound token w pair h =
      let w' : World S = record w { calls = w.calls + 1 } in
      let (payload, decoded, rest) =
        resume_ok (env.tokens.decode w.calls token) _ w' {b = pair} h in
      let (kind, rest') =
        branch_or-raise (is_refresh payload.token_type) _ (domain_of invalid_token) w' rest in
      let (r, stored, live, fresh, of_user) = presented_ok payload _ w' {pair = pair} rest' in
      (
        payload,
        decoded,
        is_refresh_yes payload.token_type kind,
        r,
        ap ok stored,
        live,
        fresh,
        of_user,
      )
