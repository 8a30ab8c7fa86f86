-- ===== src/Auth/CurrentUser/Guard.antt =====
-- Whom the dependency lets through.
use fastapi_starter.Prelude.{
  ◌+◌, String, ◌≡◌, refl, ap, ◌∙◌, true, false, Option, none, some, arith,
}
use fastapi_starter.Domain.Errors.{ok, domain_of, invalid_token}
use fastapi_starter.Domain.Users.{User, UserId, from_str}
use fastapi_starter.Exec.{
  resume_keeps, branch_keeps, raise_domain, lift, ◌>>=◌, resume_ok, branch-raise, except_validation,
  except_validation_ok,
}
use fastapi_starter.Ports.{Env, World, TokenPayload, TokenType, access, refresh}
use fastapi_starter.Database.Session.{Session}
use fastapi_starter.Database.UserRepository
use fastapi_starter.Auth.Refresh.{is_refresh}
use fastapi_starter.Auth.CurrentUser.{accept, known, admitted, get_current_user}

is_refresh_no : (t : TokenType) → is_refresh t ≡ false → t ≡ access
is_refresh_no access h = refl
is_refresh_no refresh h = ground arith

module _ {S : Type 0} (db : Session S) (env : Env) where
  accept_ok :
      (found : Option User) (w : World S) {user : User}
      → (accept db env found w).0 ≡ ok user
      → (found ≡ some user) × (user.is_active ≡ true)
  unfolding accept
  accept_ok none w {user} h = cc
  accept_ok (some u) w {user} h = ground arith

  known_ok :
      (id : UserId) (w : World S) (user : User)
      → (known db env id w).0 ≡ ok user
      → ((UserRepository.get_by_id db env id w).0 ≡ ok (some user)) × (user.is_active ≡ true)
  unfolding known
  known_ok id w user h =
      let (found, loaded, rest) =
        resume_ok (UserRepository.get_by_id db env id w).0 (accept db env)
          (UserRepository.get_by_id db env id w).1 {b = user} h in
      let (same, active) = accept_ok found (UserRepository.get_by_id db env id w).1 rest in
      (loaded ∙ ap ok same, active)

  admitted_ok :
      (payload : TokenPayload) (w : World S) (user : User)
      → (admitted db env payload w).0 ≡ ok user
      → (payload.token_type ≡ access)
        × (id : UserId) × (from_str env.uuid_parse payload.subject ≡ ok id)
        × ((UserRepository.get_by_id db env id w).0 ≡ ok (some user))
        × (user.is_active ≡ true)
  unfolding admitted
  admitted_ok payload w user h =
      let (kind, rest) =
        branch-raise (is_refresh payload.token_type) (domain_of invalid_token)
          (◌>>=◌
            (lift (
              except_validation (from_str env.uuid_parse payload.subject)
                (domain_of invalid_token)))
            (known db env))
          w {a = user} h in
      let (id, parsed, rest') =
        resume_ok
          (except_validation (from_str env.uuid_parse payload.subject) (domain_of invalid_token))
          (known db env) w {b = user} rest in
      let (loaded, active) = known_ok id w user rest' in
      (
        is_refresh_no payload.token_type kind,
        id,
        except_validation_ok (from_str env.uuid_parse payload.subject) (domain_of invalid_token)
            parsed,
        loaded,
        active,
      )

  -- Whom the dependency returns was named by a valid access token, is stored, and is active.
  pub get_current_user_sound :
      (credentials : String) (w : World S) (user : User)
      → (get_current_user db env credentials w).0 ≡ ok user
      → (payload : TokenPayload) × (env.tokens.decode w.calls credentials ≡ ok payload)
        × (payload.token_type ≡ access)
        × (id : UserId) × (from_str env.uuid_parse payload.subject ≡ ok id)
        × ((UserRepository.get_by_id db env id (record w { calls = w.calls + 1 })).0
            ≡ ok (some user))
        × (user.is_active ≡ true)
  unfolding get_current_user
  get_current_user_sound credentials w user h =
      let w' : World S = record w { calls = w.calls + 1 } in
      let (payload, decoded, rest) =
        resume_ok (env.tokens.decode w.calls credentials) (admitted db env) w' {b = user} h in
      let (kind, id, parsed, loaded, active) = admitted_ok payload w' user rest in
      (payload, decoded, kind, id, parsed, loaded, active)

  known_keeps : (id : UserId) (w : World S) → (known db env id w).1 ≡ w
  unfolding known UserRepository.get_by_id accept
  known_keeps id w =
      resume_keeps (λ v. v) (UserRepository.get_by_id db env id w).0 (accept db env) w accept_keeps
    where
      accept_keeps : (found : Option User) → (accept db env found w).1 ≡ w
      accept_keeps none = refl
      accept_keeps (some u) = ground arith

  -- The dependency asks the token service once and changes nothing else, whatever it answers.
  pub get_current_user_keeps :
      (credentials : String) (w : World S)
      → (get_current_user db env credentials w).1 ≡ record w { calls = w.calls + 1 }
  unfolding get_current_user admitted
  get_current_user_keeps credentials w =
      let w' : World S = record w { calls = w.calls + 1 } in
      resume_keeps (λ v. v) (env.tokens.decode w.calls credentials) (admitted db env) w'
        (λ payload.
          branch_keeps (is_refresh payload.token_type) (raise_domain invalid_token) _ w' refl (
            resume_keeps (λ v. v)
              (except_validation (from_str env.uuid_parse payload.subject)
                (domain_of invalid_token))
              (known db env) w' (λ id. known_keeps id w')))
