-- ===== src/Auth/CurrentUser/Raises.antt =====
-- What the dependency may raise.
use fastapi_starter.Prelude.{String, ◌+◌, Option, none, some}
use fastapi_starter.Domain.Errors.{domain_of, invalid_token, message}
use fastapi_starter.Exec.{Errs, resume-Errs, branch-Errs, except_validation}
use fastapi_starter.Ports.{Env, World}
use fastapi_starter.Database.Session.{Session}
use fastapi_starter.Database.UserRepository.{load}
use fastapi_starter.Domain.Users.{User, from_str, UserId}
use fastapi_starter.Database.Faults.{
  OfSessions, DecodeRaises, except-Errs, load-Errs, from_str-Errs,
}
use fastapi_starter.Auth.Refresh.{is_refresh}
use fastapi_starter.Auth.CurrentUser.{accept, known, admitted, get_current_user}

module _ {S : Type 0} (db : Session S) (env : Env) (decodes : DecodeRaises env) where
  accept-Errs : (found : Option User) (w : World S) → Errs OfSessions (accept db env found w).0
  unfolding accept message
  accept-Errs none w = tt
  accept-Errs (some user) w = branch-Errs OfSessions user.is_active _ _ w tt tt

  known-Errs : (id : UserId) (w : World S) → Errs OfSessions (known db env id w).0
  unfolding known
  known-Errs id w =
      resume-Errs OfSessions (load env.lower env.repr (db.get_user id.value w.session)) _ w
        (load-Errs env.lower env.repr (db.get_user id.value w.session))
        (λ found. accept-Errs found w)

  pub get_current_user-Errs :
      (credentials : String) (w : World S)
      → Errs OfSessions (get_current_user db env credentials w).0
  unfolding get_current_user admitted message
  get_current_user-Errs credentials w =
      let w' : World S = record w { calls = w.calls + 1 } in
      resume-Errs OfSessions (env.tokens.decode w.calls credentials) _ w'
        (decodes w.calls credentials)
        λ payload. branch-Errs OfSessions (is_refresh payload.token_type) _ _ w' tt (
          resume-Errs OfSessions
            (except_validation (from_str env.uuid_parse payload.subject) (domain_of invalid_token))
            _ w'
            (except-Errs env.lower env.repr _ _
              (from_str-Errs env.lower env.repr env.uuid_parse payload.subject) tt)
            (λ id. known-Errs id w'))
