-- ===== src/Auth/Login/Raises.antt =====
-- What a login may raise.
use fastapi_starter.Prelude.{◌+◌, Option, none, some, where_rows}
use fastapi_starter.Domain.Errors.{domain_of, invalid_credentials, message}
use fastapi_starter.Domain.Email.{Email, email}
use fastapi_starter.Domain.Users.{User}
use fastapi_starter.Exec.{Errs, resume-Errs, branch-Errs, except_validation}
use fastapi_starter.Ports.{Env, World}
use fastapi_starter.Database.Session.{Session, IsSession}
use fastapi_starter.Database.UserRepository.{
  get_by_email, get_by_email_keeps, scalar_one_or_none, with_email,
}
use fastapi_starter.Database.UnitOfWork.{commit}
use fastapi_starter.Database.Faults.{
  OfSessions, NamesClashes, Apart, commit-Errs, email-Errs, except-Errs, load-Errs, scalar-Errs,
}
use fastapi_starter.Auth.Login.{LoginCommand, execute, authenticate, admit, issue, reject}

module _ {S : Type 0} (db : Session S) (env : Env) (h : IsSession db)
    (names : NamesClashes db h) where
  issue-Errs :
      (user : User) (w : World S) → Apart db h w.session → Errs OfSessions (issue db env user w).0
  unfolding issue
  issue-Errs user w apart =
      resume-Errs OfSessions (commit db _).0 _ _
        (commit-Errs db h names _ (rw h.add_token_lem apart)) (λ _. tt)

  authenticate-Errs :
      (command : LoginCommand) (user : Option User) (w : World S)
      → Apart db h w.session
      → Errs OfSessions (authenticate db env command user w).0
  unfolding authenticate admit reject message
  authenticate-Errs command none w apart = tt
  authenticate-Errs command (some user) w apart =
      let w' : World S = record w { calls = w.calls + 1; hash_runs = w.hash_runs + 1 } in
      branch-Errs OfSessions user.is_active _ _ w
        (branch-Errs OfSessions (env.verify command.password user.hashed_password.value) _ _ w'
          (issue-Errs user w' apart) tt)
        tt

  get_by_email-Errs :
      (address : Email) (w : World S) → Errs OfSessions (get_by_email db env address w).0
  unfolding get_by_email
  get_by_email-Errs address w =
      resume-Errs OfSessions
        (scalar_one_or_none (where_rows (with_email address.value) (db.select_users w.session))) _ w
        (scalar-Errs env.lower env.repr
          (where_rows (with_email address.value) (db.select_users w.session)))
        (λ model. load-Errs env.lower env.repr model)

  pub execute-Errs :
      (command : LoginCommand) (w : World S)
      → Apart db h w.session
      → Errs OfSessions (execute db env command w).0
  unfolding execute message
  execute-Errs command w apart =
      resume-Errs OfSessions
        (except_validation (email env.lower env.repr command.email) (domain_of invalid_credentials))
        _ w (except-Errs env.lower env.repr _ _ (email-Errs env.lower env.repr command.email) tt)
        λ address.
          let kept = get_by_email_keeps db env address w in
          resume-Errs OfSessions (get_by_email db env address w).0 (authenticate db env command) _
            (get_by_email-Errs address w) (λ user. rw kept (authenticate-Errs command user w apart))
