-- ===== src/Users/CreateUser/Raises.antt =====
-- What a registration may raise.
use fastapi_starter.Prelude.{
  ◌+◌, String, ◌≡◌, refl, Option, none, some, any, str_eq, Bool-cases, inl, inr,
}
use fastapi_starter.Domain.Errors.{
  Error, ok, err, domain, http, other, validation_error, email_already_exists, message,
}
use fastapi_starter.Domain.Users.{create}
use fastapi_starter.Database.UserMapper
use fastapi_starter.Text.Regex.{matches}
use fastapi_starter.Domain.Email.{Email, email, hashed_password, email_re, strip}
use fastapi_starter.Exec.{Errs, if_Errs, resume-Errs, branch-Errs}
use fastapi_starter.Ports.{Env, World}
use fastapi_starter.Database.Session.{Session, CommitFault, integrity, failure}
use fastapi_starter.Database.UnitOfWork.{commit, names_email}
use fastapi_starter.Database.UserRepository.{with_email}
use fastapi_starter.Users.CreateUser.{CreateUserCommand, execute, register}

abbrev pub OfRegistration : Error → Type 0
OfRegistration (domain validation_error text) = Unit {0}
OfRegistration (domain email_already_exists text) = Unit {0}
OfRegistration (domain e text) = ⊥
OfRegistration (http status detail headers) = ⊥
OfRegistration (other name) = Unit {0}

module _ {S : Type 0} (db : Session S) (env : Env) where
  commit-Errs :
      (w : World S) (outcome : Option CommitFault)
      → (db.commit w.session).0 ≡ outcome
      → Errs OfRegistration (commit db w).0
  unfolding commit message
  commit-Errs w none e = rw e tt
  commit-Errs w (some (failure name)) e = rw e tt
  commit-Errs w (some (integrity text)) e = elim (Bool-cases (names_email text)) [
    | inl named ↦ rw (e, named) tt
    | inr another ↦ rw (e, another) tt
  ]

  email-Errs : (raw : String) → Errs OfRegistration (email env.lower env.repr raw)
  unfolding email
  email-Errs raw =
      if_Errs OfRegistration (matches email_re (env.lower (strip raw))) (ok _) (err _) tt tt

  password-Errs : (value : String) → Errs OfRegistration (hashed_password value)
  unfolding hashed_password
  password-Errs value = if_Errs OfRegistration (str_eq value "") (err _) (ok _) tt tt

  register-Errs :
      (command : CreateUserCommand) (address : Email) (w : World S)
      → Errs OfRegistration (register db env command address w).0
  unfolding register
  register-Errs command address w =
      resume-Errs OfRegistration (hashed_password (env.hash (w.calls + 1) command.password)) _ _
        (password-Errs (env.hash (w.calls + 1) command.password))
        λ password.
          let asked : World S = record {
            session =
                db.add_user
                  (UserMapper.to_model (
                    create (record { value = env.uuid4 w.calls }) address password
                      (env.now (w.calls + 1 + 1))))
                  w.session;
            calls = w.calls + 1 + 1 + 1;
            hash_runs = w.hash_runs + 1;
            dispatched = w.dispatched;
          } in
          resume-Errs OfRegistration (commit db asked).0 _ _
            (commit-Errs asked (db.commit asked.session).0 refl) λ done. tt

  -- A registration raises nothing but the two errors of its domain and the faults of the database.
  pub execute-Errs :
      (command : CreateUserCommand) (w : World S) → Errs OfRegistration (execute db env command w).0
  unfolding execute message
  execute-Errs command w =
      resume-Errs OfRegistration (email env.lower env.repr command.email) _ w
        (email-Errs command.email)
        λ address.
          branch-Errs OfRegistration (any (with_email address.value) (db.select_users w.session)) _
            _ w tt (register-Errs command address w)
