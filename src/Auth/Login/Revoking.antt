-- ===== src/Auth/Login/Revoking.antt =====
-- A login only inserts.
use fastapi_starter.Domain.Errors.{domain_of, invalid_credentials}
use fastapi_starter.Domain.Email.{email}
use fastapi_starter.Domain.Users.{User}
use fastapi_starter.Database.UserRepository.{get_by_email, get_by_email_keeps}
use fastapi_starter.Auth.Login.{LoginCommand, execute, authenticate, admit, issue, reject}
use fastapi_starter.Prelude.{◌+◌, ◌≡◌, refl, Option, none, some}
use fastapi_starter.Exec.{resume_then, branch_then, except_validation}
use fastapi_starter.Ports.{Env, World}
use fastapi_starter.Database.Shared.{Recording, recording}
use fastapi_starter.Database.Shared.Revoking.{
  IsRevoking, add_token-IsRevoking, commit_then-IsRevoking,
}

abbrev Safe : World Recording → Type 0
Safe w = IsRevoking w.session

module _ (env : Env) where
  issue-Safe : (user : User) (w : World Recording) → Safe w → Safe (issue recording env user w).1
  unfolding issue
  issue-Safe user w safe =
      commit_then-IsRevoking _ (λ v. refl) _ (add_token-IsRevoking _ w.session safe)

  authenticate-Safe :
      (command : LoginCommand) (user : Option User) (w : World Recording)
      → Safe w
      → Safe (authenticate recording env command user w).1
  unfolding authenticate admit reject
  authenticate-Safe command none w safe = safe
  authenticate-Safe command (some user) w safe =
      let w' : World Recording = record w { calls = w.calls + 1; hash_runs = w.hash_runs + 1 } in
      branch_then Safe user.is_active _ _ w
        (λ _.
          branch_then Safe (env.verify command.password user.hashed_password.value) _ _ w'
            (λ _. issue-Safe user w' safe) (λ _. safe))
        (λ _. safe)

  pub execute-Safe :
      (command : LoginCommand) (w : World Recording)
      → Safe w
      → Safe (execute recording env command w).1
  unfolding execute
  execute-Safe command w safe =
      resume_then Safe
        (except_validation (email env.lower env.repr command.email) (domain_of invalid_credentials))
        _ w safe
        λ address _.
          let found = (get_by_email recording env address w).0 in
          let w' = (get_by_email recording env address w).1 in
          let kept : w' ≡ w = get_by_email_keeps recording env address w in
          resume_then Safe found (authenticate recording env command) w' (rw kept safe)
            λ user _. rw kept (authenticate-Safe command user w safe)
