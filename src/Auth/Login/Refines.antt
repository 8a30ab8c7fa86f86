-- ===== src/Auth/Login/Refines.antt =====
-- Every login is one step of the token families.
use mathlib.Core.List.{append-nil}
use fastapi_starter.Prelude.{◌≡◌, ℕ, ◌+◌, refl, Option, none, some, arith}
use fastapi_starter.Domain.Errors.{domain_of, invalid_credentials}
use fastapi_starter.Domain.Email.{email}
use fastapi_starter.Domain.Users.{User}
use fastapi_starter.Exec.{resume_then, branch_then, except_validation}
use fastapi_starter.Ports.{Env, World}
use fastapi_starter.Database.Session.{Session, IsSession, Contents, IsReady}
use fastapi_starter.Database.TokenMapper
use fastapi_starter.Database.UserRepository.{get_by_email, get_by_email_keeps}
use fastapi_starter.Families.{start}
use fastapi_starter.Families.Refines.{End, Untouched, Untouched-End, commit_then-End, saved-IsSince}
use fastapi_starter.Accounts.{same}
use fastapi_starter.Auth.Login.{LoginCommand, execute, authenticate, admit, issue, reject}

module _ {S : Type 0} (db : Session S) (env : Env) (h : IsSession db) {before : Contents} (n : ℕ)
    (ready : IsReady before) where
  abbrev Ends : World S → Type 0
  Ends = End db env h n ready

  abbrev Clean : World S → Type 0
  Clean = Untouched db env h n ready

  ends : (w : World S) → Clean w → Ends w
  ends = Untouched-End db env h n ready

  issue-End : (user : User) (w : World S) → Clean w → Ends (issue db env user w).1
  unfolding issue TokenMapper.to_model
  issue-End user w u =
      commit_then-End db env h n ready _ (λ v. (refl, omega arith)) _ (omega (arith, u.later))
        (rw (h.add_token_lem, u.same) (saved-IsSince ready refl refl))
        (rw (h.add_token_lem, u.same, ready.no_users) (same (append-nil _)))
        (rw (h.add_token_lem, u.same, ready.no_tokens)
          (start _ refl (w.calls + 1 + 1, omega (arith, u.later), omega arith, refl) refl))

  reject-End : (command : LoginCommand) (w : World S) → Clean w → Ends (reject db env command w).1
  unfolding reject
  reject-End command w u =
      let w' : World S = record w { calls = w.calls + 1; hash_runs = w.hash_runs + 1 } in
      ends w' (record { same = u.same; later = omega (arith, u.later) })

  admit-End :
      (command : LoginCommand) (user : User) (w : World S)
      → Clean w
      → Ends (admit db env command user w).1
  unfolding admit
  admit-End command user w u =
      let w' : World S = record w { calls = w.calls + 1; hash_runs = w.hash_runs + 1 } in
      let u' : Clean w' = record { same = u.same; later = omega (arith, u.later) } in
      branch_then Ends (env.verify command.password user.hashed_password.value) _ _ w'
        (λ _. issue-End user w' u') (λ _. ends w' u')

  authenticate-End :
      (command : LoginCommand) (user : Option User) (w : World S)
      → Clean w
      → Ends (authenticate db env command user w).1
  unfolding authenticate
  authenticate-End command none w u = reject-End command w u
  authenticate-End command (some user) w u =
      branch_then Ends user.is_active _ _ w (λ _. admit-End command user w u)
        (λ _. reject-End command w u)

  pub execute-End :
      (command : LoginCommand) (w : World S) → Clean w → Ends (execute db env command w).1
  unfolding execute
  execute-End command w u =
      resume_then Ends
        (except_validation (email env.lower env.repr command.email) (domain_of invalid_credentials))
        _ w (ends w u)
        λ address _.
          let found = (get_by_email db env address w).0 in
          let w' = (get_by_email db env address w).1 in
          let kept : w' ≡ w = get_by_email_keeps db env address w in
          resume_then Ends found (authenticate db env command) w' (rw kept (ends w u))
            λ user _. rw kept (authenticate-End command user w u)
