-- ===== src/Users/CreateUser/Refines.antt =====
-- Every registration is one step of the accounts, and leaves the tokens alone.
use mathlib.Core.List.{append-nil}
use fastapi_starter.Prelude.{ℕ, ◌+◌, refl, any, arith}
use fastapi_starter.Domain.Email.{Email, email, hashed_password}
use fastapi_starter.Exec.{resume_then, branch_then}
use fastapi_starter.Ports.{Env, World}
use fastapi_starter.Database.Session.{Session, IsSession, Contents, IsReady}
use fastapi_starter.Database.UserRepository.{with_email}
use fastapi_starter.Families.{keep}
use fastapi_starter.Families.Refines.{End, Untouched, Untouched-End, commit_then-End, saved-IsSince}
use fastapi_starter.Accounts.{joined}
use fastapi_starter.Users.CreateUser.{CreateUserCommand, execute, register}

module _ {S : Type 0} (db : Session S) (env : Env) (h : IsSession db) {before : Contents} (n : ℕ)
    (ready : IsReady before) where
  abbrev Ends : World S → Type 0
  Ends = End db env h n ready

  abbrev Clean : World S → Type 0
  Clean = Untouched db env h n ready

  ends : (w : World S) → Clean w → Ends w
  ends = Untouched-End db env h n ready

  register-End :
      (command : CreateUserCommand) (address : Email) (w : World S)
      → Clean w
      → Ends (register db env command address w).1
  unfolding register
  register-End command address w u =
      let w' : World S = record w { calls = w.calls + 1 + 1; hash_runs = w.hash_runs + 1 } in
      let u' : Clean w' = record { same = u.same; later = omega (arith, u.later) } in
      resume_then Ends (hashed_password (env.hash (w.calls + 1) command.password)) _ w' (ends w' u')
        λ password _.
          commit_then-End db env h n ready _ (λ v. (refl, omega arith)) _ (omega (arith, u.later))
            (rw (h.add_user_lem, u.same) (saved-IsSince ready refl refl))
            (rw (h.add_user_lem, u.same, ready.no_users) (joined _ refl))
            (rw (h.add_user_lem, u.same, ready.no_tokens) (keep (append-nil _)))

  pub execute-End :
      (command : CreateUserCommand) (w : World S) → Clean w → Ends (execute db env command w).1
  unfolding execute
  execute-End command w u =
      resume_then Ends (email env.lower env.repr command.email) _ w (ends w u) λ address _.
        branch_then Ends (any (with_email address.value) (db.select_users w.session)) _ _ w
          (λ _. ends w u) (λ _. register-End command address w u)
