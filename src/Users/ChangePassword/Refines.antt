-- ===== src/Users/ChangePassword/Refines.antt =====
-- Every change of a password is one step of the accounts and of the token families.
use mathlib.Core.List.{append-nil}
use fastapi_starter.Prelude.{◌≡◌, ℕ, ◌+◌, refl, Option, none, some, find, arith}
use fastapi_starter.Domain.Errors.{ok}
use fastapi_starter.Domain.Email.{hashed_password}
use fastapi_starter.Domain.Users.{User}
use fastapi_starter.Exec.{resume, resume_then, branch_then}
use fastapi_starter.Ports.{Env, World}
use fastapi_starter.Database.Models.{UserModel}
use fastapi_starter.Database.Session.{Session, IsSession, Contents, IsReady, has_id}
use fastapi_starter.Database.UserMapper
use fastapi_starter.Database.UserRepository.{load, load-some}
use fastapi_starter.Database.Tables.{find-id_self}
use fastapi_starter.Families.{sweep_user}
use fastapi_starter.Families.Refines.{End, Untouched, Untouched-End, commit-End, saved-IsSince}
use fastapi_starter.Accounts.{rehashed}
use fastapi_starter.Users.ChangePassword.{ChangePasswordCommand, execute, verified, replace}

module _ {S : Type 0} (db : Session S) (env : Env) (h : IsSession db) {before : Contents} (n : ℕ)
    (ready : IsReady before) where
  abbrev Ends : World S → Type 0
  Ends = End db env h n ready

  abbrev Clean : World S → Type 0
  Clean = Untouched db env h n ready

  ends : (w : World S) → Clean w → Ends w
  ends = Untouched-End db env h n ready

  replace-End :
      (command : ChangePasswordCommand) (user : User) (m : UserModel) (w : World S)
      → Clean w
      → user.id.value ≡ m.id
      → user.is_active ≡ m.is_active
      → find (has_id m.id) before.users ≡ some m
      → Ends (replace db env command user w).1
  unfolding replace UserMapper.apply_to_model
  replace-End command user m w u key active found =
      let w' : World S = record w { calls = w.calls + 1; hash_runs = w.hash_runs + 1 } in
      let u' : Clean w' = record { same = u.same; later = omega (arith, u.later) } in
      resume_then Ends (hashed_password (env.hash w.calls command.new_password)) _ w' (ends w' u')
        λ password _.
          rw (key, h.get_user_lem, u.same, found)
            (commit-End db env h n ready _ (omega (arith, u.later))
              (rw (h.update_tokens_lem, h.set_user_lem, u.same) (saved-IsSince ready refl refl))
              (rw (h.update_tokens_lem, h.set_user_lem, u.same, ready.no_users)
                (rw active (rehashed m user.email.value password.value found (append-nil _))))
              (rw (h.update_tokens_lem, h.set_user_lem, u.same, ready.no_tokens)
                (sweep_user m.id _ (append-nil _))))

  verified-End :
      (command : ChangePasswordCommand) (user : User) (m : UserModel) (w : World S)
      → Clean w
      → user.id.value ≡ m.id
      → user.is_active ≡ m.is_active
      → find (has_id m.id) before.users ≡ some m
      → Ends (verified db env command (some user) w).1
  unfolding verified
  verified-End command user m w u key active found =
      let w' : World S = record w { calls = w.calls + 1; hash_runs = w.hash_runs + 1 } in
      let u' : Clean w' = record { same = u.same; later = omega (arith, u.later) } in
      branch_then Ends (env.verify command.current_password user.hashed_password.value) _ _ w'
        (λ _. replace-End command user m w' u' key active found) (λ _. ends w' u')

  loaded_then :
      (command : ChangePasswordCommand) (m : UserModel) (user : Option User) (w : World S)
      → Clean w
      → find (has_id m.id) before.users ≡ some m
      → load env.lower env.repr (some m) ≡ ok user
      → Ends (verified db env command user w).1
  loaded_then command m none w u found loaded = unfold verified in ends w u
  loaded_then command m (some user) w u found loaded =
      let (key, active) = load-some env.lower env.repr m user loaded in
      verified-End command user m w u key active found

  loaded-End :
      (command : ChangePasswordCommand) (row : Option UserModel) (w : World S)
      → Clean w
      → find (has_id command.user_id) before.users ≡ row
      → Ends (resume (load env.lower env.repr row) (verified db env command) w).1
  unfolding verified load
  loaded-End command none w u found = ends w u
  loaded-End command (some m) w u found =
      resume_then Ends (load env.lower env.repr (some m)) (verified db env command) w (ends w u)
        λ user loaded. loaded_then command m user w u (find-id_self _ before.users found) loaded

  pub execute-End :
      (command : ChangePasswordCommand) (w : World S) → Clean w → Ends (execute db env command w).1
  unfolding execute
  execute-End command w u = rw (h.get_user_lem, u.same) (loaded-End command _ w u refl)
