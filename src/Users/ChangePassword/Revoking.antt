-- ===== src/Users/ChangePassword/Revoking.antt =====
-- A change of the password only takes tokens out of use.
use fastapi_starter.Domain.Email.{hashed_password}
use fastapi_starter.Domain.Users.{User}
use fastapi_starter.Database.TokenRepository.{live_of_user}
use fastapi_starter.Database.UserRepository
use fastapi_starter.Database.UserRepository.{load}
use fastapi_starter.Users.ChangePassword.{ChangePasswordCommand, execute, verified, replace}
use fastapi_starter.Prelude.{◌+◌, Option, none, some, Option-cases, inl, inr}
use fastapi_starter.Exec.{resume_then, branch_then}
use fastapi_starter.Ports.{Env, World}
use fastapi_starter.Database.Shared.{Recording, recording}
use fastapi_starter.Database.Shared.Revoking.{
  IsRevoking, set_user-IsRevoking, update_tokens-IsRevoking, commit-IsRevoking,
}

abbrev Safe : World Recording → Type 0
Safe w = IsRevoking w.session

module _ (env : Env) where
  update-Safe :
      (user : User) (w : World Recording)
      → Safe w
      → Safe (UserRepository.update recording env user w).1
  unfolding UserRepository.update
  update-Safe user w safe = elim (Option-cases (recording.get_user user.id.value w.session)) [
    | inl missing ↦ rw missing safe
    | inr (m, found) ↦ rw found (set_user-IsRevoking _ w.session safe)
  ]

  replace-Safe :
      (command : ChangePasswordCommand) (user : User) (w : World Recording)
      → Safe w
      → Safe (replace recording env command user w).1
  unfolding replace
  replace-Safe command user w safe =
      let w' : World Recording = record w { calls = w.calls + 1; hash_runs = w.hash_runs + 1 } in
      resume_then Safe (hashed_password (env.hash w.calls command.new_password)) _ w' safe
        λ password _.
          let changed : User = record user { hashed_password = password } in
          let updated = UserRepository.update recording env changed w' in
          let kept = update-Safe changed w' safe in
          resume_then Safe updated.0 _ updated.1 kept λ _ _.
            commit-IsRevoking _
              (update_tokens-IsRevoking (live_of_user user.id.value) _ updated.1.session kept)

  verified-Safe :
      (command : ChangePasswordCommand) (user : Option User) (w : World Recording)
      → Safe w
      → Safe (verified recording env command user w).1
  unfolding verified
  verified-Safe command none w safe = safe
  verified-Safe command (some user) w safe =
      let w' : World Recording = record w { calls = w.calls + 1; hash_runs = w.hash_runs + 1 } in
      branch_then Safe (env.verify command.current_password user.hashed_password.value) _ _ w'
        (λ _. replace-Safe command user w' safe) (λ _. safe)

  pub execute-Safe :
      (command : ChangePasswordCommand) (w : World Recording)
      → Safe w
      → Safe (execute recording env command w).1
  unfolding execute
  execute-Safe command w safe =
      resume_then Safe (load env.lower env.repr (recording.get_user command.user_id w.session)) _ w
        safe λ user _. verified-Safe command user w safe
