-- ===== src/Users/CreateUser/Revoking.antt =====
-- A registration leaves the tokens alone.
use fastapi_starter.Domain.Email.{Email, email, hashed_password}
use fastapi_starter.Database.UserRepository.{with_email}
use fastapi_starter.Users.CreateUser.{CreateUserCommand, execute, register}
use fastapi_starter.Prelude.{◌+◌, refl, any}
use fastapi_starter.Exec.{resume_then, branch_then}
use fastapi_starter.Ports.{Env, World}
use fastapi_starter.Database.Shared.{Recording, recording}
use fastapi_starter.Database.Shared.Revoking.{
  IsRevoking, add_user-IsRevoking, commit_then-IsRevoking,
}

abbrev Safe : World Recording → Type 0
Safe w = IsRevoking w.session

module _ (env : Env) where
  register-Safe :
      (command : CreateUserCommand) (address : Email) (w : World Recording)
      → Safe w
      → Safe (register recording env command address w).1
  unfolding register
  register-Safe command address w safe =
      let w' : World Recording = record w {
        calls = w.calls + 1 + 1;
        hash_runs = w.hash_runs + 1;
      } in
      resume_then Safe (hashed_password (env.hash (w.calls + 1) command.password)) _ w' safe
        λ password _. commit_then-IsRevoking _ (λ v. refl) _ (add_user-IsRevoking _ w.session safe)

  pub execute-Safe :
      (command : CreateUserCommand) (w : World Recording)
      → Safe w
      → Safe (execute recording env command w).1
  unfolding execute
  execute-Safe command w safe =
      resume_then Safe (email env.lower env.repr command.email) _ w safe λ address _.
        branch_then Safe (any (with_email address.value) (recording.select_users w.session)) _ _ w
          (λ _. safe) (λ _. register-Safe command address w safe)
