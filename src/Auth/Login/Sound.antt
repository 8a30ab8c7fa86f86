-- ===== src/Auth/Login/Sound.antt =====
-- Who gets a pair of tokens from a login.
use fastapi_starter.Prelude.{
  ◌+◌, ◌≡◌, refl, ap, ◌∙◌, true, Option, none, some, Bool-cases, inl, inr,
}
use fastapi_starter.Domain.Errors.{ok, domain_of, invalid_credentials}
use fastapi_starter.Domain.Email.{Email, email}
use fastapi_starter.Domain.Users.{User}
use fastapi_starter.Exec.{resume_ok, branch_or-raise, except_validation, except_validation_ok}
use fastapi_starter.Ports.{Env, World}
use fastapi_starter.Database.Session.{Session}
use fastapi_starter.Database.UserRepository.{get_by_email}
use fastapi_starter.Auth.Login.{
  LoginCommand, TokenPair, execute, authenticate, admit, issue, reject,
}

module _ {S : Type 0} (db : Session S) (env : Env) where
  admit_ok :
      (command : LoginCommand) (user : User) (w : World S) {pair : TokenPair}
      → (admit db env command user w).0 ≡ ok pair
      → env.verify command.password user.hashed_password.value ≡ true
  unfolding admit
  admit_ok command user w {pair} h =
      (branch_or-raise (env.verify command.password user.hashed_password.value) (issue db env user)
        (domain_of invalid_credentials)
        (record w { calls = w.calls + 1; hash_runs = w.hash_runs + 1 }) h).0

  reject_fails :
      (command : LoginCommand) (w : World S) {pair : TokenPair}
      → (reject db env command w).0 ≡ ok pair
      → ⊥
  unfolding reject
  reject_fails command w {pair} h = cc

  authenticate_ok :
      (command : LoginCommand) (found : Option User) (w : World S) {pair : TokenPair}
      → (authenticate db env command found w).0 ≡ ok pair
      → (user : User) × (found ≡ some user)
        × (user.is_active ≡ true)
        × (env.verify command.password user.hashed_password.value ≡ true)
  unfolding authenticate
  authenticate_ok command none w {pair} h = absurd (reject_fails command w {pair = pair} h)
  authenticate_ok command (some user) w {pair} h = elim (Bool-cases user.is_active) [
    | inl active ↦ (user, refl, active, admit_ok command user w {pair = pair} (rw active at h))
    | inr inactive ↦ absurd (reject_fails command w {pair = pair} (rw inactive at h))
  ]

  -- Whoever gets a pair of tokens gave a well-formed address and the password of the one active
  -- account that is stored under it.
  pub login_sound :
      (command : LoginCommand) (w : World S) (pair : TokenPair)
      → (execute db env command w).0 ≡ ok pair
      → (address : Email) × (email env.lower env.repr command.email ≡ ok address)
        × (user : User) × ((get_by_email db env address w).0 ≡ ok (some user))
        × (user.is_active ≡ true)
        × (env.verify command.password user.hashed_password.value ≡ true)
  unfolding execute
  login_sound command w pair h =
      let (address, parsed, rest) =
        resume_ok
          (except_validation (email env.lower env.repr command.email)
            (domain_of invalid_credentials))
          _ w {b = pair} h in
      let (found, looked_up, rest') =
        resume_ok (get_by_email db env address w).0 (authenticate db env command)
          (get_by_email db env address w).1 {b = pair} rest in
      let (user, same, active, verified) =
        authenticate_ok command found (get_by_email db env address w).1 {pair = pair} rest' in
      (address, except_validation_ok _ _ parsed, user, looked_up ∙ ap ok same, active, verified)
