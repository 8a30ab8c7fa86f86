-- ===== src/Auth/Login/Refusals.antt =====
-- What a refused login shows.
use fastapi_starter.Prelude.{◌+◌, String, ◌≡◌, refl, ◌⊎◌, false, Option, none, some, arith}
use fastapi_starter.Domain.Errors.{
  ok, err, domain, validation_error, domain_of, invalid_credentials,
}
use fastapi_starter.Domain.Email.{Email, email}
use fastapi_starter.Domain.Users.{User}
use fastapi_starter.Ports.{Env, World}
use fastapi_starter.Database.Session.{Session}
use fastapi_starter.Database.UserRepository.{get_by_email, get_by_email_keeps}
use fastapi_starter.Auth.Login.{LoginCommand, execute, authenticate}

-- Why an account that was looked up is refused: unknown, inactive, or another password.
abbrev pub Refused : Env → LoginCommand → Option User → Type 0
Refused env command none = Unit
Refused env command (some user) =
    (user.is_active ≡ false) ⊎ (env.verify command.password user.hashed_password.value ≡ false)

module _ {S : Type 0} (db : Session S) (env : Env) where
  -- The error, the state and the cost of every refusal.
  abbrev pub refusal : World S → World S
  refusal w = record w { calls = w.calls + 1; hash_runs = w.hash_runs + 1 }

  authenticate-refusal :
      (command : LoginCommand) (found : Option User) (w : World S)
      → Refused env command found
      → authenticate db env command found w ≡ (err (domain_of invalid_credentials), refusal w)
  unfolding authenticate
  authenticate-refusal command none w refused = refl
  authenticate-refusal command (some user) w refused = ground arith

  -- A login with a well-formed address is refused alike whether the account is unknown, inactive or
  -- has another password: the same error, the same state, and one run of the password hash.
  pub login_refusals_alike :
      (command : LoginCommand) (address : Email) (found : Option User) (w : World S)
      → email env.lower env.repr command.email ≡ ok address
      → (get_by_email db env address w).0 ≡ ok found
      → Refused env command found
      → execute db env command w ≡ (err (domain_of invalid_credentials), refusal w)
  unfolding execute
  login_refusals_alike command address found w parsed looked refused =
      rw (parsed, looked, get_by_email_keeps db env address w)
        (authenticate-refusal command found w refused)

  -- A malformed address is refused with the same error and an untouched state.
  pub login_malformed :
      (command : LoginCommand) (w : World S) (message : String)
      → email env.lower env.repr command.email ≡ err (domain validation_error message)
      → execute db env command w ≡ (err (domain_of invalid_credentials), w)
  unfolding execute
  login_malformed command w message bad = rw bad
