-- ===== src/Seed.antt =====
-- scripts/seed.py: the demo user, registered outside of HTTP in a scope of its own.
pub mod Twice
use fastapi_starter.Prelude.{String}
use fastapi_starter.Domain.Errors.{
  Error, DomainError, email_already_exists, domain, http, other, Result, ok, err,
}
use fastapi_starter.Exec.{Exec}
use fastapi_starter.Ports.{Env, World}
use fastapi_starter.Database.Session.{Session}
use fastapi_starter.Users.CreateUser
use fastapi_starter.Users.CreateUser.{CreateUserCommand, UserView}
use fastapi_starter.Requests.{close_scope}

abbrev pub demo_email : String
demo_email = "demo@example.com"

abbrev pub demo_password : String
demo_password = "demo-password-change-me"

-- The two log lines.
pub data Seeded : Type 0 where
  user_created : UserView → Seeded
  user_exists : String → Seeded

-- `except EmailAlreadyExistsError`
unfoldable pub outcome : Result UserView → Result Seeded
outcome (ok view) = ok (user_created view)
outcome (err (domain email_already_exists message)) = ok (user_exists demo_email)
outcome (err e) = err e

module _ {S : Type 0} (db : Session S) (env : Env) where
  -- The scope closes the session, whether the handler returns or raises.
  unfoldable pub seed : Exec (World S) Seeded
  unfolding outcome close_scope
  seed w =
      let (result, w') =
        CreateUser.execute db env (record { email = demo_email; password = demo_password }) w in
      (outcome result, close_scope db env w')
