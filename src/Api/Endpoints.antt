-- ===== src/Api/Endpoints.antt =====
-- app/api/v1/auth and app/api/v1/users: the endpoints, with their dependencies and schemas.
pub mod Limited
pub mod Guarded
pub mod Answers
use Prim.Native.String
use fastapi_starter.Prelude.{
  ℕ, String, Bool, ◌&&◌, Option, none, some, List, leb, if◌then◌else◌, map,
}
use fastapi_starter.Domain.Errors.{Error, Result, ok, err}
use fastapi_starter.Domain.Users.{Uuid, User}
use fastapi_starter.Exec.{Exec, pure, ◌>>=◌}
use fastapi_starter.Ports.{Env, World}
use fastapi_starter.Database.Models.{aware}
use fastapi_starter.Database.Session.{Session}
use fastapi_starter.Auth.Login
use fastapi_starter.Auth.Login.{LoginCommand, TokenPair}
use fastapi_starter.Auth.Refresh
use fastapi_starter.Auth.Logout
use fastapi_starter.Auth.CurrentUser.{get_current_user}
use fastapi_starter.Users.CreateUser
use fastapi_starter.Users.CreateUser.{CreateUserCommand, UserView}
use fastapi_starter.Users.ChangePassword
use fastapi_starter.Queries
use fastapi_starter.Queries.{Cursors, Page}
use fastapi_starter.RateLimit.{Redis, RateLimitSettings, rate_limit_auth}

-- What an endpoint answers: a status with a body, what it raises, or the refusal of a schema.
pub data Reply (A : Type 0) : Type 0 where
  sent : ℕ → A → Reply A
  raised : Error → Reply A
  unprocessable : Reply A

pub record Server (S R : Type 0) : Type 0 where
  pub world : World S
  pub cache : R

-- `TokenResponse`; its `token_type` is always "bearer".
abbrev pub TokenResponse : Type 0
TokenResponse = TokenPair

-- `UserResponse` has the fields of `UserView`.
abbrev pub UserResponse : Type 0
UserResponse = UserView

pub record ChangePasswordRequest : Type 0 where
  pub current_password : String
  pub new_password : String

-- `Field(min_length=8, max_length=128)`
abbrev pub password_fits : String → Bool
password_fits p = leb 8 (String.count p) && leb (String.count p) 128

-- pydantic's `EmailStr` is a test on texts, and `show` is `str` of an integer.
module _ {S R : Type 0} (db : Session S) (env : Env) (redis : Redis R) (show : ℕ → String)
    (settings : RateLimitSettings) (email_str : String → Bool) (codec : Cursors) where
  abbrev pub reply : {A : Type 0} → ℕ → Result A → Reply A
  reply status (ok a) = sent status a
  reply status (err e) = raised e

  abbrev pub answer : {A : Type 0} → ℕ → Exec (World S) A → Server S R → Reply A × Server S R
  answer status handler server =
      let (result, world) = handler server.world in
      (reply status result, record server { world = world })

  -- A schema is checked once the dependencies have passed.
  abbrev pub if_valid :
      {A : Type 0} → Bool → (Server S R → Reply A × Server S R) → Server S R → Reply A × Server S R
  if_valid valid endpoint server = if valid then endpoint server else (unprocessable, server)

  abbrev pub gated :
      {A : Type 0}
      → Result (Unit {0})
      → (Server S R → Reply A × Server S R)
      → Server S R
      → Reply A × Server S R
  gated (ok _) endpoint server = endpoint server
  gated (err e) endpoint server = (raised e, server)

  -- `dependencies=[Depends(rate_limit_auth)]`
  limited :
      {A : Type 0}
      → String
      → Option String
      → (Server S R → Reply A × Server S R)
      → Server S R
      → Reply A × Server S R
  limited path client endpoint server =
      let (gate, cache) = rate_limit_auth redis show settings path client server.cache in
      gated gate endpoint (record server { cache = cache })

  unfoldable pub register :
      Option String → CreateUserCommand → Server S R → Reply UserResponse × Server S R
  unfolding limited
  register client body = limited "/api/v1/auth/register" client (
      if_valid (email_str body.email && password_fits body.password)
        (answer 201 (CreateUser.execute db env body)))

  unfoldable pub login :
      Option String → LoginCommand → Server S R → Reply TokenResponse × Server S R
  unfolding limited
  login client body =
      limited "/api/v1/auth/login" client
        (if_valid (email_str body.email) (answer 200 (Login.execute db env body)))

  unfoldable pub logout : String → Server S R → Reply (Unit {0}) × Server S R
  logout refresh_token = answer 204 (Logout.execute db env refresh_token)

  unfoldable pub refresh : String → Server S R → Reply TokenResponse × Server S R
  refresh refresh_token = answer 200 (Refresh.execute db env refresh_token)

  -- The dependency `CurrentUser`, then the endpoint.
  authenticated :
      {A : Type 0}
      → String
      → (User → Server S R → Reply A × Server S R)
      → Server S R
      → Reply A × Server S R
  authenticated credentials endpoint server =
      let (result, world) = get_current_user db env credentials server.world in
      let server' = record server { world = world } in
      elim result [ err e ↦ (raised e, server') | ok user ↦ endpoint user server' ]

  unfoldable pub change_password :
      String → ChangePasswordRequest → Server S R → Reply (Unit {0}) × Server S R
  unfolding authenticated
  change_password credentials body = authenticated credentials (λ user.
      if_valid (password_fits body.new_password) (
        answer 204 (
          ChangePassword.execute db env (record {
            user_id = user.id.value;
            current_password = body.current_password;
            new_password = body.new_password;
          }))))

  unfoldable pub read_me : String → Server S R → Reply UserResponse × Server S R
  unfolding authenticated
  read_me credentials = authenticated credentials (λ user. answer 200 (
      pure (record {
        id = user.id.value;
        email = user.email.value;
        is_active = user.is_active;
        created_at = aware user.created_at;
      })))

  unfoldable pub get_user : String → Uuid → Server S R → Reply UserResponse × Server S R
  unfolding authenticated
  get_user credentials user_id =
      authenticated credentials (λ _. answer 200 (Queries.get_user codec db user_id))

  unfoldable pub list_users :
      String → ℕ → Option String → Server S R → Reply (Page UserResponse) × Server S R
  unfolding authenticated
  list_users credentials limit cursor = authenticated credentials (λ _.
      if_valid (leb 1 limit && leb limit 100)
        (answer 200 (Queries.list_users codec db limit cursor)))
