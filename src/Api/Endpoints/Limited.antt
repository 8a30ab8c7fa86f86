-- ===== src/Api/Endpoints/Limited.antt =====
-- What the limit on the authentication endpoints protects.
use Prim.Native.String.{◌++◌}
use fastapi_starter.Prelude.{
  ℕ, ◌+◌, ◌≤◌, String, ◌≡◌, refl, Bool, true, Option, [], ◌∷◌, ltb, arith,
}
use fastapi_starter.Domain.Errors.{Error, http, err}
use fastapi_starter.Ports.{Env}
use fastapi_starter.Database.Session.{Session}
use fastapi_starter.Auth.Login.{LoginCommand}
use fastapi_starter.Users.CreateUser.{CreateUserCommand}
use fastapi_starter.Queries.{Cursors}
use fastapi_starter.RateLimit.{Redis, RateLimitSettings, check, rate_key, rate_limit_auth}
use fastapi_starter.RateLimit.Window.{IsRedis, check_allowed}
use fastapi_starter.Api.Endpoints.{raised, Server, login, register}

module _ {S R : Type 0} (db : Session S) (env : Env) (redis : Redis R) (show : ℕ → String)
    (settings : RateLimitSettings) (email_str : String → Bool) (codec : Cursors)
    (h : IsRedis redis) where
  -- The decision on a request, and the cache after it.
  abbrev wait : String → Option String → R → ℕ
  wait path client r =
      (check redis (rate_key redis show path client) settings.auth_requests
        settings.auth_window_seconds r).0.retry_after_seconds

  abbrev counted : String → Option String → R → R
  counted path client r =
      (check redis (rate_key redis show path client) settings.auth_requests
        settings.auth_window_seconds r).1

  abbrev too_many : ℕ → Error
  too_many seconds =
      http 429 "Too many requests; try again later." (("Retry-After", show seconds) ∷ [])

  gate_closed :
      (path : String) (client : Option String) (r : R)
      → settings.auth_requests ≤ h.value ("ratelimit:" ++ rate_key redis show path client) r
      → rate_limit_auth redis show settings path client r
        ≡ (err (too_many (wait path client r)), counted path client r)
  unfolding rate_limit_auth
  gate_closed path client r spent =
      let over : ltb settings.auth_requests
            (h.value ("ratelimit:" ++ rate_key redis show path client) r + 1)
          ≡ true =
        ground arith in
      let refused =
        check_allowed redis h (rate_key redis show path client) settings.auth_requests
          settings.auth_window_seconds r in
      rw (refused, over) refl

  -- Once the requests of the window are spent for a client, its logins and registrations are
  -- answered with 429 and the time to wait, whatever they hold, and reach neither the database nor
  -- the password hash: nothing but the counter changes.
  pub spent_limit_protects :
      (client : Option String) (attempt : LoginCommand) (joining : CreateUserCommand)
      (server : Server S R)
      → settings.auth_requests
        ≤ h.value ("ratelimit:" ++ rate_key redis show "/api/v1/auth/login" client) server.cache
      → settings.auth_requests
        ≤ h.value ("ratelimit:" ++ rate_key redis show "/api/v1/auth/register" client) server.cache
      → (login db env redis show settings email_str codec client attempt server ≡ (
        raised (too_many (wait "/api/v1/auth/login" client server.cache)),
        record server { cache = counted "/api/v1/auth/login" client server.cache },
      ))
        × (register db env redis show settings email_str codec client joining server ≡ (
          raised (too_many (wait "/api/v1/auth/register" client server.cache)),
          record server { cache = counted "/api/v1/auth/register" client server.cache },
        ))
  unfolding login register
  spent_limit_protects client attempt joining server spent spent' = (
    rw (gate_closed "/api/v1/auth/login" client server.cache spent),
    rw (gate_closed "/api/v1/auth/register" client server.cache spent'),
  )
