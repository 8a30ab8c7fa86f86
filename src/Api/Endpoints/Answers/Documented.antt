-- ===== src/Api/Endpoints/Answers/Documented.antt =====
-- Which statuses the endpoints answer, beside those that the schema documents for the operations.
-- What the middleware answers in their place is not among them.
use fastapi_starter.Prelude.{
  ℕ, String, ◌≡◌, refl, Bool, true, Option, none, some, List, ◌⊎◌, inl, inr,
}
use fastapi_starter.Ports.{Env}
use fastapi_starter.Database.Session.{Session, IsSession, IsReady}
use fastapi_starter.Database.Faults.{NamesClashes, DecodeRaises, IsNormal}
use fastapi_starter.Auth.Refresh
use fastapi_starter.Auth.Logout
use fastapi_starter.Auth.Refresh.Raises as RefreshRaises
use fastapi_starter.Auth.Logout.Raises as LogoutRaises
use fastapi_starter.Queries.{Cursors}
use fastapi_starter.RateLimit.{Redis, RateLimitSettings}
use fastapi_starter.Api.Problems.{RequestInfo, handle}
use fastapi_starter.Api.Routes.{documents}
use fastapi_starter.Api.Routes.Documented.{register_documented}
use fastapi_starter.Api.Health.{liveness, readiness}
use fastapi_starter.Api.Endpoints
use fastapi_starter.Api.Endpoints.{
  Reply, sent, raised, unprocessable, Server, ChangePasswordRequest, authenticated, limited, answer,
  reply, if_valid, password_fits,
}
use fastapi_starter.Api.Endpoints.Answers.{
  Call, register, login, logout, refresh, change_password, read_me, get_user, list_users,
  probe_liveness, probe_readiness, method, path, status_of, answer-IsAnswered,
}
use fastapi_starter.Api.Endpoints.Answers.Each.{
  ready-Apart, login_documented, change_password_documented, read_me_documented,
  list_users_documented, get_user_documented,
}

module _ (phrase : ℕ → Option String) (request : RequestInfo)
    (issues : List (List String × String × String)) where
  module _ {S R : Type 0} (db : Session S) (env : Env) (redis : Redis R) (show : ℕ → String)
      (settings : RateLimitSettings) (email_str : String → Bool) (codec : Cursors) where
    module _ (h : IsSession db) (names : NamesClashes db h) (decodes : DecodeRaises env) where
      -- What the endpoints answer, to requests that the layers of the middleware have passed on and
      -- whose body was read within the cap: whatever is called, in a state that is ready and
      -- consistent and keeps its addresses in the form of `Email`, the answer of the endpoint has a
      -- status that the schema documents for the operation, or is the 404 of `GET
      -- /users/{user_id}`, if the token service raises nothing but its own errors and the database
      -- names the index of the addresses only where two of them clash.
      pub answers_documented :
          (call : Call) (server : Server S R)
          → IsReady (h.contents server.world.session)
          → IsNormal env (h.contents server.world.session).users
          → (documents (method call) (path call) (
                status_of phrase request issues db env redis show settings email_str codec call
                  server)
              ≡ true)
            ⊎ ((path call ≡ "/api/v1/users/{user_id}")
                × (status_of phrase request issues db env redis show settings email_str codec call
                      server
                    ≡ 404))
      unfolding status_of liveness readiness handle Endpoints.logout Endpoints.refresh
      answers_documented (register client body) server ready normal = inl (
          register_documented phrase request issues db env redis show settings email_str codec
            client body server)
      answers_documented (login client body) server ready normal = inl (
          login_documented phrase request issues db env redis show settings email_str codec h names
            decodes client body server
            (ready-Apart phrase request issues db env redis show settings email_str codec h names
              decodes server ready))
      answers_documented (logout token) server ready normal = inl (
          answer-IsAnswered phrase request issues db env redis show settings email_str codec
            (logout token) 204 (Logout.execute db env token) server (refl, refl, refl) refl
            (LogoutRaises.execute-Errs db env h names decodes token server.world (
              ready-Apart phrase request issues db env redis show settings email_str codec h names
                decodes server ready)))
      answers_documented (refresh token) server ready normal = inl (
          answer-IsAnswered phrase request issues db env redis show settings email_str codec
            (refresh token) 200 (Refresh.execute db env token) server (refl, refl, refl) refl
            (RefreshRaises.execute-Errs db env h names decodes token server.world (
              ready-Apart phrase request issues db env redis show settings email_str codec h names
                decodes server ready)))
      answers_documented (change_password credentials body) server ready normal = inl (
          change_password_documented phrase request issues db env redis show settings email_str
            codec h names decodes credentials body server ready normal)
      answers_documented (read_me credentials) server ready normal = inl (
          read_me_documented phrase request issues db env redis show settings email_str codec h
            names decodes credentials server)
      answers_documented (get_user credentials id) server ready normal =
          elim (get_user_documented phrase request issues db env redis show settings email_str codec
            h names decodes credentials id server) [
              | inl known ↦ inl known
              | inr unknown ↦ inr (refl, unknown)
            ]
      answers_documented (list_users credentials limit cursor) server ready normal = inl (
          list_users_documented phrase request issues db env redis show settings email_str codec h
            names decodes credentials limit cursor server)
      answers_documented probe_liveness server ready normal = inl refl
      answers_documented (probe_readiness none) server ready normal = inl refl
      answers_documented (probe_readiness (some name)) server ready normal = inl refl
