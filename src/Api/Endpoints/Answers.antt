-- ===== src/Api/Endpoints/Answers.antt =====
-- Every operation of the interface as a call, and the status of its answer.
pub mod Each
pub mod Documented
use mathlib.Core.List.{append-nil}
use fastapi_starter.Prelude.{
  ℕ, ◌+◌, String, ◌≡◌, refl, ap, sym, ◌∙◌, Bool, true, false, ◌&&◌, Option, none, some, List, find,
  leb, ◌⊎◌, inl, inr, Bool-cases, min, max, arith, ◌++◌, [],
}
use fastapi_starter.Domain.Errors.{
  Error, domain, http, other, Result, ok, err, domain_of, message, validation_error,
  invalid_credentials, invalid_token, token_expired, domain_error, user_not_found,
  email_already_exists,
}
use fastapi_starter.Domain.Users.{Uuid, User}
use fastapi_starter.Exec.{Exec, Errs, pure}
use fastapi_starter.Ports.{Env, World}
use fastapi_starter.Database.Session.{Session, IsSession, IsReady, has_id}
use fastapi_starter.Database.UserRepository
use fastapi_starter.Database.UserRepository.{load}
use fastapi_starter.Database.Faults.{
  OfSessions, NamesClashes, DecodeRaises, Apart, IsNormal, row_of_loaded,
}
use fastapi_starter.Auth.Login
use fastapi_starter.Auth.Login.{LoginCommand}
use fastapi_starter.Auth.Login.Raises as LoginRaises
use fastapi_starter.Auth.Refresh
use fastapi_starter.Auth.Logout
use fastapi_starter.Auth.Refresh.Raises as RefreshRaises
use fastapi_starter.Auth.Logout.Raises as LogoutRaises
use fastapi_starter.Auth.CurrentUser.{get_current_user}
use fastapi_starter.Auth.CurrentUser.Guard.{get_current_user_sound, get_current_user_keeps}
use fastapi_starter.Auth.CurrentUser.Raises.{get_current_user-Errs}
use fastapi_starter.Users.CreateUser.{CreateUserCommand}
use fastapi_starter.Users.ChangePassword
use fastapi_starter.Users.ChangePassword.{ChangePasswordCommand}
use fastapi_starter.Users.ChangePassword.Raises as ChangePasswordRaises
use fastapi_starter.Queries
use fastapi_starter.Queries.{Cursors, list_rows, clause, decode_cursor}
use fastapi_starter.Database.Models.{UserModel, aware}
use fastapi_starter.RateLimit.{Redis, RateLimitSettings, check, rate_key, rate_limit_auth}
use fastapi_starter.Api.Problems.{
  RequestInfo, exception, invalid_request, handle, spec_for, error_map, mro,
}
use fastapi_starter.Api.Routes.{documents}
use fastapi_starter.Api.Routes.Documented.{reply_status, register_documented}
use fastapi_starter.Api.Health.{liveness, readiness}
use fastapi_starter.Api.Endpoints
use fastapi_starter.Api.Endpoints.{
  Reply, sent, raised, unprocessable, Server, ChangePasswordRequest, authenticated, limited, answer,
  reply, if_valid, password_fits,
}

-- An operation with what the client sends, and for the readiness probe what its statement raises.
pub data Call : Type 0 where
  register : Option String → CreateUserCommand → Call
  login : Option String → LoginCommand → Call
  logout : String → Call
  refresh : String → Call
  change_password : String → ChangePasswordRequest → Call
  read_me : String → Call
  get_user : String → Uuid → Call
  list_users : String → ℕ → Option String → Call
  probe_liveness : Call
  probe_readiness : Option String → Call

abbrev pub method : Call → String
method (register client body) = "POST"
method (login client body) = "POST"
method (logout token) = "POST"
method (refresh token) = "POST"
method (change_password credentials body) = "PUT"
method (read_me credentials) = "GET"
method (get_user credentials id) = "GET"
method (list_users credentials limit cursor) = "GET"
method probe_liveness = "GET"
method (probe_readiness outcome) = "GET"

abbrev pub path : Call → String
path (register client body) = "/api/v1/auth/register"
path (login client body) = "/api/v1/auth/login"
path (logout token) = "/api/v1/auth/logout"
path (refresh token) = "/api/v1/auth/refresh"
path (change_password credentials body) = "/api/v1/users/me/password"
path (read_me credentials) = "/api/v1/users/me"
path (get_user credentials id) = "/api/v1/users/{user_id}"
path (list_users credentials limit cursor) = "/api/v1/users"
path probe_liveness = "/api/v1/health"
path (probe_readiness outcome) = "/api/v1/health/ready"

abbrev pub command_of : ChangePasswordRequest → User → ChangePasswordCommand
command_of body user = record {
  user_id = user.id.value;
  current_password = body.current_password;
  new_password = body.new_password;
}

-- An operation documents what its handler may raise about a session.
abbrev DocumentsErrors : Call → Type 0
DocumentsErrors call =
    (documents (method call) (path call) 401 ≡ true)
    × (documents (method call) (path call) 422 ≡ true)
    × (documents (method call) (path call) 500 ≡ true)

module _ (phrase : ℕ → Option String) (request : RequestInfo)
    (issues : List (List String × String × String)) where
  module _ {S R : Type 0} (db : Session S) (env : Env) (redis : Redis R) (show : ℕ → String)
      (settings : RateLimitSettings) (email_str : String → Bool) (codec : Cursors) where
    -- The status of the answer to a call.
    unfoldable pub status_of : Call → Server S R → ℕ
    status_of (register client body) server =
        reply_status phrase request issues
          (Endpoints.register db env redis show settings email_str codec client body server).0
    status_of (login client body) server =
        reply_status phrase request issues
          (Endpoints.login db env redis show settings email_str codec client body server).0
    status_of (logout token) server =
        reply_status phrase request issues
          (Endpoints.logout db env redis show settings email_str codec token server).0
    status_of (refresh token) server =
        reply_status phrase request issues
          (Endpoints.refresh db env redis show settings email_str codec token server).0
    status_of (change_password credentials body) server =
        reply_status phrase request issues
          (Endpoints.change_password db env redis show settings email_str codec credentials body
            server).0
    status_of (read_me credentials) server =
        reply_status phrase request issues
          (Endpoints.read_me db env redis show settings email_str codec credentials server).0
    status_of (get_user credentials id) server =
        reply_status phrase request issues
          (Endpoints.get_user db env redis show settings email_str codec credentials id server).0
    status_of (list_users credentials limit cursor) server =
        reply_status phrase request issues
          (Endpoints.list_users db env redis show settings email_str codec credentials limit cursor
            server).0
    status_of probe_liveness server = reply_status phrase request issues liveness
    status_of (probe_readiness outcome) server =
        reply_status phrase request issues (readiness outcome)

    error_documented :
        (call : Call)
        → DocumentsErrors call
        → (e : Error) → OfSessions e
        → documents (method call) (path call) (handle phrase request (exception e)).status_code
          ≡ true
    unfolding handle spec_for error_map mro
    error_documented call (d401, d422, d500) (domain validation_error text) of = d422
    error_documented call (d401, d422, d500) (domain invalid_credentials text) of = d401
    error_documented call (d401, d422, d500) (domain invalid_token text) of = d401
    error_documented call (d401, d422, d500) (domain token_expired text) of = d401
    error_documented call d (domain e text) of = absurd of
    error_documented call d (http status detail headers) of = absurd of
    error_documented call (d401, d422, d500) (other name) of = d500

    abbrev pub IsAnswered : {A : Type 0} → Call → Reply A → Type 0
    IsAnswered call r =
        documents (method call) (path call) (reply_status phrase request issues r) ≡ true

    result_documented :
        {A : Type 0} (call : Call) (status : ℕ) (r : Result A)
        → DocumentsErrors call
        → documents (method call) (path call) status ≡ true
        → Errs OfSessions r
        → IsAnswered call (reply db env redis show settings email_str codec status r)
    result_documented call status (ok a) d success errs = success
    result_documented call status (err e) d success errs = error_documented call d e errs

    answer-IsAnswered :
        {A : Type 0} (call : Call) (status : ℕ) (handler : Exec (World S) A) (server : Server S R)
        → DocumentsErrors call
        → documents (method call) (path call) status ≡ true
        → Errs OfSessions (handler server.world).0
        → IsAnswered call
            (answer db env redis show settings email_str codec status handler server).0
    answer-IsAnswered call status handler server d success errs =
        result_documented call status (handler server.world).0 d success errs

    valid-IsAnswered :
        {A : Type 0} (call : Call) (valid : Bool) (endpoint : Server S R → Reply A × Server S R)
        (server : Server S R)
        → DocumentsErrors call
        → IsAnswered call (endpoint server).0
        → IsAnswered call
            (if_valid db env redis show settings email_str codec valid endpoint server).0
    unfolding handle
    valid-IsAnswered call true endpoint server d next = next
    valid-IsAnswered call false endpoint server d next = d.1

    limited-IsAnswered :
        {A : Type 0} (call : Call) (route : String) (client : Option String)
        (endpoint : Server S R → Reply A × Server S R) (server : Server S R)
        → documents (method call) (path call) 429 ≡ true
        → ((cache : R) → IsAnswered call (endpoint (record server { cache = cache })).0)
        → IsAnswered call
            (limited db env redis show settings email_str codec route client endpoint server).0
    unfolding limited rate_limit_auth handle
    limited-IsAnswered call route client endpoint server d429 next =
        let decision =
          check redis (rate_key redis show route client) settings.auth_requests
            settings.auth_window_seconds server.cache in
        elim (Bool-cases decision.0.allowed) [
          | inl allowed ↦ rw allowed (next decision.1)
          | inr spent ↦ rw spent d429
        ]

    authenticated-IsAnswered :
        {A : Type 0} (call : Call) (credentials : String)
        (endpoint : User → Server S R → Reply A × Server S R) (server : Server S R)
        → DocumentsErrors call
        → DecodeRaises env
        → ((user : User)
            → (get_current_user db env credentials server.world).0 ≡ ok user
            → IsAnswered call
                (endpoint user (record server {
                  world = record server.world { calls = server.world.calls + 1 };
                })).0)
        → IsAnswered call
            (authenticated db env redis show settings email_str codec credentials endpoint server).0
    unfolding authenticated get_current_user
    authenticated-IsAnswered call credentials endpoint server d decodes next =
        go (get_current_user db env credentials server.world).0 refl
          (get_current_user-Errs db env decodes credentials server.world)
      where
        go :
            (r : Result User)
            → (get_current_user db env credentials server.world).0 ≡ r
            → Errs OfSessions r
            → IsAnswered call
                (authenticated db env redis show settings email_str codec credentials endpoint
                  server).0
        go (ok user) e errs =
            let kept = get_current_user_keeps db env credentials server.world in
            rw (e, kept) (next user e)
        go (err raising) e errs = rw e (error_documented call d raising errs)
