-- ===== src/Api/Routes/Documented.antt =====
-- Which statuses the endpoints answer, beside those that the schema documents.
use fastapi_starter.Prelude.{
  ℕ, String, ◌≡◌, refl, Bool, true, false, ◌&&◌, Option, none, List, find, Bool-cases, inl, inr,
}
use fastapi_starter.Domain.Errors.{
  Error, domain_of, message, user_not_found, Result, ok, err, domain, http, other, validation_error,
  email_already_exists,
}
use fastapi_starter.Exec.{Errs}
use fastapi_starter.Ports.{Env}
use fastapi_starter.Database.Session.{Session, has_id}
use fastapi_starter.Users.CreateUser.{CreateUserCommand, execute}
use fastapi_starter.Users.CreateUser.Raises.{OfRegistration, execute-Errs}
use fastapi_starter.Queries
use fastapi_starter.Queries.{Cursors}
use fastapi_starter.Auth.CurrentUser.{get_current_user}
use fastapi_starter.Auth.CurrentUser.Guard.{get_current_user_keeps}
use fastapi_starter.Domain.Users.{Uuid, User}
use fastapi_starter.RateLimit.{Redis, RateLimitSettings, check, rate_key, rate_limit_auth}
use fastapi_starter.Api.Problems.{
  RequestInfo, exception, invalid_request, handle, spec_for, error_map, mro,
}
use fastapi_starter.Api.Endpoints.{
  Reply, sent, raised, unprocessable, Server, get_user, register, password_fits, reply, if_valid,
  answer,
}
use fastapi_starter.Api.Routes.{documents}

-- The status line that the client reads.
module _ (phrase : ℕ → Option String) (request : RequestInfo)
    (issues : List (List String × String × String)) where
  abbrev pub reply_status : {A : Type 0} → Reply A → ℕ
  reply_status (sent status body) = status
  reply_status (raised e) = (handle phrase request (exception e)).status_code
  reply_status unprocessable = (handle phrase request (invalid_request issues)).status_code

  abbrev documents_registration : ℕ → Bool
  documents_registration = documents "POST" "/api/v1/auth/register"

  error_documented :
      (e : Error)
      → OfRegistration e
      → documents_registration (handle phrase request (exception e)).status_code ≡ true
  unfolding handle spec_for error_map mro
  error_documented (domain validation_error text) of = refl
  error_documented (domain email_already_exists text) of = refl
  error_documented (domain e text) of = absurd of
  error_documented (http status detail headers) of = absurd of
  error_documented (other name) of = refl

  module _ {S R : Type 0} (db : Session S) (env : Env) (redis : Redis R) (show : ℕ → String)
      (settings : RateLimitSettings) (email_str : String → Bool) (codec : Cursors) where
    abbrev IsDocumented : {A : Type 0} → Reply A × Server S R → Type 0
    IsDocumented answer = documents_registration (reply_status answer.0) ≡ true

    result_documented :
        {A : Type 0} (r : Result A)
        → Errs OfRegistration r
        → documents_registration
            (reply_status (reply db env redis show settings email_str codec 201 r))
          ≡ true
    result_documented (ok a) errs = refl
    result_documented (err e) errs = error_documented e errs

    valid-IsDocumented :
        (valid : Bool) (body : CreateUserCommand) (server : Server S R)
        → IsDocumented (
            if_valid db env redis show settings email_str codec valid
              (answer db env redis show settings email_str codec 201 (execute db env body))
              server)
    unfolding handle
    valid-IsDocumented true body server =
        result_documented (execute db env body server.world).0
          (execute-Errs db env body server.world)
    valid-IsDocumented false body server = refl

    -- Whatever is sent to the registration, and whatever the state is, the answer has a status that
    -- the schema of the API documents for it: the endpoint raises no other error.
    pub register_documented :
        (client : Option String) (body : CreateUserCommand) (server : Server S R)
        → documents "POST" "/api/v1/auth/register" (
            reply_status (register db env redis show settings email_str codec client body server).0)
          ≡ true
    unfolding register rate_limit_auth handle
    register_documented client body server =
        let decision =
          check redis (rate_key redis show "/api/v1/auth/register" client) settings.auth_requests
            settings.auth_window_seconds server.cache in
        elim (Bool-cases decision.0.allowed) [
          | inl allowed ↦ rw allowed (
              valid-IsDocumented (email_str body.email && password_fits body.password) body
                (record server { cache = decision.1 }))
          | inr spent ↦ rw spent refl
        ]

    -- A signed-in caller who asks for an unknown user is answered with the error 404, which the
    -- schema of the API does not document for that operation.
    pub unknown_user_undocumented :
        (credentials : String) (id : Uuid) (server : Server S R) (caller : User)
        → (get_current_user db env credentials server.world).0 ≡ ok caller
        → find (has_id id) (db.select_users server.world.session) ≡ none
        → ((get_user db env redis show settings email_str codec credentials id server).0
            ≡ raised (domain_of user_not_found))
          × (reply_status
                (get_user db env redis show settings email_str codec credentials id server).0
              ≡ 404)
          × (documents "GET" "/api/v1/users/{user_id}" 404 ≡ false)
    unfolding get_user Queries.get_user get_current_user handle spec_for error_map mro message
    unknown_user_undocumented credentials id server caller signed_in unknown =
        let kept = get_current_user_keeps db env credentials server.world in
        (rw (signed_in, kept, unknown) refl, rw (signed_in, kept, unknown) refl, refl)
