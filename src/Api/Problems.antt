-- ===== src/Api/Problems.antt =====
-- app/api/exception_handlers.py: every error as a problem+json response.
pub mod Contract
use Prim.Native.String
use fastapi_starter.Prelude.{
  ℕ, String, Bool, true, false, Option, none, some, List, [], ◌∷◌, ◌++◌, map, any, ◌==◌,
  if◌then◌else◌, str_eq,
}
use fastapi_starter.Domain.Errors.{
  DomainError, domain_error, validation_error, user_not_found, email_already_exists,
  invalid_credentials, invalid_token, token_expired, Error, domain, http, other,
}

pub record ValidationIssue : Type 0 where
  pub loc : String
  pub msg : String
  pub kind : String

-- `ProblemDetail`, and with `errors` the `ValidationProblemDetail`; `kind` is its `type`.
pub record ProblemDetail : Type 0 where
  pub kind : String
  pub title : String
  pub status : ℕ
  pub detail : Option String
  pub instance_path : Option String
  pub errors : Option (List ValidationIssue)

abbrev pub ErrorSpec : Type 0
ErrorSpec = ℕ × String × String

-- `_ERROR_MAP.get`
unfoldable pub error_map : DomainError → Option ErrorSpec
error_map user_not_found = some (404, "user-not-found", "User not found")
error_map email_already_exists = some (409, "email-already-exists", "Email already exists")
error_map invalid_credentials = some (401, "invalid-credentials", "Invalid credentials")
error_map invalid_token = some (401, "invalid-token", "Invalid token")
error_map token_expired = some (401, "token-expired", "Token expired")
error_map validation_error = some (422, "validation-error", "Validation error")
error_map domain_error = none

abbrev pub default_spec : ErrorSpec
default_spec = (400, "domain-error", "Domain error")

-- The classes of `type(exc).__mro__` that derive from DomainError, in its order.
unfoldable pub mro : DomainError → List DomainError
mro domain_error = domain_error ∷ []
mro token_expired = token_expired ∷ invalid_token ∷ domain_error ∷ []
mro validation_error = validation_error ∷ domain_error ∷ []
mro user_not_found = user_not_found ∷ domain_error ∷ []
mro email_already_exists = email_already_exists ∷ domain_error ∷ []
mro invalid_credentials = invalid_credentials ∷ domain_error ∷ []
mro invalid_token = invalid_token ∷ domain_error ∷ []

abbrev pub or_next : Option ErrorSpec → ErrorSpec → ErrorSpec
or_next (some spec) next = spec
or_next none next = next

walk_mro : List DomainError → ErrorSpec
unfolding error_map
walk_mro [] = default_spec
walk_mro (klass ∷ rest) = or_next (error_map klass) (walk_mro rest)

unfoldable pub spec_for : DomainError → ErrorSpec
unfolding walk_mro mro
spec_for e = walk_mro (mro e)

-- What a handler reads of the request.
pub record RequestInfo : Type 0 where
  pub path : String
  pub request_id : Option String

pub record Response : Type 0 where
  pub status_code : ℕ
  pub media_type : String
  pub content : ProblemDetail
  pub headers : List (String × String)

-- `dict.setdefault`
abbrev pub set_default : String → String → List (String × String) → List (String × String)
set_default key value headers =
    if any (λ h. str_eq h.0 key) headers then headers else headers ++ (key, value) ∷ []

abbrev pub stamped : Option String → List (String × String) → List (String × String)
stamped none headers = headers
stamped (some id) headers = set_default "X-Request-ID" id headers

abbrev pub challenged : ℕ → List (String × String) → List (String × String)
challenged status headers =
    if status == 401 then set_default "WWW-Authenticate" "Bearer" headers else headers

unfoldable pub problem_response : RequestInfo → ProblemDetail → List (String × String) → Response
problem_response request problem headers = record {
  status_code = problem.status;
  media_type = "application/problem+json";
  content = problem;
  headers = stamped request.request_id (challenged problem.status headers);
}

-- The location of an issue is its parts, each as a text, joined by dots.
abbrev pub dotted : List String → String
dotted [] = ""
dotted (part ∷ []) = part
dotted (part ∷ next ∷ parts) = String.◌++◌ part (String.◌++◌ "." (dotted (next ∷ parts)))

unfoldable pub validation_error_handler :
    RequestInfo → List (List String × String × String) → Response
unfolding problem_response
validation_error_handler request issues =
    problem_response request
      (record {
        kind = "about:blank#request-validation-error";
        title = "Request validation error";
        status = 422;
        detail = some "The request body or parameters failed validation.";
        instance_path = some request.path;
        errors = some (map (λ i. record { loc = dotted i.0; msg = i.1; kind = i.2 }) issues);
      })
      []

-- An exception as Starlette looks up its handler: FastAPI's RequestValidationError with its issues,
-- or another one. The name in `other` is then that of a class that neither is one of the three that
-- have a handler of their own nor derives from one.
pub data Caught : Type 0 where
  invalid_request : List (List String × String × String) → Caught
  exception : Error → Caught

-- `HTTPStatus(code).phrase` of the standard library; `none` is its ValueError.
module _ (phrase : ℕ → Option String) where
  unfoldable pub domain_error_handler : RequestInfo → DomainError → String → Response
  unfolding spec_for problem_response
  domain_error_handler request e message =
      let (status, slug, title) = spec_for e in
      problem_response request
        (record {
          kind = String.◌++◌ "about:blank#" slug;
          title = title;
          status = status;
          detail = some message;
          instance_path = some request.path;
          errors = none;
        })
        []

  title_of : Option String → String
  title_of none = "HTTP error"
  title_of (some title) = title

  unfoldable pub http_exception_handler :
      RequestInfo → ℕ → String → List (String × String) → Response
  unfolding problem_response title_of
  http_exception_handler request status detail headers =
      problem_response request
        (record {
          kind = "about:blank#http-error";
          title = title_of (phrase status);
          status = status;
          detail = some detail;
          instance_path = some request.path;
          errors = none;
        })
        headers

  unfoldable pub unhandled_exception_handler : RequestInfo → Response
  unfolding problem_response
  unhandled_exception_handler request =
      problem_response request
        (record {
          kind = "about:blank";
          title = "Internal Server Error";
          status = 500;
          detail = some "An unexpected error occurred.";
          instance_path = some request.path;
          errors = none;
        })
        []

  -- `register_exception_handlers`: the handler that is registered for the class of the exception,
  -- the last one for every class that has none. In debug mode Starlette answers in place of the last.
  unfoldable pub handle : RequestInfo → Caught → Response
  unfolding domain_error_handler http_exception_handler unhandled_exception_handler
      validation_error_handler
  handle request (invalid_request issues) = validation_error_handler request issues
  handle request (exception (domain e message)) = domain_error_handler request e message
  handle request (exception (http status detail headers)) =
      http_exception_handler request status detail headers
  handle request (exception (other name)) = unhandled_exception_handler request
