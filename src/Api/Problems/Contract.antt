-- ===== src/Api/Problems/Contract.antt =====
-- The one error contract that clients see.
use fastapi_starter.Prelude.{
  ℕ, String, ◌≡◌, refl, ◌∙◌, Bool, false, Option, none, some, List, [], ◌∷◌, ◌++◌, any, ◌==◌,
  if◌then◌else◌, str_eq, str_eq_iff, Bool-cases, inl, inr,
}
use fastapi_starter.Domain.Errors.{
  domain_error, validation_error, user_not_found, email_already_exists, invalid_credentials,
  invalid_token, token_expired, domain, http, other,
}
use fastapi_starter.Api.Problems.{
  Response, ProblemDetail, Caught, exception, invalid_request, handle, set_default, challenged,
  problem_response, spec_for, mro, error_map,
}

-- The value of a header.
abbrev pub header : String → List (String × String) → Option String
header key [] = none
header key ((k, v) ∷ rest) = if str_eq k key then some v else header key rest

-- The headers that an exception brings itself.
abbrev pub own_headers : Caught → List (String × String)
own_headers (invalid_request issues) = []
own_headers (exception (domain e text)) = []
own_headers (exception (http status detail headers)) = headers
own_headers (exception (other name)) = []

-- The classes that have a handler of their own, and those that derive from DomainError, by name.
abbrev pub own_handler : List String
own_handler =
    "DomainError" ∷ "RequestValidationError" ∷ "StarletteHTTPException" ∷ "HTTPException"
    ∷ "ValidationError" ∷ "UserNotFoundError" ∷ "EmailAlreadyExistsError"
    ∷ "InvalidCredentialsError" ∷ "InvalidTokenError" ∷ "TokenExpiredError" ∷ []

-- Another class is none of them.
abbrev pub IsApart : Caught → Type 0
IsApart (invalid_request issues) = Unit {0}
IsApart (exception (domain e text)) = Unit {0}
IsApart (exception (http status detail headers)) = Unit {0}
IsApart (exception (other name)) = any (str_eq name) own_handler ≡ false

-- The statuses that the API documents for the errors.
abbrev pub documented_status : Caught → ℕ
documented_status (invalid_request issues) = 422
documented_status (exception (domain user_not_found text)) = 404
documented_status (exception (domain email_already_exists text)) = 409
documented_status (exception (domain validation_error text)) = 422
documented_status (exception (domain domain_error text)) = 400
documented_status (exception (domain invalid_credentials text)) = 401
documented_status (exception (domain invalid_token text)) = 401
documented_status (exception (domain token_expired text)) = 401
documented_status (exception (http status detail headers)) = status
documented_status (exception (other name)) = 500

abbrev named : String → String × String → Bool
named key h = str_eq h.0 key

absent_any :
    (key : String) (headers : List (String × String))
    → header key headers ≡ none
    → any (named key) headers ≡ false
absent_any key [] h = refl
absent_any key ((k, v) ∷ rest) h = elim (Bool-cases (str_eq k key)) [
  | inl same ↦ let e = rw same at h in cc
  | inr apart ↦ rw apart (absent_any key rest (rw apart at h))
]

header-append :
    (key k' v' : String) (headers : List (String × String))
    → header key headers ≡ none
    → header key (headers ++ (k', v') ∷ []) ≡ (if str_eq k' key then some v' else none)
header-append key k' v' [] h = refl
header-append key k' v' ((k, v) ∷ rest) h = elim (Bool-cases (str_eq k key)) [
  | inl same ↦ let e = rw same at h in cc
  | inr apart ↦ rw apart (header-append key k' v' rest (rw apart at h))
]

header-append_other :
    (key k' v' : String) (headers : List (String × String))
    → str_eq k' key ≡ false
    → header key (headers ++ (k', v') ∷ []) ≡ header key headers
header-append_other key k' v' [] h = rw h
header-append_other key k' v' ((k, v) ∷ rest) h =
    let rest' = header-append_other key k' v' rest h in rw rest'

header-set_default :
    (key value : String) (headers : List (String × String))
    → header key headers ≡ none
    → header key (set_default key value headers) ≡ some value
header-set_default key value headers absent =
    let missing = absent_any key headers absent in
    let itself = (str_eq_iff key key).1 refl in
    rw missing (header-append key key value headers absent ∙ rw itself)

header-set_default_other :
    (key k' v' : String) (headers : List (String × String))
    → str_eq k' key ≡ false
    → header key (set_default k' v' headers) ≡ header key headers
header-set_default_other key k' v' headers apart = elim (Bool-cases (any (named k') headers)) [
  | inl there ↦ rw there
  | inr missing ↦ rw missing (header-append_other key k' v' headers apart)
]

header-challenged :
    (status : ℕ) (headers : List (String × String))
    → header "WWW-Authenticate" headers ≡ none
    → header "WWW-Authenticate" (challenged status headers)
      ≡ (if status == 401 then some "Bearer" else none)
header-challenged status headers absent = elim (Bool-cases (status == 401)) [
  | inl unauthorized ↦
      rw unauthorized (header-set_default "WWW-Authenticate" "Bearer" headers absent)
  | inr another ↦ rw another absent
]

id-challenged :
    (status : ℕ) (headers : List (String × String))
    → header "X-Request-ID" headers ≡ none
    → header "X-Request-ID" (challenged status headers) ≡ none
id-challenged status headers absent = elim (Bool-cases (status == 401)) [
  | inl unauthorized ↦
      rw unauthorized
        (header-set_default_other "X-Request-ID" "WWW-Authenticate" "Bearer" headers refl ∙ absent)
  | inr another ↦ rw another absent
]

-- What a response to the given request with the given status must show.
pub record IsProblem (path id : String) (status : ℕ) (r : Response) : Type 0 where
  pub code : r.status_code ≡ status
  pub body : r.content.status ≡ status
  pub media : r.media_type ≡ "application/problem+json"
  pub place : r.content.instance_path ≡ some path
  pub correlated : header "X-Request-ID" r.headers ≡ some id
  pub challenge :
      header "WWW-Authenticate" r.headers ≡ (if status == 401 then some "Bearer" else none)

problem_response-IsProblem :
    (path id : String) (problem : ProblemDetail) (headers : List (String × String))
    → problem.instance_path ≡ some path
    → header "X-Request-ID" headers ≡ none
    → header "WWW-Authenticate" headers ≡ none
    → IsProblem path id problem.status
        (problem_response (record { path = path; request_id = some id }) problem headers)
unfolding problem_response
problem_response-IsProblem path id problem headers here no_id no_challenge = record {
  code = refl;
  body = refl;
  media = refl;
  place = here;
  correlated =
      header-set_default "X-Request-ID" id (challenged problem.status headers)
        (id-challenged problem.status headers no_id);
  challenge =
      header-set_default_other "WWW-Authenticate" "X-Request-ID" id
        (challenged problem.status headers) refl
      ∙ header-challenged problem.status headers no_challenge;
}

-- Outside debug mode, every exception that reaches the registered handlers, be it a DomainError, a
-- RequestValidationError, an HTTPException or of another class, is answered as problem+json with its
-- documented status in the status line and the body, the path of the request, the request id as a
-- header, and the header `WWW-Authenticate: Bearer` exactly for the status 401, if the exception
-- brings neither header itself.
pub handle-IsProblem :
    (phrase : ℕ → Option String) (path id : String) (e : Caught)
    → IsApart e
    → header "X-Request-ID" (own_headers e) ≡ none
    → header "WWW-Authenticate" (own_headers e) ≡ none
    → IsProblem path id
        (documented_status e)
        (handle phrase (record { path = path; request_id = some id }) e)
unfolding handle spec_for error_map mro
handle-IsProblem phrase path id (invalid_request issues) apart no_id no_challenge =
    problem_response-IsProblem path id _ [] refl refl refl
handle-IsProblem phrase path id (exception (domain user_not_found text)) apart no_id no_challenge =
    problem_response-IsProblem path id _ [] refl refl refl
handle-IsProblem phrase path id (exception (domain email_already_exists text)) apart no_id
      no_challenge =
    problem_response-IsProblem path id _ [] refl refl refl
handle-IsProblem phrase path id (exception (domain validation_error text)) apart no_id
      no_challenge =
    problem_response-IsProblem path id _ [] refl refl refl
handle-IsProblem phrase path id (exception (domain domain_error text)) apart no_id no_challenge =
    problem_response-IsProblem path id _ [] refl refl refl
handle-IsProblem phrase path id (exception (domain invalid_credentials text)) apart no_id
      no_challenge =
    problem_response-IsProblem path id _ [] refl refl refl
handle-IsProblem phrase path id (exception (domain invalid_token text)) apart no_id no_challenge =
    problem_response-IsProblem path id _ [] refl refl refl
handle-IsProblem phrase path id (exception (domain token_expired text)) apart no_id no_challenge =
    problem_response-IsProblem path id _ [] refl refl refl
handle-IsProblem phrase path id (exception (http status detail headers)) apart no_id no_challenge =
    problem_response-IsProblem path id _ headers refl no_id no_challenge
handle-IsProblem phrase path id (exception (other name)) apart no_id no_challenge =
    problem_response-IsProblem path id _ [] refl refl refl
