-- ===== src/Api/Routes.antt =====
-- app/api/v1/router.py, the three routers that it includes, and `problem_responses` of
-- app/api/exception_handlers.py: which statuses the schema of the API documents for each operation.
pub mod Documented
use Prim.Native.String
use fastapi_starter.Prelude.{
  ℕ, String, Bool, false, ◌&&◌, ◌||◌, Option, none, some, List, [], ◌∷◌, ◌++◌, map, any, ◌==◌, find,
  str_eq,
}

pub data DetailModel : Type 0 where
  problem_detail validation_problem_detail : DetailModel

pub record ResponseSpec : Type 0 where
  pub code : ℕ
  pub description : String
  pub model : DetailModel

-- `_RESPONSE_SPECS`
abbrev pub response_specs : List ResponseSpec
response_specs =
    record { code = 401; description = "Missing or invalid credentials"; model = problem_detail }
    ∷ record { code = 404; description = "Resource not found"; model = problem_detail }
    ∷ record { code = 409; description = "Conflicting resource state"; model = problem_detail }
    ∷ record {
      code = 422;
      description = "Request validation error";
      model = validation_problem_detail;
    }
    ∷ record { code = 429; description = "Rate limit exceeded"; model = problem_detail }
    ∷ record { code = 500; description = "Unexpected server error"; model = problem_detail }
    ∷ []

-- `none` is the KeyError of a code that has no entry.
abbrev pub problem_responses : List ℕ → Option (List ResponseSpec)
problem_responses [] = some []
problem_responses (code ∷ codes) = elim (find (λ spec. spec.code == code) response_specs) [
  | none ↦ none
  | some spec ↦ elim (problem_responses codes) [ none ↦ none | some rest ↦ some (spec ∷ rest) ]
]

-- An operation with the status of its success.
pub record Operation : Type 0 where
  pub method : String
  pub path : String
  pub status_code : ℕ
  pub responses : Option (List ResponseSpec)

pub record Router : Type 0 where
  pub prefix : String
  pub responses : Option (List ResponseSpec)
  pub operations : List Operation

abbrev none_more : Option (List ResponseSpec)
none_more = some []

abbrev pub health_router : Router
health_router = record {
  prefix = "/health";
  responses = none_more;
  operations =
      record { method = "GET"; path = ""; status_code = 200; responses = none_more }
      ∷ record { method = "GET"; path = "/ready"; status_code = 200; responses = none_more }
      ∷ [];
}

abbrev pub auth_router : Router
auth_router = record {
  prefix = "/auth";
  responses = none_more;
  operations =
      record {
        method = "POST";
        path = "/register";
        status_code = 201;
        responses = problem_responses (409 ∷ 429 ∷ []);
      }
      ∷ record {
        method = "POST";
        path = "/login";
        status_code = 200;
        responses = problem_responses (401 ∷ 429 ∷ []);
      }
      ∷ record {
        method = "POST";
        path = "/logout";
        status_code = 204;
        responses = problem_responses (401 ∷ []);
      }
      ∷ record {
        method = "POST";
        path = "/refresh";
        status_code = 200;
        responses = problem_responses (401 ∷ []);
      }
      ∷ [];
}

abbrev pub users_router : Router
users_router = record {
  prefix = "/users";
  responses = problem_responses (401 ∷ []);
  operations =
      record { method = "PUT"; path = "/me/password"; status_code = 204; responses = none_more }
      ∷ record { method = "GET"; path = "/me"; status_code = 200; responses = none_more }
      ∷ record { method = "GET"; path = "/{user_id}"; status_code = 200; responses = none_more }
      ∷ record { method = "GET"; path = ""; status_code = 200; responses = none_more }
      ∷ [];
}

abbrev both : Option (List ResponseSpec) → Option (List ResponseSpec) → Option (List ResponseSpec)
both none more = none
both (some specs) none = none
both (some specs) (some more) = some (specs ++ more)

-- `include_router` puts the prefixes in front of a path and joins the responses.
abbrev pub include_router : String → Option (List ResponseSpec) → Router → List Operation
include_router prefix responses router =
    map
      (λ op. record {
        method = op.method;
        path = String.◌++◌ prefix (String.◌++◌ router.prefix op.path);
        status_code = op.status_code;
        responses = both responses (both router.responses op.responses);
      })
      router.operations

abbrev pub api_v1_router : List Operation
api_v1_router =
    let responses = problem_responses (422 ∷ 500 ∷ []) in
    include_router "/api/v1" responses health_router
    ++ (include_router "/api/v1" responses auth_router
        ++ include_router "/api/v1" responses users_router)

abbrev pub lists : ℕ → Option (List ResponseSpec) → Bool
lists status none = false
lists status (some specs) = any (λ spec. spec.code == status) specs

-- Whether the schema documents a status for the operation.
abbrev pub documents : String → String → ℕ → Bool
documents method path status =
    any
      (λ op.
        str_eq op.method method
        && str_eq op.path path
        && (op.status_code == status || lists status op.responses))
      api_v1_router
