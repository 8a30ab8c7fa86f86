-- ===== src/Tests/Interface.antt =====
-- Runs of the read side, the settings and the HTTP layer.
use fastapi_starter.Prelude.{
  ℕ, ◌≡◌, ◌↔◌, refl, ap, String, true, false, Option, none, some, [], ◌∷◌, arith,
}
use fastapi_starter.Domain.Errors.{ok, err, http, domain, token_expired}
use fastapi_starter.Domain.Users.{UserId, from_str}
use fastapi_starter.Domain.Email.{email, hashed_password}
use fastapi_starter.Ports.{Env, TokenPayload, access}
use fastapi_starter.Database.Memory.{memory}
use fastapi_starter.Database.Session.{Contents}
use fastapi_starter.Database.Models.{UserModel}
use fastapi_starter.Database.UserMapper
use fastapi_starter.Database.UserRepository
use fastapi_starter.Auth.CurrentUser.{get_current_user}
use fastapi_starter.Auth.CurrentUser.Guard.{get_current_user_sound}
use fastapi_starter.Users.CreateUser.{CreateUserCommand}
use fastapi_starter.Queries.{Cursors, decode_cursor, encode_cursor, view}
use fastapi_starter.Queries.Paging.{walk, walk_lists_all}
use fastapi_starter.Config.{Settings, production, reject_unsafe_production_config}
use fastapi_starter.Config.Safety.{IsSafe, accepted_iff_IsSafe}
use fastapi_starter.Api.Problems.{exception, handle}
use fastapi_starter.Api.Problems.Contract.{IsProblem, handle-IsProblem}
use fastapi_starter.Api.Middleware.{http_request, read_body}
use fastapi_starter.Api.Middleware.Limits.{read_body_lem}
use fastapi_starter.Api.Endpoints.{raised, Server, login, register}
use fastapi_starter.Api.Endpoints.Limited.{spent_limit_protects}
use fastapi_starter.Auth.Login.{LoginCommand}
use fastapi_starter.RateLimit.{check, Ttl, seconds, RateLimitSettings}
use fastapi_starter.Tests.{
  env, service, ann, bob, start, ann_user, show_uuid, parse_uuid, size-show_uuid,
}
use fastapi_starter.Tests.Tokens.{settings, counters, counters-IsRedis}

abbrev pub codec : Cursors
codec = record {
  uuid_str = show_uuid;
  uuid_parse = parse_uuid;
  b64_encode = λ s. s;
  b64_decode = λ s. some s;
}

cursor_read_back : (i : ℕ) → decode_cursor codec (encode_cursor codec i) ≡ ok i
unfolding decode_cursor
cursor_read_back i = ap ok (size-show_uuid i)

-- Three rows out of order, in pages of two.
abbrev cy : UserModel
cy = record ann { id = 3; email = "cy@x.org" }

walk_lists_all_example :
    walk codec 2 4 none (cy ∷ ann ∷ bob ∷ []) ≡ view ann ∷ view bob ∷ view cy ∷ []
walk_lists_all_example = walk_lists_all codec cursor_read_back 1 (cy ∷ ann ∷ bob ∷ []) refl

abbrev pub production_settings : Settings
production_settings = record {
  environment = production;
  app = record {
    name = "app";
    debug = false;
    cors_origins = "https://x.org" ∷ [];
    allowed_hosts = "x.org" ∷ [];
    max_request_body_bytes = 100;
  };
  database = record { url = "postgresql"; echo = false; pool_size = 5; max_overflow = 10 };
  jwt = settings;
  redis_url = "redis";
  rate_limit = record { auth_requests = 2; auth_window_seconds = 60 };
  observability = record { enabled = false; otlp_endpoint = ""; service_name = "" };
}

accepted_iff_IsSafe_example :
    (reject_unsafe_production_config production_settings ≡ none) ↔ IsSafe production_settings
accepted_iff_IsSafe_example = accepted_iff_IsSafe production_settings refl

abbrev pub no_phrase : ℕ → Option String
no_phrase n = none

handle-IsProblem_example : IsProblem "/api/v1/users/me" "id-1" 401 (
    handle no_phrase
      (record { path = "/api/v1/users/me"; request_id = some "id-1" })
      (exception (domain token_expired "Token has expired.")))
handle-IsProblem_example =
    handle-IsProblem no_phrase "/api/v1/users/me" "id-1"
      (exception (domain token_expired "Token has expired.")) tt refl refl

read_body_lem_example :
    read_body 100 (http_request 60 ∷ http_request 41 ∷ []) 0
    ≡ err (http 413 "Request body too large." [])
read_body_lem_example = read_body_lem 100 (http_request 60 ∷ http_request 41 ∷ []) 0 (ground arith)

abbrev pub bearer : Env
bearer = record env {
  tokens = record service {
    decode = λ n token. ok (record { subject = "|"; token_type = access; token_id = 9 });
  };
}

get_current_user_sound_example :
    (payload : TokenPayload) × (bearer.tokens.decode 10 "bearer" ≡ ok payload)
    × (payload.token_type ≡ access)
    × (id : UserId) × (from_str parse_uuid payload.subject ≡ ok id)
    × ((UserRepository.get_by_id memory bearer id (record start { calls = 11 })).0
        ≡ ok (some ann_user))
    × (ann_user.is_active ≡ true)
unfolding get_current_user memory UserMapper.to_domain email hashed_password
get_current_user_sound_example = get_current_user_sound memory bearer "bearer" start ann_user refl

-- Every counter stands at the limit.
abbrev spent : String → ℕ × Ttl
spent k = (2, seconds 30)

abbrev pub limit : RateLimitSettings
limit = record { auth_requests = 2; auth_window_seconds = 60 }

abbrev pub busy : Server Contents (String → ℕ × Ttl)
busy = record { world = start; cache = spent }

abbrev pub show_text : ℕ → String
show_text n = "30"

abbrev attempt : LoginCommand
attempt = record { email = "ann@x.org"; password = "secret" }

abbrev pub joining : CreateUserCommand
joining = record { email = "cy@x.org"; password = "pass word" }

abbrev after_check : String → Server Contents (String → ℕ × Ttl)
after_check key = record busy { cache = (check counters key 2 60 spent).1 }

spent_limit_protects_example :
    (login memory env counters show_text limit (λ s. true) codec none attempt busy ≡ (
      raised (http 429 "Too many requests; try again later." (("Retry-After", "30") ∷ [])),
      after_check "/api/v1/auth/login:unknown",
    ))
    × (register memory env counters show_text limit (λ s. true) codec none joining busy ≡ (
      raised (http 429 "Too many requests; try again later." (("Retry-After", "30") ∷ [])),
      after_check "/api/v1/auth/register:unknown",
    ))
spent_limit_protects_example =
    spent_limit_protects memory env counters show_text limit (λ s. true) codec counters-IsRedis none
      attempt joining busy (ground arith) (ground arith)
