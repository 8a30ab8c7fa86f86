-- ===== src/Config.antt =====
-- app/core/config.py: the settings, and the validator that refuses an unsafe production setup.
pub mod Safety
use Prim.Native.String
use fastapi_starter.Prelude.{
  ℕ, ◌≡◌, refl, String, Bool, true, false, Option, none, some, List, [], ◌∷◌, ◌++◌, any, ltb,
  if◌then◌else◌, str_eq,
}
use fastapi_starter.Domain.Errors.{Result, ok, err}
use fastapi_starter.Security.{JwtSettings}
use fastapi_starter.RateLimit.{RateLimitSettings}

pub data Environment : Type 0 where
  local test staging production : Environment

pub record AppSettings : Type 0 where
  pub name : String
  pub debug : Bool
  pub cors_origins : List String
  pub allowed_hosts : List String
  pub max_request_body_bytes : ℕ

pub record DatabaseSettings : Type 0 where
  pub url : String
  pub echo : Bool
  pub pool_size : ℕ
  pub max_overflow : ℕ

pub record ObservabilitySettings : Type 0 where
  pub enabled : Bool
  pub otlp_endpoint : String
  pub service_name : String

pub record Settings : Type 0 where
  pub environment : Environment
  pub app : AppSettings
  pub database : DatabaseSettings
  pub jwt : JwtSettings
  pub redis_url : String
  pub rate_limit : RateLimitSettings
  pub observability : ObservabilitySettings

abbrev pub is_production_environment : Environment → Bool
is_production_environment production = true
is_production_environment local = false
is_production_environment test = false
is_production_environment staging = false

abbrev pub is_production : Settings → Bool
is_production settings = is_production_environment settings.environment

abbrev pub insecure_jwt_secret : String
insecure_jwt_secret = "change-me-in-production"

abbrev pub min_jwt_secret_bytes : ℕ
min_jwt_secret_bytes = 32

-- `"*" in items`
abbrev pub has_wildcard : List String → Bool
has_wildcard = any (λ s. str_eq s "*")

abbrev pub problem_if : Bool → String → List String → List String
problem_if true problem problems = problems ++ problem ∷ []
problem_if false problem problems = problems

abbrev pub secret_problems : String → List String
secret_problems secret =
    if str_eq secret insecure_jwt_secret
    then "JWT__SECRET is still the insecure default" ∷ []
    else if ltb (String.len secret) min_jwt_secret_bytes
    then "JWT__SECRET is shorter than 32 bytes" ∷ []
    else []

unfoldable pub problems : Settings → List String
problems settings =
    problem_if (has_wildcard settings.app.allowed_hosts)
      "APP__ALLOWED_HOSTS must list explicit hosts"
      (problem_if (has_wildcard settings.app.cors_origins)
        "APP__CORS_ORIGINS must not contain a wildcard"
        (problem_if settings.app.debug "APP__DEBUG must be false in production"
          (secret_problems settings.jwt.secret)))

-- `"; ".join(problems)`
abbrev pub joined : List String → String
joined [] = ""
joined (p ∷ []) = p
joined (p ∷ q ∷ ps) = String.◌++◌ p (String.◌++◌ "; " (joined (q ∷ ps)))

-- The validator: `none`, or the text of the ValueError.
abbrev pub refusal : List String → Option String
refusal [] = none
refusal (p ∷ ps) = some (String.◌++◌ "unsafe production configuration: " (joined (p ∷ ps)))

unfoldable pub reject_unsafe_production_config : Settings → Option String
unfolding problems
reject_unsafe_production_config settings =
    if is_production settings then refusal (problems settings) else none

-- The paths of the interactive documentation and the schema in `create_app` (main.py).
unfoldable pub documentation_urls : Settings → List (Option String)
documentation_urls settings =
    if is_production settings
    then none ∷ none ∷ none ∷ []
    else some "/docs" ∷ some "/redoc" ∷ some "/openapi.json" ∷ []

-- `get_settings`, on what its `lru_cache` holds and what loading the environment gives or raises;
-- a call that raises is not cached.
unfoldable pub get_settings : Result Settings → Option Settings → Result Settings × Option Settings
get_settings loaded (some settings) = (ok settings, some settings)
get_settings (ok settings) none = (ok settings, some settings)
get_settings (err e) none = (err e, none)

-- Once loaded, the settings stay the same, whatever becomes of the environment.
settings_stay :
    (first second : Result Settings) (cache : Option Settings) {settings : Settings}
    → (get_settings first cache).0 ≡ ok settings
    → get_settings second (get_settings first cache).1 ≡ (ok settings, some settings)
unfolding get_settings
settings_stay first second (some cached) {settings} h =
    let same : cached ≡ settings = cc in rw same refl
settings_stay (ok loaded) second none {settings} h =
    let same : loaded ≡ settings = cc in rw same refl
settings_stay (err e) second none {settings} h = cc
