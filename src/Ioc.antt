-- ===== src/Ioc.antt =====
-- app/ioc: the bindings that the providers declare and the container that they make together. A
-- provider of the library, FastapiProvider, binds the request itself, which no other binding asks for.
pub mod Fitting
pub mod Together
use fastapi_starter.Prelude.{
  ℕ, zero, suc, Bool, true, false, Option, none, some, List, [], ◌∷◌, ◌++◌, any, ◌==◌,
  if◌then◌else◌,
}

-- The types that the container can be asked for.
pub data Dependency : Type 0 where
  settings database_settings jwt_settings redis_settings rate_limit_settings : Dependency
  engine session_factory session unit_of_work user_query_service : Dependency
  clock password_hasher token_service : Dependency
  redis_client rate_limiter event_dispatcher : Dependency
  change_password_handler create_user_handler login_handler logout_handler : Dependency
  refresh_token_handler get_user_handler list_users_handler : Dependency

-- `Scope.APP` lives as long as the process, `Scope.REQUEST` as long as a request.
pub data Scope : Type 0 where
  app request : Scope

-- What a factory makes, how long it lives, and the parameters of the factory. A factory that yields
-- has a finaliser after the `yield`.
pub record Binding : Type 0 where
  pub provides : Dependency
  pub scope : Scope
  pub needs : List Dependency
  pub finalised : Bool

abbrev kept : Dependency → Scope → List Dependency → Binding
kept provides scope needs = record {
  provides = provides;
  scope = scope;
  needs = needs;
  finalised = false;
}

abbrev yielded : Dependency → Scope → List Dependency → Binding
yielded provides scope needs = record {
  provides = provides;
  scope = scope;
  needs = needs;
  finalised = true;
}

-- `from_context` gives the settings of `create_container`.
abbrev pub config_provider : List Binding
config_provider =
    kept settings app []
    ∷ kept database_settings app (settings ∷ [])
    ∷ kept jwt_settings app (settings ∷ [])
    ∷ kept redis_settings app (settings ∷ [])
    ∷ kept rate_limit_settings app (settings ∷ [])
    ∷ []

abbrev pub database_provider : List Binding
database_provider =
    yielded engine app (database_settings ∷ [])
    ∷ kept session_factory app (engine ∷ [])
    ∷ yielded session request (session_factory ∷ [])
    ∷ kept unit_of_work request (session ∷ [])
    ∷ kept user_query_service request (session ∷ [])
    ∷ []

abbrev pub security_provider : List Binding
security_provider =
    kept clock app []
    ∷ kept password_hasher app []
    ∷ kept token_service app (jwt_settings ∷ clock ∷ [])
    ∷ []

abbrev pub cache_provider : List Binding
cache_provider =
    yielded redis_client app (redis_settings ∷ []) ∷ kept rate_limiter app (redis_client ∷ []) ∷ []

abbrev pub events_provider : List Binding
events_provider = kept event_dispatcher app [] ∷ []

-- The parameters of the constructors of the handlers.
abbrev pub use_cases_provider : List Binding
use_cases_provider =
    kept change_password_handler request (unit_of_work ∷ password_hasher ∷ clock ∷ [])
    ∷ kept create_user_handler request
        (unit_of_work ∷ password_hasher ∷ clock ∷ event_dispatcher ∷ [])
    ∷ kept login_handler request (unit_of_work ∷ password_hasher ∷ token_service ∷ [])
    ∷ kept logout_handler request (unit_of_work ∷ token_service ∷ clock ∷ [])
    ∷ kept refresh_token_handler request (unit_of_work ∷ token_service ∷ clock ∷ [])
    ∷ kept get_user_handler request (user_query_service ∷ [])
    ∷ kept list_users_handler request (user_query_service ∷ [])
    ∷ []

abbrev pub default_bindings : List Binding
default_bindings =
    config_provider
    ++ (database_provider
        ++ (security_provider ++ (cache_provider ++ (events_provider ++ use_cases_provider))))

-- The providers in their order, the extra ones last.
unfoldable pub create_container : List Binding → List Binding
create_container extra = default_bindings ++ extra

-- The numbers of the types, by which they are compared.
abbrev pub code : Dependency → ℕ
code settings = 0
code database_settings = 1
code jwt_settings = 2
code redis_settings = 3
code rate_limit_settings = 4
code engine = 5
code session_factory = 6
code session = 7
code unit_of_work = 8
code user_query_service = 9
code clock = 10
code password_hasher = 11
code token_service = 12
code redis_client = 13
code rate_limiter = 14
code event_dispatcher = 15
code change_password_handler = 16
code create_user_handler = 17
code login_handler = 18
code logout_handler = 19
code refresh_token_handler = 20
code get_user_handler = 21
code list_users_handler = 22

abbrev pub mem : Dependency → List Dependency → Bool
mem d = any (λ n. code n == code d)

-- A factory sees its own scope and the longer one.
abbrev pub visible : Scope → Scope → Bool
visible request scope = true
visible app app = true
visible app request = false
