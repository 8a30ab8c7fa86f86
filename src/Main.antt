-- ===== src/Main.antt =====
-- app/main.py: the application that the factory assembles.
pub mod Hardened
use fastapi_starter.Prelude.{String, Bool, Option, none, some, List, [], ◌∷◌, if◌then◌else◌}
use fastapi_starter.Domain.Errors.{Result, ok, err}
use fastapi_starter.Config.{Settings, Environment, documentation_urls}
use fastapi_starter.Logging.{Loggers, configure_logging}
use fastapi_starter.Telemetry.{Telemetry, configure_telemetry}
use fastapi_starter.Ioc.{Binding, create_container}
use fastapi_starter.Api.Middleware.{Layer, setup_middleware}
use fastapi_starter.Api.Routes.{Operation, api_v1_router}

-- What the client of the application can see; `documentation` has `docs_url`, `redoc_url` and
-- `openapi_url`.
pub record Application : Type 0 where
  pub title : String
  pub version : String
  pub debug : Bool
  pub documentation : List (Option String)
  pub middleware : List Layer
  pub routes : List Operation
  pub container : List Binding
  pub telemetry : Option Telemetry

-- The version of the installed distribution is given; `none` is its PackageNotFoundError.
abbrev pub app_version : Option String → String
app_version (some version) = version
app_version none = "0.0.0"

unfoldable pub create_app :
    Option String → List Binding → Settings → Loggers → Application × Loggers
unfolding documentation_urls setup_middleware configure_logging configure_telemetry
create_app distribution extra_providers settings loggers = (
  record {
    title = settings.app.name;
    version = app_version distribution;
    debug = settings.app.debug;
    documentation = documentation_urls settings;
    middleware = setup_middleware settings;
    routes = api_v1_router;
    container = create_container extra_providers;
    telemetry =
        if settings.observability.enabled then some (configure_telemetry settings) else none;
  },
  configure_logging settings loggers,
)

-- What the lifespan logs.
pub data LifespanEvent : Type 0 where
  app_startup : String → Environment → Bool → LifespanEvent
  app_shutdown : String → LifespanEvent

-- The events of a run of the application, with what the closing of the container gives or raises.
unfoldable pub lifespan : Settings → Result (Unit {0}) → List LifespanEvent
lifespan settings (ok _) =
    app_startup settings.app.name settings.environment settings.app.debug
    ∷ app_shutdown settings.app.name
    ∷ []
lifespan settings (err e) =
    app_startup settings.app.name settings.environment settings.app.debug ∷ []
