-- ===== src/Main/Hardened.antt =====
-- What the accepted settings of a production start make of the application.
use fastapi_starter.Prelude.{
  String, ◌≡◌, refl, Bool, true, false, Option, none, List, [], ◌∷◌, any, Bool-cases, inl, inr,
}
use fastapi_starter.Config.{
  Settings, production, is_production, has_wildcard, reject_unsafe_production_config,
}
use fastapi_starter.Config.Safety.{accepted_iff_IsSafe}
use fastapi_starter.Logging.{
  stream_handler, Loggers, info, json_renderer, dict_tracebacks, remove_processors_meta,
  shared_processors, formatter, tail_processors, log_level,
}
use fastapi_starter.Ioc.{Binding}
use fastapi_starter.Api.Middleware.{
  Layer, security_headers, trusted_host, cors, is_empty, setup_middleware,
}
use fastapi_starter.Main.{Application, create_app}

abbrev pub sends_hsts : Layer → Bool
sends_hsts (security_headers hsts) = hsts
sends_hsts _ = false

-- A layer that admits every host or every origin.
abbrev pub admits_all : Layer → Bool
admits_all (trusted_host hosts) = has_wildcard hosts
admits_all (cors origins) = has_wildcard origins
admits_all _ = false

pub record IsHardened (settings : Settings) (app : Application) (loggers : Loggers) : Type 0 where
  pub no_documentation : app.documentation ≡ none ∷ none ∷ none ∷ []
  pub no_debug : app.debug ≡ false
  pub transport : any sends_hsts app.middleware ≡ true
  pub explicit : any admits_all app.middleware ≡ false
  pub level : loggers.root.level ≡ info
  pub rendering :
      loggers.root.handlers
      ≡ stream_handler (record {
        foreign_pre_chain = shared_processors settings;
        processors = remove_processors_meta ∷ dict_tracebacks ∷ json_renderer ∷ [];
      })
        ∷ []

-- If the settings of a production start are accepted, the application publishes no documentation
-- and is not in debug mode, one of its layers sends the transport header and none admits every host
-- or origin, and its one log handler renders JSON from the level INFO on.
pub production-IsHardened :
    (distribution : Option String) (extra : List Binding) (settings : Settings) (loggers : Loggers)
    → settings.environment ≡ production
    → reject_unsafe_production_config settings ≡ none
    → IsHardened settings
        (create_app distribution extra settings loggers).0
        (create_app distribution extra settings loggers).1
unfolding create_app setup_middleware formatter tail_processors log_level
production-IsHardened distribution extra settings loggers deployed accepted =
    let live : is_production settings ≡ true = rw deployed refl in
    let safe = (accepted_iff_IsSafe settings live).0 accepted in
    record {
      no_documentation = rw deployed refl;
      no_debug = safe.no_debug;
      transport = elim (Bool-cases (is_empty settings.app.cors_origins)) [
        | inl none_given ↦ rw (none_given, live) refl
        | inr given ↦ rw (given, live) refl
      ];
      explicit = elim (Bool-cases (is_empty settings.app.cors_origins)) [
        | inl none_given ↦ rw (none_given, safe.explicit_hosts) refl
        | inr given ↦ rw (given, safe.explicit_origins, safe.explicit_hosts) refl
      ];
      level = rw safe.no_debug refl;
      rendering = rw deployed refl;
    }
