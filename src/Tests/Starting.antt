-- ===== src/Tests/Starting.antt =====
-- Runs of what happens before the first request: the migrations, the demo user, the application.
use fastapi_starter.Prelude.{◌≡◌, refl, true, false, none, some, [], ◌∷◌}
use fastapi_starter.Database.Schema.{Schema, Catalog, IsCatalog, documented, migrate, string}
use fastapi_starter.Database.Migrations.{to_head, to_base}
use fastapi_starter.Database.Migrations.Environment.{before_set, engine_url}
use fastapi_starter.Database.Migrations.Environment.Percent.{percent_stops_migrations}
use fastapi_starter.Database.Migrations.Chain.{IsFresh, upgraded, migrations_declare_and_undo}
use fastapi_starter.Logging.{Loggers, other_handler}
use fastapi_starter.Config.{reject_unsafe_production_config}
use fastapi_starter.Main.{create_app}
use fastapi_starter.Main.Hardened.{IsHardened, production-IsHardened}
use fastapi_starter.Tests.Interface.{production_settings}

-- A database that is its schema, with alembic's own table.
abbrev schemas : Catalog Schema
schemas = record { execute = documented }

schemas-IsCatalog : IsCatalog schemas
schemas-IsCatalog = record {
  schema = λ s. s;
  fails = λ statement s e. e;
  succeeds = λ statement s s' e. (s', e, refl);
}

abbrev versions : Schema
versions = record {
  tables =
      record {
        name = "alembic_version";
        columns =
            record {
              name = "version_num";
              kind = string 32;
              nullable = false;
              server_default = none;
            }
            ∷ [];
        primary_key = record { name = "alembic_version_pkc"; column = "version_num" };
        foreign_keys = [];
      }
      ∷ [];
  indexes = [];
}

versions-IsFresh : IsFresh versions
versions-IsFresh = record {
  no_users = refl;
  no_refresh_tokens = refl;
  no_email_index = refl;
  no_user_id_index = refl;
  no_family_id_index = refl;
  no_users_indexes = refl;
  no_refresh_tokens_indexes = refl;
  no_users_references = refl;
  no_refresh_tokens_references = refl;
}

migrations_declare_and_undo_example :
    (d' : Schema) × (migrate schemas to_head versions ≡ some d')
    × (d' ≡ upgraded versions)
    × (d'' : Schema) × (migrate schemas to_base d' ≡ some d'')
    × (d'' ≡ versions)
unfolding schemas-IsCatalog
migrations_declare_and_undo_example =
    migrations_declare_and_undo schemas schemas-IsCatalog versions versions-IsFresh

-- Every logger has a handler of its own, as a library may install.
abbrev noisy : Loggers
noisy = record {
  structlog = none;
  root = record { level = 30; handlers = other_handler "root" ∷ []; propagate = true };
  named = λ n. record { level = 0; handlers = other_handler n ∷ []; propagate = false };
}

production-IsHardened_example :
    IsHardened production_settings
      (create_app none [] production_settings noisy).0
      (create_app none [] production_settings noisy).1
unfolding reject_unsafe_production_config
production-IsHardened_example = production-IsHardened none [] production_settings noisy refl refl

-- "p%40" behind "u:", a password with an encoded character.
percent_stops_migrations_example :
    (engine_url (λ name. none) (117 ∷ 58 ∷ 112 ∷ []) ≡ some (117 ∷ 58 ∷ 112 ∷ []))
    × (before_set (117 ∷ 58 ∷ 112 ∷ 37 ∷ 52 ∷ 48 ∷ []) ≡ none)
    × (engine_url (λ name. none) (117 ∷ 58 ∷ 112 ∷ 37 ∷ 52 ∷ 48 ∷ []) ≡ none)
percent_stops_migrations_example =
    percent_stops_migrations (λ name. none) (117 ∷ 58 ∷ 112 ∷ []) (48 ∷ []) 52 refl refl refl
