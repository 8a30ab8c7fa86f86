-- ===== src/Database/Migrations.antt =====
-- migrations/versions: the two revisions, as the statements that they ask of the database.
pub mod Chain
pub mod Environment
pub mod Runs
use fastapi_starter.Prelude.{String, true, false, Option, none, some, List, [], ◌∷◌, ◌++◌}
use fastapi_starter.Database.Schema.{
  uuid, boolean, datetime_with_timezone, string, Statement, create_table, create_index, drop_index,
  drop_table,
}

pub record Revision : Type 0 where
  pub revision : String
  pub down_revision : Option String
  pub upgrade : List Statement
  pub downgrade : List Statement

abbrev pub initial : Revision
initial = record {
  revision = "0001_initial";
  down_revision = none;
  upgrade =
      create_table (record {
        name = "users";
        columns =
            record { name = "id"; kind = uuid; nullable = false; server_default = none }
            ∷ record { name = "email"; kind = string 320; nullable = false; server_default = none }
            ∷ record {
              name = "hashed_password";
              kind = string 255;
              nullable = false;
              server_default = none;
            }
            ∷ record { name = "is_active"; kind = boolean; nullable = false; server_default = none }
            ∷ record {
              name = "created_at";
              kind = datetime_with_timezone;
              nullable = false;
              server_default = none;
            }
            ∷ record {
              name = "updated_at";
              kind = datetime_with_timezone;
              nullable = false;
              server_default = some "now()";
            }
            ∷ [];
        primary_key = record { name = "pk_users"; column = "id" };
        foreign_keys = [];
      })
      ∷ create_index
          (record { name = "ix_users_email"; table = "users"; column = "email"; unique = true })
      ∷ [];
  downgrade = drop_index "ix_users_email" ∷ drop_table "users" ∷ [];
}

abbrev pub refresh_tokens : Revision
refresh_tokens = record {
  revision = "0002_refresh_tokens";
  down_revision = some "0001_initial";
  upgrade =
      create_table (record {
        name = "refresh_tokens";
        columns =
            record { name = "jti"; kind = uuid; nullable = false; server_default = none }
            ∷ record { name = "user_id"; kind = uuid; nullable = false; server_default = none }
            ∷ record { name = "family_id"; kind = uuid; nullable = false; server_default = none }
            ∷ record {
              name = "expires_at";
              kind = datetime_with_timezone;
              nullable = false;
              server_default = none;
            }
            ∷ record {
              name = "revoked_at";
              kind = datetime_with_timezone;
              nullable = true;
              server_default = none;
            }
            ∷ record {
              name = "created_at";
              kind = datetime_with_timezone;
              nullable = false;
              server_default = some "now()";
            }
            ∷ [];
        primary_key = record { name = "pk_refresh_tokens"; column = "jti" };
        foreign_keys =
            record {
              name = "fk_refresh_tokens_user_id_users";
              column = "user_id";
              referred_table = "users";
              referred_column = "id";
              ondelete = "CASCADE";
            }
            ∷ [];
      })
      ∷ create_index (record {
        name = "ix_refresh_tokens_user_id";
        table = "refresh_tokens";
        column = "user_id";
        unique = false;
      })
      ∷ create_index (record {
        name = "ix_refresh_tokens_family_id";
        table = "refresh_tokens";
        column = "family_id";
        unique = false;
      })
      ∷ [];
  downgrade =
      drop_index "ix_refresh_tokens_family_id"
      ∷ drop_index "ix_refresh_tokens_user_id"
      ∷ drop_table "refresh_tokens"
      ∷ [];
}

-- `alembic upgrade head` follows the revisions up, `alembic downgrade base` down.
abbrev pub to_head : List Statement
to_head = initial.upgrade ++ refresh_tokens.upgrade

abbrev pub to_base : List Statement
to_base = refresh_tokens.downgrade ++ initial.downgrade
