-- ===== src/Database/Declared.antt =====
-- app/infrastructure/database/models: the columns of the two mapped classes, and the tables that the
-- declarative base makes of them with its naming convention.
use Prim.Native.String.{◌++◌}
use fastapi_starter.Prelude.{
  String, Bool, true, false, Option, none, some, List, [], ◌∷◌, map, where_rows, if◌then◌else◌,
}
use fastapi_starter.Database.Schema.{
  ColumnType, uuid, boolean, datetime_with_timezone, string, Column, ForeignKey, Table, Index,
}

-- The templates of `_NAMING_CONVENTION` that the models need, on the names they are filled with.
abbrev pub ix_name : String → String → String
ix_name table column = "ix_" ++ (table ++ ("_" ++ column))

abbrev pub fk_name : String → String → String → String
fk_name table column referred_table =
    "fk_" ++ (table ++ ("_" ++ (column ++ ("_" ++ referred_table))))

abbrev pub pk_name : String → String
pk_name table = "pk_" ++ table

-- `ForeignKey("users.id", ondelete=…)`
pub record Reference : Type 0 where
  pub table : String
  pub column : String
  pub ondelete : String

-- `mapped_column(…)`
pub record MappedColumn : Type 0 where
  pub name : String
  pub kind : ColumnType
  pub primary_key : Bool
  pub unique : Bool
  pub index : Bool
  pub nullable : Bool
  pub server_default : Option String
  pub foreign_key : Option Reference

pub record Model : Type 0 where
  pub tablename : String
  pub columns : List MappedColumn

abbrev plain_column : String → ColumnType → MappedColumn
plain_column name kind = record {
  name = name;
  kind = kind;
  primary_key = false;
  unique = false;
  index = false;
  nullable = false;
  server_default = none;
  foreign_key = none;
}

abbrev pub user_model : Model
user_model = record {
  tablename = "users";
  columns =
      record (plain_column "id" uuid) { primary_key = true }
      ∷ record (plain_column "email" (string 320)) { unique = true; index = true }
      ∷ plain_column "hashed_password" (string 255)
      ∷ plain_column "is_active" boolean
      ∷ plain_column "created_at" datetime_with_timezone
      ∷ record (plain_column "updated_at" datetime_with_timezone) { server_default = some "now()" }
      ∷ [];
}

abbrev pub refresh_token_model : Model
refresh_token_model = record {
  tablename = "refresh_tokens";
  columns =
      record (plain_column "jti" uuid) { primary_key = true }
      ∷ record (plain_column "user_id" uuid) {
        foreign_key = some (record { table = "users"; column = "id"; ondelete = "CASCADE" });
        index = true;
      }
      ∷ record (plain_column "family_id" uuid) { index = true }
      ∷ plain_column "expires_at" datetime_with_timezone
      ∷ record (plain_column "revoked_at" datetime_with_timezone) { nullable = true }
      ∷ record (plain_column "created_at" datetime_with_timezone) { server_default = some "now()" }
      ∷ [];
}

abbrev as_column : MappedColumn → Column
as_column c = record {
  name = c.name;
  kind = c.kind;
  nullable = c.nullable;
  server_default = c.server_default;
}

-- The column that is the primary key; each mapped class has one.
abbrev key_column : List MappedColumn → String
key_column [] = ""
key_column (c ∷ cs) = if c.primary_key then c.name else key_column cs

abbrev references : String → List MappedColumn → List ForeignKey
references table [] = []
references table (c ∷ cs) = elim c.foreign_key [
  | none ↦ references table cs
  | some r ↦
      record {
        name = fk_name table c.name r.table;
        column = c.name;
        referred_table = r.table;
        referred_column = r.column;
        ondelete = r.ondelete;
      }
      ∷ references table cs
]

abbrev pub declared_table : Model → Table
declared_table m = record {
  name = m.tablename;
  columns = map as_column m.columns;
  primary_key = record { name = pk_name m.tablename; column = key_column m.columns };
  foreign_keys = references m.tablename m.columns;
}

abbrev pub declared_indexes : Model → List Index
declared_indexes m =
    map
      (λ c. record {
        name = ix_name m.tablename c.name;
        table = m.tablename;
        column = c.name;
        unique = c.unique;
      })
      (where_rows (λ c. c.index) m.columns)
