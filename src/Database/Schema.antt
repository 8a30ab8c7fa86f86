-- ===== src/Database/Schema.antt =====
-- Tables and indexes as the database keeps them, and the statements of alembic's `op` that
-- migrations/versions uses.
pub mod Steps
use fastapi_starter.Prelude.{
  ℕ, String, ◌≡◌, Bool, true, false, not, ◌||◌, ◌&&◌, Option, none, some, List, [], ◌∷◌, ◌++◌, any,
  str_eq, where_rows, if◌then◌else◌,
}

pub data ColumnType : Type 0 where
  uuid boolean datetime_with_timezone : ColumnType
  string : ℕ → ColumnType

pub record Column : Type 0 where
  pub name : String
  pub kind : ColumnType
  pub nullable : Bool
  pub server_default : Option String

pub record PrimaryKey : Type 0 where
  pub name : String
  pub column : String

pub record ForeignKey : Type 0 where
  pub name : String
  pub column : String
  pub referred_table : String
  pub referred_column : String
  pub ondelete : String

pub record Table : Type 0 where
  pub name : String
  pub columns : List Column
  pub primary_key : PrimaryKey
  pub foreign_keys : List ForeignKey

pub record Index : Type 0 where
  pub name : String
  pub table : String
  pub column : String
  pub unique : Bool

pub record Schema : Type 0 where
  pub tables : List Table
  pub indexes : List Index

pub data Statement : Type 0 where
  create_table : Table → Statement
  create_index : Index → Statement
  drop_index : String → Statement
  drop_table : String → Statement

abbrev pub table_named : String → Table → Bool
table_named n t = str_eq t.name n

abbrev pub index_named : String → Index → Bool
index_named n i = str_eq i.name n

abbrev pub on_table : String → Index → Bool
on_table n i = str_eq i.table n

abbrev pub refers_to : String → ForeignKey → Bool
refers_to n f = str_eq f.referred_table n

-- A foreign key of another table.
abbrev pub refers_from_other : String → Table → Bool
refers_from_other n t = not (str_eq t.name n) && any (refers_to n) t.foreign_keys

abbrev pub dangling : List Table → ForeignKey → Bool
dangling tables f = not (any (table_named f.referred_table) tables)

-- What the manual of the database says of each statement; `none` is an error. A table that another
-- one refers to cannot be dropped; the indexes of a dropped table go with it.
abbrev pub documented : Statement → Schema → Option Schema
documented (create_table t) s =
    if any (table_named t.name) s.tables || any (dangling (t ∷ s.tables)) t.foreign_keys
    then none
    else some (record s { tables = s.tables ++ t ∷ [] })
documented (create_index i) s =
    if any (index_named i.name) s.indexes || not (any (table_named i.table) s.tables)
    then none
    else some (record s { indexes = s.indexes ++ i ∷ [] })
documented (drop_index n) s =
    if any (index_named n) s.indexes
    then some (record s { indexes = where_rows (λ i. not (index_named n i)) s.indexes })
    else none
documented (drop_table n) s =
    if not (any (table_named n) s.tables) || any (refers_from_other n) s.tables
    then none
    else some (record {
      tables = where_rows (λ t. not (table_named n t)) s.tables;
      indexes = where_rows (λ i. not (on_table n i)) s.indexes;
    })

-- A database that executes statements.
pub record Catalog (D : Type 0) : Type 0 where
  pub execute : Statement → D → Option D

module _ {D : Type 0} (catalog : Catalog D) where
  -- The statements in turn, up to the first that fails.
  unfoldable pub migrate : List Statement → D → Option D
  migrate [] d = some d
  migrate (statement ∷ rest) d = elim (catalog.execute statement d) [
    | none ↦ none
    | some d' ↦ migrate rest d'
  ]

pub record IsCatalog {D : Type 0} (catalog : Catalog D) : Type 0 where
  pub schema : D → Schema
  pub fails :
      (statement : Statement) (d : D)
      → documented statement (schema d) ≡ none
      → catalog.execute statement d ≡ none
  pub succeeds :
      (statement : Statement) (d : D) (s : Schema)
      → documented statement (schema d) ≡ some s
      → (d' : D) × (catalog.execute statement d ≡ some d') × (schema d' ≡ s)
