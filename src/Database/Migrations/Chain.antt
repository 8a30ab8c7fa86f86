-- ===== src/Database/Migrations/Chain.antt =====
-- What the two revisions make of a database, up and down.
use mathlib.Core.List.{append-nil}
use fastapi_starter.Prelude.{◌≡◌, refl, ap, sym, ◌∙◌, true, false, some, List, [], ◌∷◌, ◌++◌, any}
use fastapi_starter.Database.Schema.{
  Table, Index, Schema, table_named, index_named, on_table, refers_from_other, Catalog, IsCatalog,
  migrate,
}
use fastapi_starter.Database.Declared.{
  user_model, refresh_token_model, declared_table, declared_indexes,
}
use fastapi_starter.Database.Schema.Steps.{
  documented_all, beside, migrate_lem, create_table_lem, create_index_lem, drop_index_lem,
  drop_table_lem,
}
use fastapi_starter.Database.Migrations.{to_head, to_base}

-- Neither revision has been applied: none of their names is taken, and no table refers to one.
pub record IsFresh (s : Schema) : Type 0 where
  pub no_users : any (table_named "users") s.tables ≡ false
  pub no_refresh_tokens : any (table_named "refresh_tokens") s.tables ≡ false
  pub no_email_index : any (index_named "ix_users_email") s.indexes ≡ false
  pub no_user_id_index : any (index_named "ix_refresh_tokens_user_id") s.indexes ≡ false
  pub no_family_id_index : any (index_named "ix_refresh_tokens_family_id") s.indexes ≡ false
  pub no_users_indexes : any (on_table "users") s.indexes ≡ false
  pub no_refresh_tokens_indexes : any (on_table "refresh_tokens") s.indexes ≡ false
  pub no_users_references : any (refers_from_other "users") s.tables ≡ false
  pub no_refresh_tokens_references : any (refers_from_other "refresh_tokens") s.tables ≡ false

-- `Base.metadata`
abbrev pub metadata : Schema
metadata = record {
  tables = declared_table user_model ∷ declared_table refresh_token_model ∷ [];
  indexes = declared_indexes user_model ++ declared_indexes refresh_token_model;
}

abbrev pub upgraded : Schema → Schema
upgraded s = beside s metadata.tables metadata.indexes

abbrev email_index : Index
email_index = record { name = "ix_users_email"; table = "users"; column = "email"; unique = true }

abbrev user_id_index : Index
user_id_index = record {
  name = "ix_refresh_tokens_user_id";
  table = "refresh_tokens";
  column = "user_id";
  unique = false;
}

abbrev family_id_index : Index
family_id_index = record {
  name = "ix_refresh_tokens_family_id";
  table = "refresh_tokens";
  column = "family_id";
  unique = false;
}

abbrev users : Table
users = declared_table user_model

abbrev tokens : Table
tokens = declared_table refresh_token_model

module _ (s : Schema) (f : IsFresh s) where
  abbrev one : List Table
  one = users ∷ []

  abbrev both : List Table
  both = metadata.tables

  up : documented_all to_head (beside s [] []) ≡ some (upgraded s)
  up =
      rw
        (
          documented_all,
          create_table_lem s [] [] users f.no_users refl refl,
          create_index_lem s one [] email_index f.no_email_index f.no_users refl refl,
          create_table_lem s one (email_index ∷ []) tokens f.no_refresh_tokens refl refl,
          create_index_lem s both (email_index ∷ []) user_id_index f.no_user_id_index
              f.no_refresh_tokens refl refl,
          create_index_lem s both (email_index ∷ user_id_index ∷ []) family_id_index
              f.no_family_id_index f.no_refresh_tokens refl refl,
        )
        refl

  down : documented_all to_base (upgraded s) ≡ some (beside s [] [])
  down =
      rw
        (
          documented_all,
          drop_index_lem s both metadata.indexes "ix_refresh_tokens_family_id" f.no_family_id_index
              refl,
          drop_index_lem s both (email_index ∷ user_id_index ∷ []) "ix_refresh_tokens_user_id"
              f.no_user_id_index refl,
          drop_table_lem s both (email_index ∷ []) "refresh_tokens" f.no_refresh_tokens
              f.no_refresh_tokens_indexes f.no_refresh_tokens_references refl refl,
          drop_index_lem s one (email_index ∷ []) "ix_users_email" f.no_email_index refl,
          drop_table_lem s one [] "users" f.no_users f.no_users_indexes f.no_users_references refl
              refl,
        )
        refl

  nothing_beside : beside s [] [] ≡ s
  nothing_beside = rw (append-nil s.tables, append-nil s.indexes) refl

module _ {D : Type 0} (catalog : Catalog D) (h : IsCatalog catalog) (d : D) where
  upgrade_declares :
      IsFresh (h.schema d)
      → (d' : D) × (migrate catalog to_head d ≡ some d') × (h.schema d' ≡ upgraded (h.schema d))
  upgrade_declares fresh = migrate_lem catalog h to_head d (upgraded (h.schema d)) (
      ap (documented_all to_head) (sym (nothing_beside (h.schema d) fresh)) ∙ up (h.schema d) fresh)

  -- On a database that uses none of their names and has no table that refers to them, the upgrades
  -- run to their end and add exactly the tables and indexes that the mapped classes declare, under
  -- the names of the naming convention; the downgrades then run to their end, and leave the schema
  -- that was there before.
  pub migrations_declare_and_undo :
      IsFresh (h.schema d)
      → (d' : D) × (migrate catalog to_head d ≡ some d')
        × (h.schema d' ≡ upgraded (h.schema d))
        × (d'' : D) × (migrate catalog to_base d' ≡ some d'')
        × (h.schema d'' ≡ h.schema d)
  migrations_declare_and_undo fresh =
      let (d', up_ran, at_head) = upgrade_declares fresh in
      let (d'', down_ran, at_base) = migrate_lem catalog h to_base d' (h.schema d) (
        ap (documented_all to_base) at_head
        ∙ down (h.schema d) fresh
        ∙ ap some (nothing_beside (h.schema d) fresh)) in
      (d', up_ran, at_head, d'', down_ran, at_base)
