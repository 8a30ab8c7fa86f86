-- ===== src/Database/Schema/Steps.antt =====
-- What the documented statements do to a schema beside tables and indexes that they do not name.
use mathlib.Core.List.{append_assoc}
use fastapi_starter.Prelude.{
  String, ◌≡◌, refl, true, false, not, Option, none, some, List, [], ◌∷◌, ◌++◌, any, any-append,
  where_rows, where_rows-append, where_rows-not, arith,
}
use fastapi_starter.Database.Schema.{
  Table, Index, ForeignKey, drop_index, drop_table, Schema, Statement, create_table, create_index,
  table_named, index_named, on_table, refers_from_other, dangling, documented, Catalog, IsCatalog,
  migrate,
}

abbrev pub documented_all : List Statement → Schema → Option Schema
documented_all [] s = some s
documented_all (statement ∷ rest) s = elim (documented statement s) [
  | none ↦ none
  | some s' ↦ documented_all rest s'
]

-- The schema with some of the tables and indexes of the revisions behind its own.
abbrev pub beside : Schema → List Table → List Index → Schema
beside s tables indexes = record { tables = s.tables ++ tables; indexes = s.indexes ++ indexes }

not_dangling :
    (t : Table) (xs ys : List Table) (fs : List ForeignKey)
    → any (dangling (t ∷ ys)) fs ≡ false
    → any (dangling (t ∷ (xs ++ ys))) fs ≡ false
not_dangling t xs ys [] e = refl
not_dangling t xs ys (f ∷ fs) e =
    ground (arith, any-append (table_named f.referred_table) xs ys, not_dangling t xs ys fs)

first_then :
    (first : Option Schema) (rest : List Statement) (t : Schema)
    → elim first [ none ↦ none | some s ↦ documented_all rest s ] ≡ some t
    → (s : Schema) × (first ≡ some s) × (documented_all rest s ≡ some t)
first_then none rest t e = cc
first_then (some s) rest t e = (s, refl, e)

-- A database does what is documented of a list of statements.
module _ {D : Type 0} (catalog : Catalog D) (h : IsCatalog catalog) where
  pub migrate_lem :
      (statements : List Statement) (d : D) (s : Schema)
      → documented_all statements (h.schema d) ≡ some s
      → (d' : D) × (migrate catalog statements d ≡ some d') × (h.schema d' ≡ s)
  unfolding migrate
  migrate_lem [] d s e = (d, refl, ground arith)
  migrate_lem (statement ∷ rest) d s e =
      let (middle, first, later) = first_then (documented statement (h.schema d)) rest s e in
      let (d', done, reached) = h.succeeds statement d middle first in
      let (last, ran, result) = migrate_lem rest d' s (rw reached later) in
      (last, rw (migrate, done) ran, result)

-- Each statement beside the schema's own tables and indexes.
module _ (s : Schema) (ts : List Table) (is : List Index) where
  pub create_table_lem :
      (t : Table)
      → any (table_named t.name) s.tables ≡ false
      → any (table_named t.name) ts ≡ false
      → any (dangling (t ∷ ts)) t.foreign_keys ≡ false
      → documented (create_table t) (beside s ts is) ≡ some (beside s (ts ++ t ∷ []) is)
  create_table_lem t fresh new resolved =
      rw
        (
          documented,
          any-append (table_named t.name) s.tables ts,
          fresh,
          new,
          not_dangling t s.tables ts t.foreign_keys resolved,
          append_assoc s.tables ts (t ∷ []),
        )
        refl

  pub create_index_lem :
      (i : Index)
      → any (index_named i.name) s.indexes ≡ false
      → any (table_named i.table) s.tables ≡ false
      → any (index_named i.name) is ≡ false
      → any (table_named i.table) ts ≡ true
      → documented (create_index i) (beside s ts is) ≡ some (beside s ts (is ++ i ∷ []))
  create_index_lem i fresh own new present =
      rw
        (
          documented,
          any-append (index_named i.name) s.indexes is,
          fresh,
          new,
          any-append (table_named i.table) s.tables ts,
          own,
          present,
          append_assoc s.indexes is (i ∷ []),
        )
        refl

  pub drop_index_lem :
      (n : String)
      → any (index_named n) s.indexes ≡ false
      → any (index_named n) is ≡ true
      → documented (drop_index n) (beside s ts is)
        ≡ some (beside s ts (where_rows (λ i. not (index_named n i)) is))
  drop_index_lem n fresh present =
      rw
        (
          documented,
          any-append (index_named n) s.indexes is,
          fresh,
          present,
          where_rows-append (λ i. not (index_named n i)) s.indexes is,
          where_rows-not (index_named n) s.indexes fresh,
        )
        refl

  pub drop_table_lem :
      (n : String)
      → any (table_named n) s.tables ≡ false
      → any (on_table n) s.indexes ≡ false
      → any (refers_from_other n) s.tables ≡ false
      → any (table_named n) ts ≡ true
      → any (refers_from_other n) ts ≡ false
      → documented (drop_table n) (beside s ts is)
        ≡ some (
            beside s
              (where_rows (λ t. not (table_named n t)) ts)
              (where_rows (λ i. not (on_table n i)) is))
  drop_table_lem n fresh no_index no_reference present free =
      rw
        (
          documented,
          any-append (table_named n) s.tables ts,
          fresh,
          present,
          any-append (refers_from_other n) s.tables ts,
          no_reference,
          free,
          where_rows-append (λ t. not (table_named n t)) s.tables ts,
          where_rows-not (table_named n) s.tables fresh,
          where_rows-append (λ i. not (on_table n i)) s.indexes is,
          where_rows-not (on_table n) s.indexes no_index,
        )
        refl
