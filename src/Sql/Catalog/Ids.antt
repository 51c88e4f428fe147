-- ===== src/Sql/Catalog/Ids.antt =====
-- Names and ids of the tables of a `Catalog`.
use cpp_database_engine.Common.{
  ℕ, ◌+◌, ◌%◌, ◌^◌, ◌<◌, ◌≤◌, ◌≡◌, ◌≢◌, refl, false, List, [], ◌∷◌, arith, ltb, if◌then◌else◌,
}
use cpp_database_engine.Common.Bytes.{Bytes, eqb_bytes, eqb_bytes_iff}
use cpp_database_engine.Sql.Error.{ok}
use cpp_database_engine.Sql.Schema.{ColumnDef, TableSchema}
use cpp_database_engine.Sql.Catalog.{Catalog, max_tables, has_table, get_table, create_table}

-- Every table has an id below the next one, no two have the same, and each has its own name.
abbrev pub IdsBelow : ℕ → List (Bytes × TableSchema) → Type 0
IdsBelow n [] = Unit
IdsBelow n ((name, schema) ∷ tables) = (schema.table_id < n) × IdsBelow n tables

-- Newer tables stand in front: their ids fall strictly from one to the next.
abbrev pub DistinctIds : List (Bytes × TableSchema) → Type 0
DistinctIds [] = Unit
DistinctIds ((name, schema) ∷ tables) =
    (schema.name ≡ name) × IdsBelow schema.table_id tables × DistinctIds tables

pub record IsValid (c : Catalog) : Type 0 where
  pub below : IdsBelow c.next_table_id c.tables
  pub distinct : DistinctIds c.tables
  pub room : c.next_table_id < max_tables

IdsBelow-mono :
    (m n : ℕ) (tables : List (Bytes × TableSchema)) → m ≤ n → IdsBelow m tables → IdsBelow n tables
IdsBelow-mono m n [] h b = tt
IdsBelow-mono m n ((name, schema) ∷ tables) h b = (omega arith, IdsBelow-mono m n tables h b.1)

eqb_bytes_ne : (a b : Bytes) → b ≢ a → eqb_bytes a b ≡ false
eqb_bytes_ne a b ne = ground (arith, eqb_bytes_iff a b)

abbrev pub new_table : Catalog → Bytes → List ColumnDef → TableSchema
new_table c name columns = record { name = name; table_id = c.next_table_id; columns = columns }

abbrev pub grown : Catalog → Bytes → List ColumnDef → Catalog
grown c name columns = record {
  tables = (name, new_table c name columns) ∷ c.tables;
  next_table_id = (c.next_table_id + 1) % 2 ^ 16;
}

pub create_table-eq-ok :
    (c c' : Catalog) (name : Bytes) (columns : List ColumnDef) (schema : TableSchema)
    → c.next_table_id < max_tables
    → create_table c name columns ≡ ok (c', schema)
    → (schema ≡ new_table c name columns) × (c' ≡ grown c name columns)
unfolding create_table
create_table-eq-ok c c' name columns schema room e = ground arith

-- While an id is left after it, CREATE TABLE keeps the catalog valid: the new table has an id of its
-- own, and can be found under its name; every other name finds what it found before.
pub create_table-IsValid :
    (c c' : Catalog) (name : Bytes) (columns : List ColumnDef) (schema : TableSchema)
    → IsValid c
    → c.next_table_id + 1 < max_tables
    → create_table c name columns ≡ ok (c', schema)
    → IsValid c'
      × (get_table c' name ≡ ok schema)
      × ((other : Bytes) → other ≢ name → get_table c' other ≡ get_table c other)
unfolding get_table
create_table-IsValid c c' name columns schema v h e =
    let (new_schema, new_catalog) = create_table-eq-ok c c' name columns schema v.room e in
    rw (new_schema, new_catalog)
      (
        record {
          below = (omega arith, IdsBelow-mono c.next_table_id _ c.tables (omega arith) v.below);
          distinct = (refl, v.below, v.distinct);
          room = omega arith;
        },
        rw ((eqb_bytes_iff name name).1 refl, get_table),
        λ other ne. rw (eqb_bytes_ne name other ne, get_table),
      )

-- The guard against running out of ids never fires: `next_table_id_` is a 16-bit integer, which is
-- below `kMaxTables` whatever its value. CREATE TABLE of a new name always succeeds, and after id
-- 65535 it starts again at 0.
pub create_table-never_exhausted :
    (c : Catalog) (name : Bytes) (columns : List ColumnDef)
    → c.next_table_id < 2 ^ 16
    → has_table c name ≡ false
    → (c' : Catalog) × (schema : TableSchema) × (create_table c name columns ≡ ok (c', schema))
      × (schema.table_id ≡ c.next_table_id)
      × (c'.next_table_id ≡ (if ltb c.next_table_id 65535 then c.next_table_id + 1 else 0))
unfolding create_table
create_table-never_exhausted c name columns h new =
    (grown c name columns, new_table c name columns, ground arith, refl, ground arith)
