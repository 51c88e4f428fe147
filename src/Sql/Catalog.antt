-- ===== src/Sql/Catalog.antt =====
-- class `Catalog` of sql/catalog.h and sql/catalog.cpp. The `unordered_map` of tables is an
-- association list: the code only looks names up and adds them.
pub mod Ids
use cpp_database_engine.Common.{
  ℕ, ◌+◌, ◌%◌, ◌^◌, Bool, true, false, Option, none, some, List, [], ◌∷◌, map, ltb, not,
  if◌then◌else◌,
}
use cpp_database_engine.Common.Bytes.{Bytes, eqb_bytes}
use cpp_database_engine.Sql.Error.{
  Result, ok, err, ◌>>=◌, ◌>>◌, guard, table_exists, table_ids_exhausted, no_such_table,
}
use cpp_database_engine.Sql.Schema.{ColumnDef, TableSchema}

pub record Catalog : Type 0 where
  pub tables : List (Bytes × TableSchema)
  pub next_table_id : ℕ

-- `kMaxTables`
abbrev pub max_tables : ℕ
max_tables = 2 ^ 16

abbrev pub empty_catalog : Catalog
empty_catalog = record { tables = []; next_table_id = 0 }

unfoldable pub find_table : Bytes → List (Bytes × TableSchema) → Option TableSchema
find_table name [] = none
find_table name ((n, schema) ∷ tables) =
    if eqb_bytes n name then some schema else find_table name tables

unfoldable pub has_table : Catalog → Bytes → Bool
unfolding find_table
has_table catalog name = elim (find_table name catalog.tables) [ none ↦ false | some _ ↦ true ]

unfoldable pub get_table : Catalog → Bytes → Result TableSchema
unfolding find_table
get_table catalog name = elim (find_table name catalog.tables) [
  | none ↦ err no_such_table
  | some schema ↦ ok schema
]

-- `next_table_id_` is a `uint16_t`: the increment wraps at 2 ^ 16.
unfoldable pub create_table : Catalog → Bytes → List ColumnDef → Result (Catalog × TableSchema)
unfolding has_table
create_table catalog name columns = if has_table catalog name then err table_exists else do
  guard (ltb catalog.next_table_id max_tables) table_ids_exhausted
  let schema : TableSchema = record {
    name = name;
    table_id = catalog.next_table_id;
    columns = columns;
  }
  ok (
    record {
      tables = (name, schema) ∷ catalog.tables;
      next_table_id = (catalog.next_table_id + 1) % 2 ^ 16;
    },
    schema,
  )
