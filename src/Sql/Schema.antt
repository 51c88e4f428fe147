-- ===== src/Sql/Schema.antt =====
-- `ColumnDef`, `TableSchema` and `TableSchema::ColumnIndex` of sql/catalog.h and sql/catalog.cpp.
use cpp_database_engine.Common.{ℕ, suc, ◌≡◌, Option, none, some, List, [], ◌∷◌, if◌then◌else◌}
use cpp_database_engine.Common.Bytes.{Bytes, eqb_bytes}
use cpp_database_engine.Sql.Value.{ColumnType, integer_type}

pub record ColumnDef : Type 0 where
  pub name : Bytes
  pub type : ColumnType

pub record TableSchema : Type 0 where
  pub name : Bytes
  pub table_id : ℕ
  pub columns : List ColumnDef

-- The loop of `ColumnIndex` from index `i`; `none` is the result -1.
unfoldable pub column_index_from : ℕ → List ColumnDef → Bytes → Option ℕ
column_index_from i [] col_name = none
column_index_from i (c ∷ columns) col_name =
    if eqb_bytes c.name col_name then some i else column_index_from (suc i) columns col_name

unfoldable pub column_index : TableSchema → Bytes → Option ℕ
unfolding column_index_from
column_index schema col_name = column_index_from 0 schema.columns col_name

-- What the parser ensures of every table that is created: the first column is the INTEGER key.
pub record HasKey (schema : TableSchema) : Type 0 where
  pub key : ColumnDef
  pub rest : List ColumnDef
  pub shape : schema.columns ≡ key ∷ rest
  pub is_integer : key.type ≡ integer_type
