-- ===== src/Sql/Database.antt =====
-- class `Database` of sql/database.h and sql/database.cpp: one statement after the other, over the
-- catalog and one storage engine. A statement that throws has changed nothing: in every handler the
-- calls that may throw stand before the first change, or are the change.
pub mod Valid
pub mod Steps
pub mod Preserve
pub mod ReadBack
pub mod Message
mod Tests
use cpp_database_engine.Common.{
  ℕ, suc, ◌+◌, ◌/◌, ◌%◌, Bool, true, false, Option, none, some, List, [], ◌∷◌, ◌++◌, map, length,
  ltb, zero, ◌||◌, if◌then◌else◌,
}
use cpp_database_engine.Common.Int.{ℤ, pos, ltb_ℤ}
use cpp_database_engine.Common.Bytes.{Bytes, codes}
use cpp_database_engine.Engine.{StorageEngine}
use cpp_database_engine.Sql.Error.{
  Result, ok, err, ◌>>=◌, ◌>>◌, guard, key_not_integer, key_out_of_range, value_too_long,
  no_such_column,
}
use cpp_database_engine.Sql.Value.{Value, int, text}
use cpp_database_engine.Sql.Keys.{encode_key, max_row_key}
use cpp_database_engine.Sql.Schema.{ColumnDef, TableSchema, column_index}
use cpp_database_engine.Sql.Rows.{encode_row}
use cpp_database_engine.Sql.Catalog.{Catalog, create_table, get_table}
use cpp_database_engine.Sql.Syntax.{
  CreateTableStmt, InsertStmt, SelectStmt, DeleteStmt, Statement, create_table_stmt, insert_stmt,
  select_stmt, delete_stmt,
}
use cpp_database_engine.Sql.Planner.{plan_query}
use cpp_database_engine.Sql.Executor.{Row, cell_at, execute_fetch}
use cpp_database_engine.Sql.Executor.Delete.{execute_delete}
use cpp_database_engine.Sql.Parser.Statements.{parse}

-- `std::to_string`: the decimal digits in front of `acc`; one digit for each unit of fuel.
unfoldable pub digits_of : ℕ → ℕ → Bytes → Bytes
digits_of zero n acc = acc
digits_of (suc fuel) n acc =
    let more = digits_of fuel (n / 10) ((b'0' + n % 10) ∷ acc) in
    if ltb n 10 then (b'0' + n % 10) ∷ acc else more

unfoldable pub to_string : ℕ → Bytes
to_string n = digits_of (suc n) n []

pub record QueryResult : Type 0 where
  pub column_names : List Bytes
  pub rows : List Row
  pub rows_affected : ℕ
  pub message : Bytes

-- `QueryResult` with the fields that CREATE TABLE, INSERT and DELETE set.
abbrev pub summary : ℕ → Bytes → QueryResult
summary n message = record { column_names = []; rows = []; rows_affected = n; message = message }

-- The primary key that INSERT accepts.
unfoldable pub primary_key : List Value → Result ℤ
primary_key [] = err key_not_integer
primary_key (text s ∷ values) = err key_not_integer
primary_key (int pk ∷ values) =
    if ltb_ℤ pk (pos 0) || ltb_ℤ (pos max_row_key) pk then err key_out_of_range else ok pk

-- The first loop of `ExecuteSelect`, for named columns: the projection.
unfoldable pub column_indices : TableSchema → List Bytes → Result (List ℕ)
column_indices schema [] = ok []
column_indices schema (name ∷ names) = elim (column_index schema name) [
  | none ↦ err no_such_column
  | some i ↦ do rest ← column_indices schema names; ok (i ∷ rest)
]

-- The same loop for `*`, from the column `i` on.
unfoldable pub indices_from : ℕ → List ColumnDef → List ℕ
indices_from i [] = []
indices_from i (c ∷ columns) = i ∷ indices_from (suc i) columns

unfoldable pub projection_of : TableSchema → SelectStmt → Result (List Bytes × List ℕ)
projection_of schema stmt =
    if stmt.select_star
    then ok (map (λ (c : ColumnDef). c.name) schema.columns, indices_from 0 schema.columns)
    else (column_indices schema stmt.columns >>= λ indices. ok (stmt.columns, indices))

-- The loop over the projection, and the loop over the rows.
unfoldable pub project : List ℕ → Row → Result Row
project [] row = ok []
project (i ∷ indices) row = do v ← cell_at row i; rest ← project indices row; ok (v ∷ rest)

unfoldable pub project_rows : List ℕ → List Row → Result (List Row)
project_rows indices [] = ok []
project_rows indices (row ∷ rows) = do
  projected ← project indices row
  rest ← project_rows indices rows
  ok (projected ∷ rest)

pub record Database (engine : StorageEngine) : Type 0 where
  pub catalog : Catalog
  pub content : engine.State

module _ (engine : StorageEngine) where
  open engine use {State, put}

  abbrev pub Outcome : Type 0
  Outcome = Result (Database engine × QueryResult)

  unfoldable pub execute_create_table : CreateTableStmt → Database engine → Outcome
  execute_create_table stmt db = do
    (catalog, schema) ← create_table db.catalog stmt.table_name stmt.columns
    ok (record { catalog = catalog; content = db.content }, summary 0 (codes "CREATE TABLE"))

  -- `engine_->Put(key, payload)`
  unfoldable pub store : State → ℤ → Bytes → Result State
  store s key payload = elim (put s key payload) [ none ↦ err value_too_long | some s' ↦ ok s' ]

  unfoldable pub execute_insert : InsertStmt → Database engine → Outcome
  execute_insert stmt db = do
    schema ← get_table db.catalog stmt.table_name
    pk ← primary_key stmt.values
    payload ← encode_row schema stmt.values
    s ← store db.content (encode_key schema.table_id pk) payload
    ok (record { catalog = db.catalog; content = s }, summary 1 (codes "INSERT 1"))

  unfoldable pub execute_select : SelectStmt → Database engine → Outcome
  execute_select stmt db = do
    schema ← get_table db.catalog stmt.table_name
    plan ← plan_query schema stmt.where_clause
    rows ← execute_fetch engine schema plan db.content
    (names, indices) ← projection_of schema stmt
    projected ← project_rows indices rows
    ok (
      db,
      record {
        column_names = names;
        rows = projected;
        rows_affected = length projected;
        message = codes "SELECT " ++ to_string (length projected);
      },
    )

  unfoldable pub execute_delete_stmt : DeleteStmt → Database engine → Outcome
  execute_delete_stmt stmt db = do
    schema ← get_table db.catalog stmt.table_name
    plan ← plan_query schema stmt.where_clause
    (s, deleted) ← execute_delete engine schema plan db.content
    ok (
      record { catalog = db.catalog; content = s },
      summary deleted (codes "DELETE " ++ to_string deleted),
    )

  unfoldable pub execute_statement : Statement → Database engine → Outcome
  execute_statement (create_table_stmt stmt) db = execute_create_table stmt db
  execute_statement (insert_stmt stmt) db = execute_insert stmt db
  execute_statement (select_stmt stmt) db = execute_select stmt db
  execute_statement (delete_stmt stmt) db = execute_delete_stmt stmt db

  -- `Database::Execute`
  unfoldable pub execute : Bytes → Database engine → Outcome
  execute sql db = parse sql >>= λ stmt. execute_statement stmt db
