-- ===== src/Sql/Syntax.antt =====
-- The statements of sql/ast.h. `ColumnDefAst` has the fields of `ColumnDef`.
use cpp_database_engine.Common.{Bool, List}
use cpp_database_engine.Common.Bytes.{Bytes}
use cpp_database_engine.Sql.Value.{Value, Predicate}
use cpp_database_engine.Sql.Schema.{ColumnDef}

pub record CreateTableStmt : Type 0 where
  pub table_name : Bytes
  pub columns : List ColumnDef

pub record InsertStmt : Type 0 where
  pub table_name : Bytes
  pub values : List Value

pub record SelectStmt : Type 0 where
  pub table_name : Bytes
  pub select_star : Bool
  pub columns : List Bytes
  pub where_clause : Predicate

pub record DeleteStmt : Type 0 where
  pub table_name : Bytes
  pub where_clause : Predicate

pub data Statement : Type 0 where
  create_table_stmt : CreateTableStmt → Statement
  insert_stmt : InsertStmt → Statement
  select_stmt : SelectStmt → Statement
  delete_stmt : DeleteStmt → Statement
