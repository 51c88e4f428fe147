-- ===== src/Sql/Parser/Emit.antt =====
-- A printer for the statements of sql/ast.h, in the grammar that sql/parser.h states: the tokens of
-- a statement in front of what follows it.
use cpp_database_engine.Common.{◌≡◌, Bool, true, false, List, [], ◌∷◌}
use cpp_database_engine.Common.Bytes.{Bytes, codes}
use cpp_database_engine.Sql.Value.{
  Value, int, text, ColumnType, integer_type, text_type, CompareOp, eq_op, lt_op, le_op, gt_op,
  ge_op, Comparison, Predicate,
}
use cpp_database_engine.Sql.Schema.{ColumnDef}
use cpp_database_engine.Sql.Syntax.{
  Statement, create_table_stmt, insert_stmt, select_stmt, delete_stmt,
}
use cpp_database_engine.Sql.Lexer.{
  Token, identifier, integer_literal, string_literal, lparen, rparen, comma, star, eq, lt, le, gt,
  ge,
}
use cpp_database_engine.Sql.Parser.{Tokens}

abbrev pub Emit : Type 0 → Type 0
Emit A = A → Tokens → Tokens

-- Items with a separator between them.
abbrev pub emit_list : {A : Type 0} → Emit A → Token → Emit (List A)
emit_list emit sep [] rest = rest
emit_list emit sep (x ∷ []) rest = emit x rest
emit_list emit sep (x ∷ y ∷ xs) rest = emit x (sep ∷ emit_list emit sep (y ∷ xs) rest)

abbrev pub keyword_token : ColumnType → Token
keyword_token integer_type = identifier (codes "INTEGER")
keyword_token text_type = identifier (codes "TEXT")

abbrev pub emit_column : Emit ColumnDef
emit_column c rest = identifier c.name ∷ keyword_token c.type ∷ rest

abbrev pub literal_token : Value → Token
literal_token (int v) = integer_literal v
literal_token (text s) = string_literal s

abbrev pub emit_literal : Emit Value
emit_literal v rest = literal_token v ∷ rest

abbrev pub op_token : CompareOp → Token
op_token eq_op = eq
op_token lt_op = lt
op_token le_op = le
op_token gt_op = gt
op_token ge_op = ge

abbrev pub emit_comparison : Emit Comparison
emit_comparison cmp rest =
    identifier cmp.column ∷ op_token cmp.op ∷ literal_token cmp.literal ∷ rest

abbrev pub emit_identifier : Emit Bytes
emit_identifier s rest = identifier s ∷ rest

abbrev pub emit_where : Emit Predicate
emit_where [] rest = rest
emit_where (cmp ∷ where') rest =
    identifier (codes "WHERE")
    ∷ emit_list emit_comparison (identifier (codes "AND")) (cmp ∷ where') rest

abbrev pub emit_columns : Bool → Emit (List Bytes)
emit_columns true columns rest = star ∷ rest
emit_columns false columns rest = emit_list emit_identifier comma columns rest

abbrev pub emit_statement : Emit Statement
emit_statement (create_table_stmt stmt) rest =
    identifier (codes "CREATE")
    ∷ identifier (codes "TABLE")
    ∷ identifier stmt.table_name
    ∷ lparen
    ∷ emit_list emit_column comma stmt.columns (rparen ∷ rest)
emit_statement (insert_stmt stmt) rest =
    identifier (codes "INSERT")
    ∷ identifier (codes "INTO")
    ∷ identifier stmt.table_name
    ∷ identifier (codes "VALUES")
    ∷ lparen
    ∷ emit_list emit_literal comma stmt.values (rparen ∷ rest)
emit_statement (select_stmt stmt) rest =
    identifier (codes "SELECT")
    ∷ emit_columns stmt.select_star stmt.columns
        (identifier (codes "FROM") ∷ identifier stmt.table_name ∷ emit_where stmt.where_clause rest)
emit_statement (delete_stmt stmt) rest =
    identifier (codes "DELETE")
    ∷ identifier (codes "FROM")
    ∷ identifier stmt.table_name
    ∷ emit_where stmt.where_clause rest

abbrev pub NonEmpty : {A : Type 0} → List A → Type 0
NonEmpty [] = ⊥
NonEmpty (x ∷ xs) = Unit

-- The first column is the INTEGER key.
abbrev pub KeyFirst : List ColumnDef → Type 0
KeyFirst [] = ⊥
KeyFirst (c ∷ columns) = c.type ≡ integer_type

-- `*` names no columns; without it there is at least one.
abbrev pub Selects : Bool → List Bytes → Type 0
Selects true columns = columns ≡ []
Selects false columns = NonEmpty columns

-- What the grammar asks of a statement beyond its shape.
abbrev pub WellFormed : Statement → Type 0
WellFormed (create_table_stmt stmt) = KeyFirst stmt.columns
WellFormed (insert_stmt stmt) = NonEmpty stmt.values
WellFormed (select_stmt stmt) = Selects stmt.select_star stmt.columns
WellFormed (delete_stmt stmt) = Unit
