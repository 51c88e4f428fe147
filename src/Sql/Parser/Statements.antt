-- ===== src/Sql/Parser/Statements.antt =====
-- The statements of sql/parser.cpp: `ParseCreateTable`, `ParseInsert`, `ParseSelect`, `ParseDelete`
-- and `Parser::Parse`. Each statement starts behind its first keyword.
use cpp_database_engine.Common.{suc, Bool, true, false, List, [], ◌∷◌, if◌then◌else◌, length}
use cpp_database_engine.Common.Bytes.{Bytes, codes}
use cpp_database_engine.Sql.Error.{
  Result, ok, err, ◌>>=◌, ◌>>◌, guard, expected_statement, trailing_input, no_columns,
  first_not_integer,
}
use cpp_database_engine.Sql.Value.{integer_type, text_type}
use cpp_database_engine.Sql.Schema.{ColumnDef}
use cpp_database_engine.Sql.Syntax.{
  Statement, create_table_stmt, insert_stmt, select_stmt, delete_stmt,
}
use cpp_database_engine.Sql.Lexer.{Token, semicolon, star, end, tokenize}
use cpp_database_engine.Sql.Parser.{
  Tokens, Parsed, peek, advance, is_keyword, expect_keyword, is_lparen, is_rparen, expect_type,
  expect_identifier, parse_literal, parse_list, comma_next, parse_where_clause, parse_column,
}

-- The checks at the end of `ParseCreateTable`.
unfoldable pub check_columns : List ColumnDef → Result (Unit {0})
check_columns [] = err no_columns
check_columns (c ∷ columns) =
    guard (elim c.type [ integer_type ↦ true | text_type ↦ false ]) first_not_integer

unfoldable pub parse_create_table : Tokens → Parsed Statement
parse_create_table ts = do
  (u, ts1) ← expect_keyword (codes "TABLE") (advance ts)
  (table_name, ts2) ← expect_identifier ts1
  (u', ts3) ← expect_type is_lparen ts2
  (columns, ts4) ← parse_list parse_column comma_next (suc (length ts3)) ts3
  (u'', ts5) ← expect_type is_rparen ts4
  check_columns columns
  ok (create_table_stmt (record { table_name = table_name; columns = columns }), ts5)

unfoldable pub parse_insert : Tokens → Parsed Statement
parse_insert ts = do
  (u, ts1) ← expect_keyword (codes "INTO") (advance ts)
  (table_name, ts2) ← expect_identifier ts1
  (u', ts3) ← expect_keyword (codes "VALUES") ts2
  (u'', ts4) ← expect_type is_lparen ts3
  (values, ts5) ← parse_list parse_literal comma_next (suc (length ts4)) ts4
  (u''', ts6) ← expect_type is_rparen ts5
  ok (insert_stmt (record { table_name = table_name; values = values }), ts6)

unfoldable pub is_star : Token → Bool
is_star star = true
is_star _ = false

-- The columns of a SELECT: `none of them` and the flag, for `*`.
unfoldable pub parse_columns : Tokens → Parsed (Bool × List Bytes)
parse_columns ts =
    if is_star (peek ts)
    then ok ((true, []), advance ts)
    else parse_list expect_identifier comma_next (suc (length ts)) ts >>= λ r.
        ok ((false, r.0), r.1)

unfoldable pub parse_select : Tokens → Parsed Statement
parse_select ts = do
  (columns, ts1) ← parse_columns (advance ts)
  (u, ts2) ← expect_keyword (codes "FROM") ts1
  (table_name, ts3) ← expect_identifier ts2
  (where_clause, ts4) ← parse_where_clause ts3
  ok (
    select_stmt (record {
      table_name = table_name;
      select_star = columns.0;
      columns = columns.1;
      where_clause = where_clause;
    }),
    ts4,
  )

unfoldable pub parse_delete : Tokens → Parsed Statement
parse_delete ts = do
  (u, ts1) ← expect_keyword (codes "FROM") (advance ts)
  (table_name, ts2) ← expect_identifier ts1
  (where_clause, ts3) ← parse_where_clause ts2
  ok (delete_stmt (record { table_name = table_name; where_clause = where_clause }), ts3)

unfoldable pub parse_statement : Tokens → Parsed Statement
parse_statement ts =
    if is_keyword (codes "CREATE") ts
    then parse_create_table ts
    else if is_keyword (codes "INSERT") ts
    then parse_insert ts
    else if is_keyword (codes "SELECT") ts
    then parse_select ts
    else if is_keyword (codes "DELETE") ts
    then parse_delete ts
    else err expected_statement

unfoldable pub is_semicolon : Token → Bool
is_semicolon semicolon = true
is_semicolon _ = false

unfoldable pub is_end : Token → Bool
is_end end = true
is_end _ = false

unfoldable pub expect_end_of_statement : Tokens → Result (Unit {0})
expect_end_of_statement ts =
    let rest = if is_semicolon (peek ts) then advance ts else ts in
    guard (is_end (peek rest)) trailing_input

-- `Parser::Parse`, after the lexer.
unfoldable pub parse_tokens : Tokens → Result Statement
parse_tokens ts = do (stmt, rest) ← parse_statement ts; expect_end_of_statement rest; ok stmt

-- `Parser::Parse`
unfoldable pub parse : Bytes → Result Statement
parse sql = tokenize sql >>= parse_tokens
