-- ===== src/Sql/Parser/RoundTrip.antt =====
-- `Parser::Parse` (sql/parser.cpp) on printed statements.
use cpp_database_engine.Common.{
  ℕ, suc, ◌≤◌, ◌≡◌, refl, Bool, true, false, List, [], ◌∷◌, length, arith,
}
use cpp_database_engine.Common.Bytes.{Bytes, codes}
use cpp_database_engine.Sql.Error.{ok}
use cpp_database_engine.Sql.Schema.{ColumnDef}
use cpp_database_engine.Sql.Syntax.{
  CreateTableStmt, InsertStmt, SelectStmt, DeleteStmt, Statement, create_table_stmt, insert_stmt,
  select_stmt, delete_stmt,
}
use cpp_database_engine.Sql.Lexer.{identifier, rparen, comma, semicolon, end}
use cpp_database_engine.Sql.Parser.{
  Tokens, peek, is_keyword, names_keyword, expect_keyword, is_lparen, is_rparen, is_comma,
  expect_type, expect_identifier, identifier_of, parse_literal, comma_next, and_next, parse_column,
}
use cpp_database_engine.Sql.Parser.Statements.{
  check_columns, parse_create_table, parse_insert, is_star, parse_columns, parse_select,
  parse_delete, parse_statement, is_semicolon, is_end, expect_end_of_statement, parse_tokens,
}
use cpp_database_engine.Sql.Parser.Emit.{
  emit_list, emit_column, emit_literal, emit_identifier, emit_where, emit_columns, emit_statement,
  NonEmpty, KeyFirst, Selects, WellFormed,
}
use cpp_database_engine.Sql.Parser.Loops.{
  parse_list-emit_list, length-emit_list, parse_column-emit, parse_literal-emit,
  expect_identifier-emit, comma_goes_on, Ends, parse_where_clause-emit,
}

le_suc : {m n : ℕ} → m ≤ n → m ≤ suc n
le_suc h = omega arith

check_columns-KeyFirst :
    (columns : List ColumnDef) → KeyFirst columns → check_columns columns ≡ ok tt
unfolding check_columns
check_columns-KeyFirst [] h = absurd h
check_columns-KeyFirst (c ∷ columns) h = rw h refl

KeyFirst-NonEmpty : (columns : List ColumnDef) → KeyFirst columns → NonEmpty columns
KeyFirst-NonEmpty [] h = h
KeyFirst-NonEmpty (c ∷ columns) h = tt

no_comma : (rest : Tokens) → comma_next (rparen ∷ rest) ≡ false
unfolding comma_next is_comma
no_comma rest = refl

no_star :
    (columns : List Bytes) (rest : Tokens)
    → NonEmpty columns
    → is_star (peek (emit_list emit_identifier comma columns rest)) ≡ false
unfolding is_star
no_star [] rest h = absurd h
no_star (c ∷ []) rest h = refl
no_star (c ∷ d ∷ columns) rest h = refl

parse_columns-emit :
    (all : Bool) (columns : List Bytes) (rest : Tokens)
    → Selects all columns
    → comma_next rest ≡ false
    → parse_columns (emit_columns all columns rest) ≡ ok ((all, columns), rest)
unfolding parse_columns is_star
parse_columns-emit true columns rest h stops = rw h refl
parse_columns-emit false columns rest h stops =
    rw
      (
        no_star columns rest h,
        parse_list-emit_list expect_identifier comma_next emit_identifier comma
            expect_identifier-emit comma_goes_on
            (suc (length (emit_list emit_identifier comma columns rest))) columns rest h
            (le_suc (
              length-emit_list expect_identifier comma_next emit_identifier comma
                expect_identifier-emit comma_goes_on (λ s r. omega arith) columns rest))
            stops,
      )
      refl

parse_create_table-emit :
    (stmt : CreateTableStmt) (rest : Tokens)
    → KeyFirst stmt.columns
    → parse_statement (emit_statement (create_table_stmt stmt) rest)
      ≡ ok (create_table_stmt stmt, rest)
unfolding parse_statement parse_create_table is_keyword names_keyword expect_keyword
    expect_identifier identifier_of expect_type is_lparen is_rparen
parse_create_table-emit stmt rest key =
    rw
      (
        parse_list-emit_list parse_column comma_next emit_column comma parse_column-emit
            comma_goes_on (suc (length (emit_list emit_column comma stmt.columns (rparen ∷ rest))))
            stmt.columns (rparen ∷ rest) (KeyFirst-NonEmpty stmt.columns key)
            (le_suc (
              length-emit_list parse_column comma_next emit_column comma parse_column-emit
                comma_goes_on (λ c r. omega arith) stmt.columns (rparen ∷ rest)))
            (no_comma rest),
        check_columns-KeyFirst stmt.columns key,
      )
      refl

parse_insert-emit :
    (stmt : InsertStmt) (rest : Tokens)
    → NonEmpty stmt.values
    → parse_statement (emit_statement (insert_stmt stmt) rest) ≡ ok (insert_stmt stmt, rest)
unfolding parse_statement parse_insert is_keyword names_keyword expect_keyword expect_identifier
    identifier_of expect_type is_lparen is_rparen
parse_insert-emit stmt rest some_value =
    rw
      (parse_list-emit_list parse_literal comma_next emit_literal comma parse_literal-emit
        comma_goes_on (suc (length (emit_list emit_literal comma stmt.values (rparen ∷ rest))))
        stmt.values (rparen ∷ rest) some_value
        (le_suc (
          length-emit_list parse_literal comma_next emit_literal comma parse_literal-emit
            comma_goes_on (λ c r. omega arith) stmt.values (rparen ∷ rest)))
        (no_comma rest))
      refl

parse_select-emit :
    (stmt : SelectStmt) (rest : Tokens)
    → Selects stmt.select_star stmt.columns
    → Ends rest
    → parse_statement (emit_statement (select_stmt stmt) rest) ≡ ok (select_stmt stmt, rest)
unfolding parse_statement parse_select is_keyword names_keyword expect_keyword expect_identifier
    identifier_of
parse_select-emit stmt rest selects ends =
    rw
      (
        parse_columns-emit stmt.select_star stmt.columns
            (identifier (codes "FROM")
              ∷ identifier stmt.table_name
              ∷ emit_where stmt.where_clause rest)
            selects (unfold comma_next is_comma in refl),
        parse_where_clause-emit stmt.where_clause rest ends,
      )
      refl

parse_delete-emit :
    (stmt : DeleteStmt) (rest : Tokens)
    → Ends rest
    → parse_statement (emit_statement (delete_stmt stmt) rest) ≡ ok (delete_stmt stmt, rest)
unfolding parse_statement parse_delete is_keyword names_keyword expect_keyword expect_identifier
    identifier_of
parse_delete-emit stmt rest ends = rw (parse_where_clause-emit stmt.where_clause rest ends) refl

parse_statement-emit :
    (stmt : Statement) (rest : Tokens)
    → WellFormed stmt
    → Ends rest
    → parse_statement (emit_statement stmt rest) ≡ ok (stmt, rest)
parse_statement-emit (create_table_stmt stmt) rest h ends = parse_create_table-emit stmt rest h
parse_statement-emit (insert_stmt stmt) rest h ends = parse_insert-emit stmt rest h
parse_statement-emit (select_stmt stmt) rest h ends = parse_select-emit stmt rest h ends
parse_statement-emit (delete_stmt stmt) rest h ends = parse_delete-emit stmt rest ends

-- The end of the tokens, with a semicolon or without.
abbrev pub trailer : Bool → Tokens
trailer true = semicolon ∷ end ∷ []
trailer false = end ∷ []

trailer-Ends : (b : Bool) → Ends (trailer b)
unfolding is_keyword and_next names_keyword
trailer-Ends true = record { no_where = refl; no_and = refl }
trailer-Ends false = record { no_where = refl; no_and = refl }

expect_end_of_statement-trailer : (b : Bool) → expect_end_of_statement (trailer b) ≡ ok tt
unfolding expect_end_of_statement is_semicolon is_end
expect_end_of_statement-trailer true = refl
expect_end_of_statement-trailer false = refl

-- The tokens of a statement parse to that statement, with a semicolon behind them or without one: a
-- CREATE TABLE whose first column is INTEGER, an INSERT of at least one value, a SELECT of `*` or
-- of at least one column, and a DELETE, each with any WHERE clause.
pub parse_tokens-emit_statement :
    (stmt : Statement) (b : Bool)
    → WellFormed stmt
    → parse_tokens (emit_statement stmt (trailer b)) ≡ ok stmt
unfolding parse_tokens
parse_tokens-emit_statement stmt b h =
    rw (parse_statement-emit stmt (trailer b) h (trailer-Ends b), expect_end_of_statement-trailer b)
      refl
