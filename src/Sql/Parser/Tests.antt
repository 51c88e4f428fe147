-- ===== src/Sql/Parser/Tests.antt =====
-- Texts, their tokens and their statements.
use cpp_database_engine.Common.{◌≡◌, ◌≢◌, refl, true, false, [], ◌∷◌}
use cpp_database_engine.Common.Int.{negsuc}
use cpp_database_engine.Common.Bytes.{Bytes, codes}
use cpp_database_engine.Sql.Error.{ok, err, out_of_fuel}
use cpp_database_engine.Sql.Value.{int, text, lt_op, eq_op}
use cpp_database_engine.Sql.Syntax.{Statement, select_stmt}
use cpp_database_engine.Sql.Lexer.{
  is_space, is_digit, is_alpha, is_word, span, split_quote, digits_value, stoll, lex_order,
  lex_string, lex_integer, lex_word, next_token, tokenize_from, tokenize,
}
use cpp_database_engine.Sql.Parser.Emit.{emit_statement}
use cpp_database_engine.Sql.Parser.RoundTrip.{trailer, parse_tokens-emit_statement}
use cpp_database_engine.Sql.Parser.Statements.{
  check_columns, parse_create_table, parse_insert, is_star, parse_columns, parse_select,
  parse_delete, parse_statement, is_semicolon, is_end, expect_end_of_statement, parse_tokens, parse,
}
use cpp_database_engine.Sql.Parser.{
  to_upper, names_keyword, is_keyword, expect_keyword, is_lparen, is_rparen, is_comma, expect_type,
  identifier_of, expect_identifier, parse_column_type, literal_of, parse_literal, compare_op_of,
  parse_compare_op, comma_next, parse_comparison, and_next, parse_where_clause, parse_column,
  parse_list,
}
use cpp_database_engine.Sql.Parser.Fuel.{parse-total}

program : Unit {0}
unfolding is_space is_digit is_alpha is_word span split_quote digits_value stoll lex_order
    lex_string lex_integer lex_word next_token tokenize_from tokenize to_upper names_keyword
    is_keyword expect_keyword is_lparen is_rparen is_comma expect_type identifier_of
    expect_identifier parse_column_type literal_of parse_literal compare_op_of parse_compare_op
    comma_next parse_comparison and_next parse_where_clause parse_column parse_list check_columns
    parse_create_table parse_insert is_star parse_columns parse_select parse_delete parse_statement
    is_semicolon is_end expect_end_of_statement parse_tokens parse
program = tt

abbrev query : Bytes
query = codes "SELECT name FROM users WHERE id < -7 AND name = 'ann';"

abbrev query_statement : Statement
query_statement = select_stmt (record {
  table_name = codes "users";
  select_star = false;
  columns = codes "name" ∷ [];
  where_clause =
      record { column = codes "id"; op = lt_op; literal = int (negsuc 6) }
      ∷ record { column = codes "name"; op = eq_op; literal = text (codes "ann") }
      ∷ [];
})

parse-total_example : parse query ≢ err out_of_fuel
parse-total_example = parse-total query

parse_tokens-emit_statement_example :
    parse_tokens (emit_statement query_statement (trailer true)) ≡ ok query_statement
parse_tokens-emit_statement_example = parse_tokens-emit_statement query_statement true tt

query_text : parse query ≡ ok query_statement
unfolding program
query_text = refl
