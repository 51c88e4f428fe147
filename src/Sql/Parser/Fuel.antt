-- ===== src/Sql/Parser/Fuel.antt =====
-- `Parser::Parse` of sql/parser.cpp ends: the statements take tokens away, or throw an error of the
-- code.
use cpp_database_engine.Common.{suc, ◌≢◌, Bool, true, false, arith, length}
use cpp_database_engine.Common.Bytes.{Bytes, codes}
use cpp_database_engine.Sql.Error.{
  Result, ok, err, ◌>>=◌, ◌>>◌, guard, out_of_fuel, expected_statement, trailing_input,
}
use cpp_database_engine.Sql.Syntax.{Statement, create_table_stmt}
use cpp_database_engine.Sql.Lexer.{tokenize}
use cpp_database_engine.Sql.Lexer.Fuel.{tokenize-total}
use cpp_database_engine.Sql.Parser.{
  Tokens, Parsed, peek, advance, is_keyword, expect_identifier, parse_literal, comma_next,
  parse_column, is_lparen, is_rparen,
}
use cpp_database_engine.Sql.Parser.Statements.{
  check_columns, parse_create_table, parse_insert, is_star, parse_columns, parse_select,
  parse_delete, parse_statement, expect_end_of_statement, parse_tokens, parse,
}
use cpp_database_engine.Sql.Parser.Progress.{
  returns, fails, answer, no_answer, Consumes, Answers, Consumes-extend, Consumes-next,
  Consumes-done, length-advance, Consumes-if, expect_keyword-Consumes, expect_type-Consumes,
  expect_identifier-Consumes, parse_literal-Consumes, parse_column-Consumes, Consumes-weaken,
  parse_list-Consumes, parse_where_clause-Consumes, check_columns-Answers,
}

checked-Consumes :
    (ts : Tokens) (r : Result (Unit {0})) (stmt : Statement)
    → Answers r
    → Consumes 0 ts (r >> ok (stmt, ts))
checked-Consumes ts _ stmt (answer x) = Consumes-done ts stmt
checked-Consumes ts _ stmt (no_answer e ne) = fails e ne

parse_create_table-Consumes : (ts : Tokens) → Consumes 0 ts (parse_create_table ts)
unfolding parse_create_table
parse_create_table-Consumes ts =
    Consumes-extend 0 0 ts (advance ts) _ (omega (arith, length-advance ts)) (
      Consumes-next 0 0 (advance ts) _ _ (expect_keyword-Consumes (codes "TABLE") (advance ts))
        λ u ts1 h1. Consumes-weaken 1 ts1 _ (
          Consumes-next 1 0 ts1 _ _ (expect_identifier-Consumes ts1) λ name ts2 h2.
            Consumes-next 0 0 ts2 _ _ (expect_type-Consumes is_lparen ts2) λ u2 ts3 h3.
              Consumes-next 0 0 ts3 _ _
                (parse_list-Consumes parse_column comma_next parse_column-Consumes
                  (suc (length ts3)) ts3 (omega arith))
                λ columns ts4 h4.
                  Consumes-next 0 0 ts4 _ _ (expect_type-Consumes is_rparen ts4) λ u3 ts5 h5.
                    checked-Consumes ts5 (check_columns columns)
                      (create_table_stmt (record { table_name = name; columns = columns }))
                      (check_columns-Answers columns)))

parse_insert-Consumes : (ts : Tokens) → Consumes 0 ts (parse_insert ts)
unfolding parse_insert
parse_insert-Consumes ts =
    Consumes-extend 0 0 ts (advance ts) _ (omega (arith, length-advance ts)) (
      Consumes-next 0 0 (advance ts) _ _ (expect_keyword-Consumes (codes "INTO") (advance ts))
        λ u ts1 h1. Consumes-weaken 1 ts1 _ (
          Consumes-next 1 0 ts1 _ _ (expect_identifier-Consumes ts1) λ name ts2 h2.
            Consumes-next 0 0 ts2 _ _ (expect_keyword-Consumes (codes "VALUES") ts2) λ u2 ts3 h3.
              Consumes-next 0 0 ts3 _ _ (expect_type-Consumes is_lparen ts3) λ u3 ts4 h4.
                Consumes-next 0 0 ts4 _ _
                  (parse_list-Consumes parse_literal comma_next parse_literal-Consumes
                    (suc (length ts4)) ts4 (omega arith))
                  λ values ts5 h5.
                    Consumes-next 0 0 ts5 _ _ (expect_type-Consumes is_rparen ts5)
                      λ u4 ts6 h6. Consumes-done ts6 _))

parse_columns-Consumes : (ts : Tokens) → Consumes 0 ts (parse_columns ts)
unfolding parse_columns
parse_columns-Consumes ts =
    Consumes-if 0 ts (is_star (peek ts)) _ _
      (returns _ (advance ts) (omega (arith, length-advance ts)))
      (Consumes-next 0 0 ts _ _
        (parse_list-Consumes expect_identifier comma_next expect_identifier-Consumes
          (suc (length ts)) ts (omega arith))
        λ columns rest h. Consumes-done rest _)

parse_select-Consumes : (ts : Tokens) → Consumes 0 ts (parse_select ts)
unfolding parse_select
parse_select-Consumes ts =
    Consumes-extend 0 0 ts (advance ts) _ (omega (arith, length-advance ts)) (
      Consumes-next 0 0 (advance ts) _ _ (parse_columns-Consumes (advance ts)) λ columns ts1 h1.
        Consumes-next 0 0 ts1 _ _ (expect_keyword-Consumes (codes "FROM") ts1) λ u ts2 h2.
          Consumes-weaken 1 ts2 _ (
            Consumes-next 1 0 ts2 _ _ (expect_identifier-Consumes ts2) λ name ts3 h3.
              Consumes-next 0 0 ts3 _ _ (parse_where_clause-Consumes ts3)
                λ filter ts4 h4. Consumes-done ts4 _))

parse_delete-Consumes : (ts : Tokens) → Consumes 0 ts (parse_delete ts)
unfolding parse_delete
parse_delete-Consumes ts =
    Consumes-extend 0 0 ts (advance ts) _ (omega (arith, length-advance ts)) (
      Consumes-next 0 0 (advance ts) _ _ (expect_keyword-Consumes (codes "FROM") (advance ts))
        λ u ts1 h1. Consumes-weaken 1 ts1 _ (
          Consumes-next 1 0 ts1 _ _ (expect_identifier-Consumes ts1) λ name ts2 h2.
            Consumes-next 0 0 ts2 _ _ (parse_where_clause-Consumes ts2)
              λ filter ts3 h3. Consumes-done ts3 _))

parse_statement-Consumes : (ts : Tokens) → Consumes 0 ts (parse_statement ts)
unfolding parse_statement
parse_statement-Consumes ts =
    Consumes-if 0 ts (is_keyword (codes "CREATE") ts) _ _ (parse_create_table-Consumes ts) (
      Consumes-if 0 ts (is_keyword (codes "INSERT") ts) _ _ (parse_insert-Consumes ts) (
        Consumes-if 0 ts (is_keyword (codes "SELECT") ts) _ _ (parse_select-Consumes ts) (
          Consumes-if 0 ts (is_keyword (codes "DELETE") ts) _ _ (parse_delete-Consumes ts)
            (fails expected_statement (λ h. cc)))))

guard-ne : (b : Bool) (stmt : Statement) → (guard b trailing_input >> ok stmt) ≢ err out_of_fuel
guard-ne true stmt h = cc
guard-ne false stmt h = cc

parse_tokens-total : (ts : Tokens) → parse_tokens ts ≢ err out_of_fuel
unfolding parse_tokens expect_end_of_statement
parse_tokens-total ts = finish (parse_statement ts) (parse_statement-Consumes ts)
  where
    finish :
        (r : Parsed Statement)
        → Consumes 0 ts r
        → (r >>= λ q. expect_end_of_statement q.1 >> ok q.0) ≢ err out_of_fuel
    finish _ (returns stmt rest h) = guard-ne _ stmt
    finish _ (fails e ne) = λ h. ne (cc)

-- `Parser::Parse` ends on every text, with a statement or one of the errors of the code: the fuel
-- of the lexer and of each loop of the parser is enough.
pub parse-total : (sql : Bytes) → parse sql ≢ err out_of_fuel
unfolding parse
parse-total sql = finish (tokenize sql) (tokenize-total sql)
  where
    finish : (r : Result Tokens) → r ≢ err out_of_fuel → (r >>= parse_tokens) ≢ err out_of_fuel
    finish (ok ts) ne = parse_tokens-total ts
    finish (err e) ne = λ h. ne (cc)
