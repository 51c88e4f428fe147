-- ===== src/Sql/Parser.antt =====
-- sql/parser.h and sql/parser.cpp. The state of `ParserImpl` is the list of the tokens from `pos_`
-- on; each function returns its value and the tokens that it leaves.
pub mod Statements
pub mod Emit
pub mod Loops
pub mod RoundTrip
pub mod Progress
pub mod Fuel
mod Tests
use cpp_database_engine.Common.{
  ℕ, zero, suc, ◌+◌, ◌-◌, Bool, true, false, List, [], ◌∷◌, map, leb, ◌&&◌, if◌then◌else◌, length,
}
use cpp_database_engine.Common.Bytes.{Bytes, codes, eqb_bytes}
use cpp_database_engine.Sql.Error.{
  Result, ok, err, ◌>>=◌, ◌>>◌, expected_keyword, expected_token, expected_column_type,
  expected_literal, expected_operator, out_of_fuel,
}
use cpp_database_engine.Sql.Value.{
  Value, int, text, ColumnType, integer_type, text_type, CompareOp, eq_op, lt_op, le_op, gt_op,
  ge_op, Comparison, Predicate,
}
use cpp_database_engine.Sql.Schema.{ColumnDef}
use cpp_database_engine.Sql.Lexer.{
  Token, identifier, integer_literal, string_literal, lparen, rparen, comma, semicolon, star, eq,
  lt, le, gt, ge, end,
}

abbrev pub Tokens : Type 0
Tokens = List Token

abbrev pub Parsed {ℓ} : Type ℓ → Type ℓ
Parsed A = Result (A × Tokens)

unfoldable pub to_upper : Bytes → Bytes
to_upper s = map (λ c. if leb b'a' c && leb c b'z' then c - 32 else c) s

-- The token list ends with `end`, which nothing advances over, so that it is never empty.
abbrev pub peek : Tokens → Token
peek [] = end
peek (t ∷ ts) = t

abbrev pub advance : Tokens → Tokens
advance [] = []
advance (t ∷ ts) = ts

unfoldable pub names_keyword : Bytes → Token → Bool
unfolding to_upper
names_keyword kw (identifier s) = eqb_bytes (to_upper s) kw
names_keyword kw t = false

unfoldable pub is_keyword : Bytes → Tokens → Bool
is_keyword kw ts = names_keyword kw (peek ts)

unfoldable pub expect_keyword : Bytes → Tokens → Parsed (Unit {0})
expect_keyword kw ts = if is_keyword kw ts then ok (tt, advance ts) else err expected_keyword

-- `ExpectType` for the punctuation.
unfoldable pub is_lparen : Token → Bool
is_lparen lparen = true
is_lparen _ = false

unfoldable pub is_rparen : Token → Bool
is_rparen rparen = true
is_rparen _ = false

unfoldable pub is_comma : Token → Bool
is_comma comma = true
is_comma _ = false

unfoldable pub expect_type : (Token → Bool) → Tokens → Parsed (Unit {0})
expect_type is ts = if is (peek ts) then ok (tt, advance ts) else err expected_token

unfoldable pub identifier_of : Token → Result Bytes
identifier_of (identifier s) = ok s
identifier_of _ = err expected_token

unfoldable pub expect_identifier : Tokens → Parsed Bytes
expect_identifier ts = identifier_of (peek ts) >>= λ s. ok (s, advance ts)

unfoldable pub parse_column_type : Tokens → Parsed ColumnType
parse_column_type ts =
    if is_keyword (codes "INTEGER") ts
    then ok (integer_type, advance ts)
    else if is_keyword (codes "TEXT") ts
    then ok (text_type, advance ts)
    else err expected_column_type

unfoldable pub literal_of : Token → Result Value
literal_of (integer_literal v) = ok (int v)
literal_of (string_literal s) = ok (text s)
literal_of _ = err expected_literal

unfoldable pub parse_literal : Tokens → Parsed Value
parse_literal ts = literal_of (peek ts) >>= λ v. ok (v, advance ts)

unfoldable pub compare_op_of : Token → Result CompareOp
compare_op_of eq = ok eq_op
compare_op_of lt = ok lt_op
compare_op_of le = ok le_op
compare_op_of gt = ok gt_op
compare_op_of ge = ok ge_op
compare_op_of _ = err expected_operator

unfoldable pub parse_compare_op : Tokens → Parsed CompareOp
parse_compare_op ts = compare_op_of (peek ts) >>= λ op. ok (op, advance ts)

-- The loops read an item and go on while a separator follows: `while (true) { …; if (…) {
-- Advance(); continue; } break; }`. A round takes a unit of fuel.
module _ {A : Type 0} (item : Tokens → Parsed A) (separates : Tokens → Bool) where
  unfoldable pub parse_list : ℕ → Tokens → Parsed (List A)
  parse_list zero ts = err out_of_fuel
  parse_list (suc fuel) ts = item ts >>= λ r. elim (separates r.1) [
    | true ↦ parse_list fuel (advance r.1) >>= λ rest. ok (r.0 ∷ rest.0, rest.1)
    | false ↦ ok (r.0 ∷ [], r.1)
  ]

unfoldable pub comma_next : Tokens → Bool
comma_next ts = is_comma (peek ts)

-- One round of the loop of `ParseWhereClause`.
unfoldable pub parse_comparison : Tokens → Parsed Comparison
parse_comparison ts = do
  (column, ts1) ← expect_identifier ts
  (op, ts2) ← parse_compare_op ts1
  (literal, ts3) ← parse_literal ts2
  ok (record { column = column; op = op; literal = literal }, ts3)

unfoldable pub and_next : Tokens → Bool
and_next ts = is_keyword (codes "AND") ts

unfoldable pub parse_where_clause : Tokens → Parsed Predicate
parse_where_clause ts =
    if is_keyword (codes "WHERE") ts
    then parse_list parse_comparison and_next (suc (length ts)) (advance ts)
    else ok ([], ts)

-- One round of the loop of `ParseCreateTable`.
unfoldable pub parse_column : Tokens → Parsed ColumnDef
parse_column ts = do
  (name, ts1) ← expect_identifier ts
  (type, ts2) ← parse_column_type ts1
  ok (record { name = name; type = type }, ts2)
