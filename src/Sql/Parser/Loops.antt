-- ===== src/Sql/Parser/Loops.antt =====
-- The loops of sql/parser.cpp on printed items.
use cpp_database_engine.Common.{
  ℕ, zero, suc, ◌≤◌, ◌≡◌, refl, Bool, true, false, List, [], ◌∷◌, length, arith,
}
use cpp_database_engine.Common.Bytes.{Bytes, codes}
use cpp_database_engine.Sql.Error.{ok}
use cpp_database_engine.Sql.Value.{
  Value, ColumnType, CompareOp, int, text, integer_type, text_type, eq_op, lt_op, le_op, gt_op,
  ge_op, Comparison, Predicate,
}
use cpp_database_engine.Sql.Schema.{ColumnDef}
use cpp_database_engine.Sql.Lexer.{Token, identifier, comma}
use cpp_database_engine.Sql.Parser.{
  Tokens, Parsed, names_keyword, is_keyword, identifier_of, expect_identifier, parse_column_type,
  literal_of, parse_literal, compare_op_of, parse_compare_op, parse_list, is_comma, comma_next,
  parse_comparison, and_next, parse_where_clause, parse_column,
}
use cpp_database_engine.Sql.Parser.Emit.{
  Emit, emit_list, emit_column, emit_literal, emit_comparison, emit_identifier, emit_where,
  NonEmpty, keyword_token, literal_token, op_token,
}

module _ {A : Type 0} (item : Tokens → Parsed A) (separates : Tokens → Bool) (emit : Emit A)
    (sep : Token) (reads : (x : A) (rest : Tokens) → item (emit x rest) ≡ ok (x, rest))
    (goes_on : (rest : Tokens) → separates (sep ∷ rest) ≡ true) where
  -- What was printed by `emit_list` is read by the loop, with a unit of fuel for each item.
  pub parse_list-emit_list :
      (fuel : ℕ) (xs : List A) (rest : Tokens)
      → NonEmpty xs
      → length xs ≤ fuel
      → separates rest ≡ false
      → parse_list item separates fuel (emit_list emit sep xs rest) ≡ ok (xs, rest)
  unfolding parse_list
  parse_list-emit_list fuel [] rest some_item enough stops = absurd some_item
  parse_list-emit_list zero (x ∷ xs) rest some_item enough stops = absurd (omega arith)
  parse_list-emit_list (suc fuel) (x ∷ []) rest some_item enough stops =
      rw (reads x rest, stops) refl
  parse_list-emit_list (suc fuel) (x ∷ y ∷ xs) rest some_item enough stops =
      rw
        (
          reads x (sep ∷ emit_list emit sep (y ∷ xs) rest),
          goes_on (emit_list emit sep (y ∷ xs) rest),
          parse_list-emit_list fuel (y ∷ xs) rest tt (omega arith) stops,
        )
        refl

  pub length-emit_list :
      ((x : A) (rest : Tokens) → suc (length rest) ≤ length (emit x rest))
      → (xs : List A) (rest : Tokens) → length xs ≤ length (emit_list emit sep xs rest)
  length-emit_list grows [] rest = omega arith
  length-emit_list grows (x ∷ []) rest = let g = grows x rest in omega arith
  length-emit_list grows (x ∷ y ∷ xs) rest =
      let g = grows x (sep ∷ emit_list emit sep (y ∷ xs) rest) in
      let ih = length-emit_list grows (y ∷ xs) rest in omega arith

parse_column_type-emit :
    (type : ColumnType) (rest : Tokens)
    → parse_column_type (keyword_token type ∷ rest) ≡ ok (type, rest)
unfolding parse_column_type is_keyword names_keyword
parse_column_type-emit integer_type rest = refl
parse_column_type-emit text_type rest = refl

pub parse_column-emit :
    (c : ColumnDef) (rest : Tokens) → parse_column (emit_column c rest) ≡ ok (c, rest)
unfolding parse_column expect_identifier identifier_of
parse_column-emit c rest = rw (parse_column_type-emit c.type rest) refl

pub parse_literal-emit :
    (v : Value) (rest : Tokens) → parse_literal (emit_literal v rest) ≡ ok (v, rest)
unfolding parse_literal literal_of
parse_literal-emit (int v) rest = refl
parse_literal-emit (text s) rest = refl

pub expect_identifier-emit :
    (s : Bytes) (rest : Tokens) → expect_identifier (emit_identifier s rest) ≡ ok (s, rest)
unfolding expect_identifier identifier_of
expect_identifier-emit s rest = refl

parse_compare_op-emit :
    (op : CompareOp) (rest : Tokens) → parse_compare_op (op_token op ∷ rest) ≡ ok (op, rest)
unfolding parse_compare_op compare_op_of
parse_compare_op-emit eq_op rest = refl
parse_compare_op-emit lt_op rest = refl
parse_compare_op-emit le_op rest = refl
parse_compare_op-emit gt_op rest = refl
parse_compare_op-emit ge_op rest = refl

parse_comparison-emit :
    (cmp : Comparison) (rest : Tokens)
    → parse_comparison (emit_comparison cmp rest) ≡ ok (cmp, rest)
unfolding parse_comparison expect_identifier identifier_of
parse_comparison-emit cmp rest =
    rw
      (
        parse_compare_op-emit cmp.op (literal_token cmp.literal ∷ rest),
        parse_literal-emit cmp.literal rest,
      )
      refl

pub comma_goes_on : (rest : Tokens) → comma_next (comma ∷ rest) ≡ true
unfolding comma_next is_comma
comma_goes_on rest = refl

and_goes_on : (rest : Tokens) → and_next (identifier (codes "AND") ∷ rest) ≡ true
unfolding and_next is_keyword names_keyword
and_goes_on rest = refl

-- The statement ends here: what follows is neither WHERE nor AND.
pub record Ends (rest : Tokens) : Type 0 where
  pub no_where : is_keyword (codes "WHERE") rest ≡ false
  pub no_and : and_next rest ≡ false

pub parse_where_clause-emit :
    (where' : Predicate) (rest : Tokens)
    → Ends rest
    → parse_where_clause (emit_where where' rest) ≡ ok (where', rest)
unfolding parse_where_clause
parse_where_clause-emit [] rest ends = rw ends.no_where refl
parse_where_clause-emit (cmp ∷ where') rest ends =
    rw (where_keyword (emit_list emit_comparison (identifier (codes "AND")) (cmp ∷ where') rest)) (
      parse_list-emit_list parse_comparison and_next emit_comparison (identifier (codes "AND"))
        parse_comparison-emit and_goes_on
        (suc
          (suc (length (emit_list emit_comparison (identifier (codes "AND")) (cmp ∷ where') rest))))
        (cmp ∷ where') rest tt
        (let l =
            length-emit_list parse_comparison and_next emit_comparison (identifier (codes "AND"))
              parse_comparison-emit and_goes_on (λ c r. omega arith) (cmp ∷ where') rest in
          omega arith)
        ends.no_and)
  where
    where_keyword :
        (ts : Tokens) → is_keyword (codes "WHERE") (identifier (codes "WHERE") ∷ ts) ≡ true
    where_keyword ts = unfold is_keyword names_keyword in refl
