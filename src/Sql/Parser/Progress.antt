-- ===== src/Sql/Parser/Progress.antt =====
-- The helpers and loops of sql/parser.cpp take tokens away, or throw an error of the code.
use cpp_database_engine.Common.{
  ℕ, zero, suc, ◌+◌, ◌≤◌, ◌≡◌, ◌≢◌, refl, Bool, true, false, List, [], ◌∷◌, arith, Bool-cases, inl,
  inr, length, if◌then◌else◌,
}
use cpp_database_engine.Common.Bytes.{Bytes, codes}
use cpp_database_engine.Sql.Error.{
  SqlError, Result, ok, err, ◌>>=◌, guard, out_of_fuel, expected_token, expected_keyword,
  expected_literal, expected_operator, expected_column_type, no_columns, first_not_integer,
}
use cpp_database_engine.Sql.Value.{ColumnType, integer_type, text_type}
use cpp_database_engine.Sql.Schema.{ColumnDef}
use cpp_database_engine.Sql.Lexer.{
  Token, identifier, integer_literal, string_literal, eq, lt, le, gt, ge, end,
}
use cpp_database_engine.Sql.Parser.{
  Tokens, Parsed, peek, advance, is_keyword, expect_keyword, expect_type, identifier_of,
  expect_identifier, parse_column_type, literal_of, parse_literal, compare_op_of, parse_compare_op,
  parse_list, parse_comparison, and_next, parse_where_clause, parse_column,
}
use cpp_database_engine.Sql.Parser.Statements.{check_columns}

-- The result is an error of the code, or leaves at least `k` tokens fewer.
pub data Consumes (k : ℕ) (ts : Tokens) {A : Type 0} : Parsed A → Type 0 where
  returns : (x : A) (rest : Tokens) → length rest + k ≤ length ts → Consumes k ts (ok (x, rest))
  fails : (e : SqlError) → e ≢ out_of_fuel → Consumes k ts (err e)

-- Likewise for a result with no tokens.
pub data Answers {A : Type 0} : Result A → Type 0 where
  answer : (x : A) → Answers (ok x)
  no_answer : (e : SqlError) → e ≢ out_of_fuel → Answers (err e)

pub Consumes-extend :
    {A : Type 0} (j k : ℕ) (ts rest : Tokens) (r : Parsed A)
    → length rest + j ≤ length ts
    → Consumes k rest r
    → Consumes (j + k) ts r
Consumes-extend j k ts rest _ h (fails e ne) = fails e ne
Consumes-extend j k ts rest _ h (returns y rest' h') = returns y rest' (omega arith)

pub Consumes-next :
    {A B : Type 0} (j k : ℕ) (ts : Tokens) (m : Parsed A) (f : A × Tokens → Parsed B)
    → Consumes j ts m
    → ((x : A) (rest : Tokens) → length rest + j ≤ length ts → Consumes k rest (f (x, rest)))
    → Consumes (j + k) ts (m >>= f)
Consumes-next j k ts _ f (fails e ne) later = fails e ne
Consumes-next j k ts _ f (returns x rest h) later =
    Consumes-extend j k ts rest (f (x, rest)) h (later x rest h)

pub Consumes-done : {A : Type 0} (ts : Tokens) (x : A) → Consumes 0 ts (ok (x, ts))
Consumes-done ts x = returns x ts (omega arith)

pub length-advance : (ts : Tokens) → length (advance ts) ≤ length ts
length-advance [] = omega arith
length-advance (t ∷ ts) = omega arith

pub Consumes-if :
    {A : Type 0} (k : ℕ) (ts : Tokens) (b : Bool) (x y : Parsed A)
    → Consumes k ts x
    → Consumes k ts y
    → Consumes k ts (if b then x else y)
Consumes-if k ts true x y hx hy = hx
Consumes-if k ts false x y hx hy = hy

-- A token is taken if `f` accepts it; it does not accept the last one.
pub Consumes-take :
    {A : Type 0} (f : Token → Result A) (e : SqlError) (ts : Tokens)
    → f end ≡ err e
    → e ≢ out_of_fuel
    → ((t : Token) → Answers (f t))
    → Consumes 1 ts (f (peek ts) >>= λ x. ok (x, advance ts))
Consumes-take f e [] last ne all = rw last (fails e ne)
Consumes-take {A = A} f e (t ∷ ts) last ne all = taken (f t) (all t)
  where
    taken : (r : Result A) → Answers r → Consumes 1 (t ∷ ts) (r >>= λ x. ok (x, ts))
    taken _ (answer x) = returns x ts (omega arith)
    taken _ (no_answer e' ne') = fails e' ne'

pub expect_keyword-Consumes : (kw : Bytes) (ts : Tokens) → Consumes 0 ts (expect_keyword kw ts)
unfolding expect_keyword
expect_keyword-Consumes kw ts =
    Consumes-if 0 ts (is_keyword kw ts) _ _
      (returns tt (advance ts) (omega (arith, length-advance ts)))
      (fails expected_keyword (λ h. cc))

pub expect_type-Consumes : (is : Token → Bool) (ts : Tokens) → Consumes 0 ts (expect_type is ts)
unfolding expect_type
expect_type-Consumes is ts =
    Consumes-if 0 ts (is (peek ts)) _ _ (returns tt (advance ts) (omega (arith, length-advance ts)))
      (fails expected_token (λ h. cc))

pub identifier_of-Answers : (t : Token) → Answers (identifier_of t)
unfolding identifier_of
identifier_of-Answers (identifier s) = answer s
identifier_of-Answers _ = no_answer expected_token (λ h. cc)

pub expect_identifier-Consumes : (ts : Tokens) → Consumes 1 ts (expect_identifier ts)
unfolding expect_identifier identifier_of
expect_identifier-Consumes ts =
    Consumes-take identifier_of expected_token ts refl (λ h. cc) identifier_of-Answers

pub literal_of-Answers : (t : Token) → Answers (literal_of t)
unfolding literal_of
literal_of-Answers (integer_literal v) = answer _
literal_of-Answers (string_literal s) = answer _
literal_of-Answers _ = no_answer expected_literal (λ h. cc)

pub parse_literal-Consumes : (ts : Tokens) → Consumes 1 ts (parse_literal ts)
unfolding parse_literal literal_of
parse_literal-Consumes ts =
    Consumes-take literal_of expected_literal ts refl (λ h. cc) literal_of-Answers

pub compare_op_of-Answers : (t : Token) → Answers (compare_op_of t)
unfolding compare_op_of
compare_op_of-Answers eq = answer _
compare_op_of-Answers lt = answer _
compare_op_of-Answers le = answer _
compare_op_of-Answers gt = answer _
compare_op_of-Answers ge = answer _
compare_op_of-Answers _ = no_answer expected_operator (λ h. cc)

pub parse_compare_op-Consumes : (ts : Tokens) → Consumes 1 ts (parse_compare_op ts)
unfolding parse_compare_op compare_op_of
parse_compare_op-Consumes ts =
    Consumes-take compare_op_of expected_operator ts refl (λ h. cc) compare_op_of-Answers

pub parse_column_type-Consumes : (ts : Tokens) → Consumes 0 ts (parse_column_type ts)
unfolding parse_column_type
parse_column_type-Consumes ts =
    let shorter : length (advance ts) + 0 ≤ length ts = omega (arith, length-advance ts) in
    Consumes-if 0 ts (is_keyword (codes "INTEGER") ts) _ _ (returns integer_type _ shorter) (
      Consumes-if 0 ts (is_keyword (codes "TEXT") ts) _ _ (returns text_type _ shorter)
        (fails expected_column_type (λ h. cc)))

pub parse_column-Consumes : (ts : Tokens) → Consumes 1 ts (parse_column ts)
unfolding parse_column
parse_column-Consumes ts = Consumes-next 1 0 ts _ _ (expect_identifier-Consumes ts) λ name ts1 h1.
    Consumes-next 0 0 ts1 _ _ (parse_column_type-Consumes ts1) λ type ts2 h2. Consumes-done ts2 _

pub Consumes-weaken :
    {A : Type 0} (k : ℕ) (ts : Tokens) (r : Parsed A) → Consumes k ts r → Consumes 0 ts r
Consumes-weaken k ts _ (fails e ne) = fails e ne
Consumes-weaken k ts _ (returns x rest h) = returns x rest (omega arith)

pub parse_comparison-Consumes : (ts : Tokens) → Consumes 1 ts (parse_comparison ts)
unfolding parse_comparison
parse_comparison-Consumes ts =
    Consumes-next 1 0 ts _ _ (expect_identifier-Consumes ts) λ column ts1 h1.
      Consumes-weaken 1 ts1 _ (
        Consumes-next 1 0 ts1 _ _ (parse_compare_op-Consumes ts1) λ op ts2 h2.
          Consumes-weaken 1 ts2 _ (
            Consumes-next 1 0 ts2 _ _ (parse_literal-Consumes ts2)
              λ literal ts3 h3. Consumes-done ts3 _))

module _ {A : Type 0} (item : Tokens → Parsed A) (separates : Tokens → Bool)
    (takes : (ts : Tokens) → Consumes 1 ts (item ts)) where
  -- A unit of fuel for each token is enough.
  pub parse_list-Consumes :
      (fuel : ℕ) (ts : Tokens)
      → suc (length ts) ≤ fuel
      → Consumes 0 ts (parse_list item separates fuel ts)
  unfolding parse_list
  parse_list-Consumes zero ts h = absurd (omega arith)
  parse_list-Consumes (suc fuel) ts h = Consumes-weaken 1 ts _ (
      Consumes-next 1 0 ts (item ts) _ (takes ts) λ x rest shorter.
        elim (Bool-cases (separates rest)) [
          | inr stop ↦ rw stop (Consumes-done rest (x ∷ []))
          | inl more ↦
              let less = length-advance rest in
              rw more (
                Consumes-extend 0 0 rest (advance rest) _ (omega arith) (
                  Consumes-next 0 0 (advance rest) _ _
                    (parse_list-Consumes fuel (advance rest) (omega arith))
                    λ xs left h'. Consumes-done left (x ∷ xs)))
        ])

pub parse_where_clause-Consumes : (ts : Tokens) → Consumes 0 ts (parse_where_clause ts)
unfolding parse_where_clause
parse_where_clause-Consumes ts =
    let less = length-advance ts in
    Consumes-if 0 ts (is_keyword (codes "WHERE") ts) _ _
      (Consumes-extend 0 0 ts (advance ts) _ (omega arith) (
        parse_list-Consumes parse_comparison and_next parse_comparison-Consumes (suc (length ts))
          (advance ts) (omega arith)))
      (Consumes-done ts [])

pub check_columns-Answers : (columns : List ColumnDef) → Answers (check_columns columns)
unfolding check_columns
check_columns-Answers [] = no_answer no_columns (λ h. cc)
check_columns-Answers (c ∷ columns) = key c.type
  where
    key :
        (t : ColumnType)
        → Answers (guard (elim t [ integer_type ↦ true | text_type ↦ false ]) first_not_integer)
    key integer_type = answer tt
    key text_type = no_answer first_not_integer (λ h. cc)
