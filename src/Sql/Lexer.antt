-- ===== src/Sql/Lexer.antt =====
-- sql/token.h, sql/lexer.h and sql/lexer.cpp. The text is the list of its bytes; the index `i` is
-- the list of the bytes that are left. The character classes are those of the "C" locale.
pub mod Fuel
use cpp_database_engine.Common.{
  ℕ, zero, suc, ◌+◌, ◌-◌, ◌*◌, ◌^◌, Bool, true, false, Option, none, some, List, [], ◌∷◌, ltb, leb,
  ◌==◌, ◌&&◌, ◌||◌, if◌then◌else◌, length,
}
use cpp_database_engine.Common.Int.{ℤ, pos, negsuc}
use cpp_database_engine.Common.Bytes.{Bytes}
use cpp_database_engine.Sql.Error.{
  Result, ok, err, ◌>>=◌, unterminated_string, unexpected_character, literal_out_of_range,
  out_of_fuel,
}

-- `Token` with its `TokenType`; the text of the other tokens is used for messages only.
pub data Token : Type 0 where
  identifier : Bytes → Token
  integer_literal : ℤ → Token
  string_literal : Bytes → Token
  lparen rparen comma semicolon star : Token
  eq lt le gt ge : Token
  end : Token

unfoldable pub is_space : ℕ → Bool
is_space c = c == b' ' || (leb 9 c && leb c 13)

unfoldable pub is_digit : ℕ → Bool
is_digit c = leb b'0' c && leb c b'9'

unfoldable pub is_alpha : ℕ → Bool
is_alpha c = (leb b'a' c && leb c b'z') || (leb b'A' c && leb c b'Z')

-- The bytes of an identifier after the first: `isalnum` and the underscore.
unfoldable pub is_word : ℕ → Bool
unfolding is_alpha is_digit
is_word c = (is_alpha c || is_digit c) || c == b'_'

-- The longest prefix of bytes of a class, and what follows it.
unfoldable pub span : (ℕ → Bool) → Bytes → Bytes × Bytes
span p [] = ([], [])
span p (c ∷ s) = elim (p c) [ true ↦ (c ∷ (span p s).0, (span p s).1) | false ↦ ([], c ∷ s) ]

-- `find('\'')`: what stands before the quote, and after it.
unfoldable pub split_quote : Bytes → Option (Bytes × Bytes)
split_quote [] = none
split_quote (c ∷ s) =
    if c == 39
    then some ([], s)
    else elim (split_quote s) [ none ↦ none | some r ↦ some (c ∷ r.0, r.1) ]

unfoldable pub digits_value : ℕ → Bytes → ℕ
digits_value acc [] = acc
digits_value acc (c ∷ s) = digits_value (acc * 10 + (c - b'0')) s

-- `std::stoll` of an optional minus sign and digits.
unfoldable pub stoll : Bool → Bytes → Result ℤ
stoll negative digits =
    let n = digits_value 0 digits in
    if negative
    then (if leb n (2 ^ 63)
        then ok (elim n [ zero ↦ pos 0 | suc m ↦ negsuc m ])
        else err literal_out_of_range)
    else if ltb n (2 ^ 63)
    then ok (pos n)
    else err literal_out_of_range

-- The first byte of the text is `c`.
abbrev pub starts_with : ℕ → Bytes → Bool
starts_with c [] = false
starts_with c (d ∷ s) = d == c

abbrev pub starts_digit : Bytes → Bool
starts_digit [] = false
starts_digit (d ∷ s) = is_digit d

abbrev pub tail : Bytes → Bytes
tail [] = []
tail (c ∷ s) = s

-- `<` and `>`, with the `=` that may follow.
unfoldable pub lex_order : Token → Token → Bytes → Result (Option Token × Bytes)
lex_order strict weak s = if starts_with b'=' s then ok (some weak, tail s) else ok (some strict, s)

unfoldable pub lex_string : Bytes → Result (Option Token × Bytes)
lex_string s = elim (split_quote s) [
  | none ↦ err unterminated_string
  | some r ↦ ok (some (string_literal r.0), r.1)
]

-- A literal from its first byte on.
unfoldable pub lex_integer : ℕ → Bytes → Result (Option Token × Bytes)
lex_integer c s =
    let r = span is_digit s in
    do
      v ← (if c == b'-' then stoll true r.0 else stoll false (c ∷ r.0))
      ok (some (integer_literal v), r.1)

unfoldable pub lex_word : ℕ → Bytes → Result (Option Token × Bytes)
lex_word c s = let r = span is_word s in ok (some (identifier (c ∷ r.0)), r.1)

-- One round of the loop of `Tokenize` at the byte `c`: the token, if it is not white space, and
-- what is left.
unfoldable pub next_token : ℕ → Bytes → Result (Option Token × Bytes)
next_token c s =
    if is_space c
    then ok (none, s)
    else if c == b'('
    then ok (some lparen, s)
    else if c == b')'
    then ok (some rparen, s)
    else if c == b','
    then ok (some comma, s)
    else if c == b';'
    then ok (some semicolon, s)
    else if c == b'*'
    then ok (some star, s)
    else if c == b'='
    then ok (some eq, s)
    else if c == b'<'
    then lex_order lt le s
    else if c == b'>'
    then lex_order gt ge s
    else if c == 39
    then lex_string s
    else if is_digit c || (c == b'-' && starts_digit s)
    then lex_integer c s
    else if is_alpha c || c == b'_'
    then lex_word c s
    else err unexpected_character

abbrev pub prepend : Option Token → List Token → List Token
prepend none ts = ts
prepend (some t) ts = t ∷ ts

-- The loop of `Tokenize`; a round takes a unit of fuel.
unfoldable pub tokenize_from : ℕ → Bytes → Result (List Token)
tokenize_from fuel [] = ok (end ∷ [])
tokenize_from zero (c ∷ s) = err out_of_fuel
tokenize_from (suc fuel) (c ∷ s) =
    next_token c s >>= λ r. tokenize_from fuel r.1 >>= λ ts. ok (prepend r.0 ts)

-- `Lexer::Tokenize`
unfoldable pub tokenize : Bytes → Result (List Token)
unfolding tokenize_from
tokenize sql = tokenize_from (length sql) sql
