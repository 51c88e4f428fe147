-- ===== src/Sql/Lexer/Fuel.antt =====
-- The loop of `Lexer::Tokenize` (sql/lexer.cpp) ends: each round takes at least one byte.
use cpp_database_engine.Common.{
  ℕ, zero, suc, ◌≤◌, ◌≡◌, ◌≢◌, ap, Bool, true, false, Option, some, List, [], ◌∷◌, inl, inr, arith,
  Bool-cases, Option-cases, length, ◌==◌, ◌&&◌, ◌||◌, if◌then◌else◌,
}
use cpp_database_engine.Common.Int.{ℤ}
use cpp_database_engine.Common.Bytes.{Bytes}
use cpp_database_engine.Sql.Error.{
  unterminated_string, SqlError, Result, ok, err, ◌>>=◌, out_of_fuel, unexpected_character,
}
use cpp_database_engine.Sql.Lexer.{
  Token, is_space, starts_digit, is_alpha, integer_literal, is_digit, is_word, span, split_quote,
  lex_order, lex_string, lex_integer, lex_word, stoll, next_token, tokenize_from, tokenize, prepend,
}

-- The round ends with an error of the code, or leaves no more than it was given.
data Shrinks (s : Bytes) : Result (Option Token × Bytes) → Type 0 where
  returns : (t : Option Token) (rest : Bytes) → length rest ≤ length s → Shrinks s (ok (t, rest))
  fails : (e : SqlError) → e ≢ out_of_fuel → Shrinks s (err e)

Shrinks-if :
    (s : Bytes) (b : Bool) (x y : Result (Option Token × Bytes))
    → Shrinks s x
    → Shrinks s y
    → Shrinks s (if b then x else y)
Shrinks-if s true x y hx hy = hx
Shrinks-if s false x y hx hy = hy

length-span : (p : ℕ → Bool) (s : Bytes) → length (span p s).1 ≤ length s
unfolding span
length-span p [] = omega arith
length-span p (c ∷ s) = ground (arith, length-span p s)

length-split_quote :
    (s : Bytes) (r : Bytes × Bytes) → split_quote s ≡ some r → length r.1 ≤ length s
unfolding split_quote
length-split_quote [] r h = absurd (ground arith)
length-split_quote (c ∷ s) r h = elim (Option-cases (split_quote s)) [
  | inl e ↦ ground arith
  | inr (r', e) ↦ ground (arith, length-split_quote s r' e)
]

lex_order-Shrinks : (t t' : Token) (s : Bytes) → Shrinks s (lex_order t t' s)
unfolding lex_order
lex_order-Shrinks t t' [] = returns _ _ (omega arith)
lex_order-Shrinks t t' (c ∷ s) =
    Shrinks-if (c ∷ s) (c == b'=') _ _ (returns _ _ (omega arith)) (returns _ _ (omega arith))

lex_string-Shrinks : (s : Bytes) → Shrinks s (lex_string s)
unfolding lex_string
lex_string-Shrinks s = elim (Option-cases (split_quote s)) [
  | inl e ↦ rw (e, lex_string) (fails unterminated_string (λ h. cc))
  | inr (r, e) ↦ rw (e, lex_string) (returns _ r.1 (length-split_quote s r e))
]

lex_word-Shrinks : (c : ℕ) (s : Bytes) → Shrinks s (lex_word c s)
unfolding lex_word
lex_word-Shrinks c s = returns _ _ (length-span is_word s)

-- Either outcome of `stoll` is one of the code.
stoll-next :
    (s rest : Bytes) (r : Result ℤ) (f : ℤ → Token)
    → length rest ≤ length s
    → r ≢ err out_of_fuel
    → Shrinks s (r >>= λ v. ok (some (f v), rest))
stoll-next s rest (ok v) f h ne = returns _ rest h
stoll-next s rest (err e) f h ne = fails e (λ same. ne (ap (λ x. err x) same))

stoll-ne : (negative : Bool) (digits : Bytes) → stoll negative digits ≢ err out_of_fuel
unfolding stoll
stoll-ne negative digits h = ground arith

lex_integer-Shrinks : (c : ℕ) (s : Bytes) → Shrinks s (lex_integer c s)
unfolding lex_integer
lex_integer-Shrinks c s = stoll-next s _ _ integer_literal (length-span is_digit s) (λ h.
    elim (Bool-cases (c == b'-')) [
      | inl e ↦ stoll-ne true (span is_digit s).0 (rw e at h)
      | inr e ↦ stoll-ne false (c ∷ (span is_digit s).0) (rw e at h)
    ])

next_token-Shrinks : (c : ℕ) (s : Bytes) → Shrinks s (next_token c s)
unfolding next_token
next_token-Shrinks c s =
    let keep : length s ≤ length s = omega arith in
    Shrinks-if s (is_space c) _ _ (returns _ s keep) (
      Shrinks-if s (c == b'(') _ _ (returns _ s keep) (
        Shrinks-if s (c == b')') _ _ (returns _ s keep) (
          Shrinks-if s (c == b',') _ _ (returns _ s keep) (
            Shrinks-if s (c == b';') _ _ (returns _ s keep) (
              Shrinks-if s (c == b'*') _ _ (returns _ s keep) (
                Shrinks-if s (c == b'=') _ _ (returns _ s keep) (
                  Shrinks-if s (c == b'<') _ _ (lex_order-Shrinks _ _ s) (
                    Shrinks-if s (c == b'>') _ _ (lex_order-Shrinks _ _ s) (
                      Shrinks-if s (c == 39) _ _ (lex_string-Shrinks s) (
                        Shrinks-if s (is_digit c || (c == b'-' && starts_digit s)) _ _
                          (lex_integer-Shrinks c s)
                          (Shrinks-if s (is_alpha c || c == b'_') _ _ (lex_word-Shrinks c s)
                            (fails unexpected_character (λ h. cc)))))))))))))

finish-ne :
    (t : Option Token) (r : Result (List Token))
    → r ≢ err out_of_fuel
    → (r >>= λ ts. ok (prepend t ts)) ≢ err out_of_fuel
finish-ne t (err x) ne e = ne (ap (λ o. o) e)
finish-ne t (ok ts) ne e = cc

round-ne :
    (s : Bytes) (fuel : ℕ) (r : Result (Option Token × Bytes))
    → Shrinks s r
    → ((rest : Bytes) → length rest ≤ length s → tokenize_from fuel rest ≢ err out_of_fuel)
    → (r >>= λ q. tokenize_from fuel q.1 >>= λ ts. ok (prepend q.0 ts)) ≢ err out_of_fuel
round-ne s fuel _ (returns t rest h) later e =
    finish-ne t (tokenize_from fuel rest) (later rest h) e
round-ne s fuel _ (fails x ne) later e = ne (cc)

tokenize_from-total :
    (fuel : ℕ) (s : Bytes) → length s ≤ fuel → tokenize_from fuel s ≢ err out_of_fuel
unfolding tokenize_from
tokenize_from-total fuel [] h e = cc
tokenize_from-total zero (c ∷ s) h e = absurd (omega arith)
tokenize_from-total (suc fuel) (c ∷ s) h e =
    round-ne s fuel (next_token c s) (next_token-Shrinks c s)
      (λ rest shorter. tokenize_from-total fuel rest (omega arith)) e

-- `Tokenize` ends on every text: a unit of fuel for each byte is enough.
pub tokenize-total : (sql : Bytes) → tokenize sql ≢ err out_of_fuel
unfolding tokenize
tokenize-total sql = tokenize_from-total (length sql) sql (omega arith)
