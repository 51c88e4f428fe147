-- ===== src/Sql/Keys/Order.antt =====
-- The key scheme of sql/catalog.h against its purpose: keys of one table are contiguous, and in
-- the order of their primary keys.
use cpp_database_engine.Common.{
  ℕ, ◌+◌, ◌*◌, ◌/◌, ◌%◌, ◌^◌, ◌≤◌, ◌<◌, ◌≡◌, ◌≢◌, ◌∙◌, refl, sym, inl, inr, true, false, Bool-cases,
  arith,
}
use cpp_database_engine.Common.Int.{ℤ, pos, ltb_ℤ, ◌<ℤ◌, IsInt64}
use cpp_database_engine.Sql.Keys.{
  word_of, int_of, encode_key, decode_row_key, decode_table_id, word_of-lt, word_of-int_of,
  int_of-word_of, encode_key_arith, decode_row_key_arith, decode_table_id_arith,
}

word_of-pos : (n : ℕ) → n < 2 ^ 64 → word_of (pos n) ≡ n
unfolding word_of
word_of-pos n h = omega arith

pub word_of-encode_key :
    (t n : ℕ) → t < 2 ^ 16 → n < 2 ^ 48 → word_of (encode_key t (pos n)) ≡ t * 2 ^ 48 + n
word_of-encode_key t n ht hn =
    let e : word_of (pos n) ≡ n = word_of-pos n (omega arith) in
    rw
      (
        encode_key_arith t (pos n) ht,
        word_of-int_of (t * 2 ^ 48 + word_of (pos n) % 2 ^ 48) (omega arith),
      )
      (omega arith)

-- Both parts of a key are read back, for every 16-bit table id and every primary key that INSERT
-- accepts.
pub decode-encode_key :
    (t n : ℕ)
    → t < 2 ^ 16
    → n < 2 ^ 48
    → (decode_table_id (encode_key t (pos n)) ≡ t) × (decode_row_key (encode_key t (pos n)) ≡ pos n)
decode-encode_key t n ht hn =
    let e : word_of (encode_key t (pos n)) ≡ t * 2 ^ 48 + n = word_of-encode_key t n ht hn in
    (
      rw (decode_table_id_arith (encode_key t (pos n))) (omega arith),
      rw (decode_row_key_arith (encode_key t (pos n))) (ground arith),
    )

-- The order of signed keys, through their bit patterns.
flip : ℕ → ℕ
flip w = (w + 2 ^ 63) % 2 ^ 64

lt_flip : (a b : ℤ) → IsInt64 a → IsInt64 b → a <ℤ b → flip (word_of a) < flip (word_of b)
unfolding word_of flip
lt_flip a b ha hb h = ground arith

flip_lt : (a b : ℤ) → IsInt64 a → IsInt64 b → flip (word_of a) < flip (word_of b) → a <ℤ b
unfolding word_of flip
flip_lt a b ha hb h = ground arith

int_of-IsInt64 : (w : ℕ) → w < 2 ^ 64 → IsInt64 (int_of w)
unfolding int_of
int_of-IsInt64 w h = ground arith

pub encode_key-IsInt64 : (t : ℕ) (pk : ℤ) → t < 2 ^ 16 → IsInt64 (encode_key t pk)
encode_key-IsInt64 t pk h =
    rw (encode_key_arith t pk h) (int_of-IsInt64 (t * 2 ^ 48 + word_of pk % 2 ^ 48) (omega arith))

-- A key of the table that is below the key of row `n` has a smaller row key.
pub row_key_of_lt :
    (t n : ℕ) (a : ℤ)
    → t < 2 ^ 16
    → n < 2 ^ 48
    → IsInt64 a
    → decode_table_id a ≡ t
    → a <ℤ encode_key t (pos n)
    → word_of a % 2 ^ 48 < n
unfolding flip
row_key_of_lt t n a ht hn ha e h = omega (
  arith,
  lt_flip a (encode_key t (pos n)) ha (encode_key-IsInt64 t (pos n) ht) h,
  word_of-encode_key t n ht hn,
  decode_table_id_arith a,
  word_of-lt a,
)

-- A table's keys are contiguous: of two 64-bit keys, if the lower one is not below the key of a row
-- `n` of table `t` and belongs to another table, then so does the higher one. Ids have 16 bits and
-- row keys 48.
pub other_table_of_lt :
    (t n : ℕ) (a b : ℤ)
    → t < 2 ^ 16
    → n < 2 ^ 48
    → IsInt64 a
    → IsInt64 b
    → ¬ (a <ℤ encode_key t (pos n))
    → decode_table_id a ≢ t
    → a <ℤ b
    → decode_table_id b ≢ t
unfolding flip
other_table_of_lt t n a b ht hn ha hb start other h = λ e. other (
    omega (
      arith,
      lt_flip a b ha hb h,
      λ (f : flip (word_of a) < flip (word_of (encode_key t (pos n)))).
          start (flip_lt a (encode_key t (pos n)) ha (encode_key-IsInt64 t (pos n) ht) f),
      word_of-encode_key t n ht hn,
      decode_table_id_arith a,
      decode_table_id_arith b,
      word_of-lt a,
      word_of-lt b,
    ))

pub row_bits_lt :
    (t : ℕ) (a b : ℤ)
    → IsInt64 a
    → IsInt64 b
    → decode_table_id a ≡ t
    → decode_table_id b ≡ t
    → a <ℤ b
    → word_of a % 2 ^ 48 < word_of b % 2 ^ 48
unfolding flip
row_bits_lt t a b ha hb ea eb h = omega (
  arith,
  lt_flip a b ha hb h,
  decode_table_id_arith a,
  decode_table_id_arith b,
  word_of-lt a,
  word_of-lt b,
)

row_bits_le :
    (a b : ℤ)
    → IsInt64 a
    → IsInt64 b
    → decode_table_id a ≡ decode_table_id b
    → ¬ (a <ℤ b)
    → word_of b % 2 ^ 48 ≤ word_of a % 2 ^ 48
unfolding flip
row_bits_le a b ha hb e h = omega (
  arith,
  λ (f : flip (word_of a) < flip (word_of b)). h (flip_lt a b ha hb f),
  e,
  decode_table_id_arith a,
  decode_table_id_arith b,
  word_of-lt a,
  word_of-lt b,
)

-- Within a table, comparing two 64-bit keys is comparing what `DecodeRowKey` gives for them.
pub row_key_lt :
    (a b : ℤ)
    → IsInt64 a
    → IsInt64 b
    → decode_table_id a ≡ decode_table_id b
    → ltb_ℤ (decode_row_key a) (decode_row_key b) ≡ ltb_ℤ a b
row_key_lt a b ha hb e = elim (Bool-cases (ltb_ℤ a b)) [
  | inl below ↦
      let less = row_bits_lt (decode_table_id a) a b ha hb refl (sym e) (ground arith) in
      let rows : ltb_ℤ (decode_row_key a) (decode_row_key b) ≡ true =
        ground (arith, decode_row_key_arith a, decode_row_key_arith b) in
      rows ∙ sym below
  | inr not_below ↦
      let rows : ltb_ℤ (decode_row_key a) (decode_row_key b) ≡ false = ground (
        arith,
        decode_row_key_arith a,
        decode_row_key_arith b,
        row_bits_le a b ha hb e (ground arith),
      ) in
      rows ∙ sym not_below
]

-- Every 64-bit key is the key of its own table id and row key.
pub encode_key-decode : (a : ℤ) → IsInt64 a → encode_key (decode_table_id a) (decode_row_key a) ≡ a
encode_key-decode a h =
    let w = word_of a in
    let bound : w < 2 ^ 64 = word_of-lt a in
    let row : word_of (pos (w % 2 ^ 48)) ≡ w % 2 ^ 48 = word_of-pos (w % 2 ^ 48) (omega arith) in
    let join : w / 2 ^ 48 * 2 ^ 48 + w % 2 ^ 48 % 2 ^ 48 ≡ w = omega arith in
    rw (decode_table_id_arith a, decode_row_key_arith a)
      (rw (encode_key_arith (w / 2 ^ 48) (pos (w % 2 ^ 48)) (omega arith), row, join)
        (int_of-word_of a h))
