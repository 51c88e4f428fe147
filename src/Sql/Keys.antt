-- ===== src/Sql/Keys.antt =====
-- The key scheme of sql/catalog.h: the table id above, the primary key below, in one 64-bit key.
pub mod Order
use Prim.Native.Nat.{bit_and, bit_or}
use cpp_database_engine.Common.{
  ℕ, ◌+◌, ◌-◌, ◌*◌, ◌/◌, ◌%◌, ◌^◌, ◌≤◌, ◌<◌, ◌≡◌, ap, arith, ltb, if◌then◌else◌,
}
use cpp_database_engine.Common.Int.{ℤ, pos, negsuc, ◌<ℤ◌, ◌≤ℤ◌, IsInt64}
use cpp_database_engine.Common.Bits.{bit_and-mask, bit_or-disjoint}

-- The bit pattern of an `int64_t`, and the `int64_t` of a bit pattern.
unfoldable pub word_of : ℤ → ℕ
word_of (pos n) = n % 2 ^ 64
word_of (negsuc n) = 2 ^ 64 - 1 - n % 2 ^ 64

unfoldable pub int_of : ℕ → ℤ
int_of w = if ltb w (2 ^ 63) then pos w else negsuc (2 ^ 64 - 1 - w)

-- `kRowKeyBits` is 48 and `kMaxRowKey` has the 48 low bits set.
abbrev pub max_row_key : ℕ
max_row_key = 2 ^ 48 - 1

unfoldable pub encode_key : ℕ → ℤ → ℤ
unfolding word_of int_of
encode_key table_id pk =
    int_of (bit_or (table_id * 2 ^ 48 % 2 ^ 64) (bit_and (word_of pk) max_row_key))

unfoldable pub decode_row_key : ℤ → ℤ
unfolding word_of int_of
decode_row_key key = int_of (bit_and (word_of key) max_row_key)

unfoldable pub decode_table_id : ℤ → ℕ
unfolding word_of
decode_table_id key = bit_and (word_of key / 2 ^ 48) (2 ^ 16 - 1) % 2 ^ 16

pub word_of-lt : (v : ℤ) → word_of v < 2 ^ 64
unfolding word_of
word_of-lt v = ground arith

pub int_of-word_of : (v : ℤ) → IsInt64 v → int_of (word_of v) ≡ v
unfolding int_of word_of
int_of-word_of v h = ground arith

pub word_of-int_of : (w : ℕ) → w < 2 ^ 64 → word_of (int_of w) ≡ w
unfolding int_of word_of
word_of-int_of w h = ground arith

-- The code's bit operations as arithmetic.
pub encode_key_arith :
    (t : ℕ) (pk : ℤ) → t < 2 ^ 16 → encode_key t pk ≡ int_of (t * 2 ^ 48 + word_of pk % 2 ^ 48)
unfolding encode_key
encode_key_arith t pk h =
    let low : word_of pk % 2 ^ 48 < 2 ^ 48 = omega arith in
    let top : t * 2 ^ 48 % 2 ^ 64 ≡ t * 2 ^ 48 = omega arith in
    rw (bit_and-mask 48 (word_of pk), top, bit_or-disjoint 48 t (word_of pk % 2 ^ 48) low)

pub decode_row_key_arith : (key : ℤ) → decode_row_key key ≡ pos (word_of key % 2 ^ 48)
unfolding decode_row_key
decode_row_key_arith key = rw (bit_and-mask 48 (word_of key)) (ground arith)

pub decode_table_id_arith : (key : ℤ) → decode_table_id key ≡ word_of key / 2 ^ 48
unfolding decode_table_id
decode_table_id_arith key =
    rw (bit_and-mask 16 (word_of key / 2 ^ 48)) (omega (arith, word_of-lt key))
