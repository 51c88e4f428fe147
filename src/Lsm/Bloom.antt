-- ===== src/Lsm/Bloom.antt =====
-- lsm/bloom_filter.h and lsm/bloom_filter.cpp. The two sizes, which the first constructor computes
-- with floating-point functions, are arguments of it.
pub mod Bits
pub mod NoFalseNegatives
use Prim.Native.Nat.{bit_and, bit_or, bit_xor}
use cpp_database_engine.Common.{
  ℕ, zero, suc, ◌+◌, ◌*◌, ◌/◌, ◌%◌, ◌^◌, Bool, true, false, none, some, List, [], ◌∷◌, get_elem?,
  replicate, ltb, set, ◌==◌, if◌then◌else◌,
}
use cpp_database_engine.Common.Int.{ℤ}
use cpp_database_engine.Sql.Keys.{word_of}

pub record BloomFilter : Type 0 where
  pub bits : List ℕ
  pub num_bits : ℕ
  pub num_hashes : ℕ

-- The first constructor: `bits` stands for the rounded-up logarithmic size that `OptimalNumBits`
-- computes for a number of keys, `hashes` for the rounded number of hashes for a size and a number of
-- keys, which `OptimalNumHashes` clamps.
unfoldable pub new_filter : (ℕ → ℕ) → (ℕ → ℕ → ℕ) → ℕ → BloomFilter
new_filter bits hashes expected_keys =
    let keys = if expected_keys == 0 then 1 else expected_keys in
    let num_bits = if ltb 8 (bits keys) then bits keys else 8 in
    let k = hashes num_bits keys in
    record {
      bits = replicate ((num_bits + 7) / 8) 0;
      num_bits = num_bits;
      num_hashes = if ltb k 1 then 1 else if ltb 32 k then 32 else k;
    }

-- `BloomFilter::Mix` on 64-bit words.
unfoldable pub mix : ℕ → ℕ → ℕ
mix x seed =
    let x1 = (bit_xor x seed + 0x9E3779B97F4A7C15) % 2 ^ 64 in
    let x2 = bit_xor x1 (x1 / 2 ^ 30) * 0xBF58476D1CE4E5B9 % 2 ^ 64 in
    let x3 = bit_xor x2 (x2 / 2 ^ 27) * 0x94D049BB133111EB % 2 ^ 64 in bit_xor x3 (x3 / 2 ^ 31)

abbrev pub seed_1 : ℕ
seed_1 = 0x9E3779B97F4A7C15

abbrev pub seed_2 : ℕ
seed_2 = 0xC2B2AE3D27D4EB4F

-- `BloomFilter::BitIndex`
unfoldable pub bit_index : BloomFilter → ℕ → ℕ → ℕ → ℕ
bit_index f h1 h2 i = (h1 + i * h2 % 2 ^ 64) % 2 ^ 64 % f.num_bits

-- `bits_[bit / 8] |= 1u << (bit % 8)`; the union of two bytes is a byte.
unfoldable pub set_bit : List ℕ → ℕ → List ℕ
set_bit bits bit = elim (get_elem? bits (bit / 8)) [
  | none ↦ bits
  | some byte ↦ set bits (bit / 8) (bit_or byte (2 ^ (bit % 8)))
]

-- `(bits_[bit / 8] & (1u << (bit % 8))) != 0`
unfoldable pub test_bit : List ℕ → ℕ → Bool
test_bit bits bit = elim (get_elem? bits (bit / 8)) [
  | none ↦ false
  | some byte ↦ if bit_and byte (2 ^ (bit % 8)) == 0 then false else true
]

-- The loop of `Add` from round `i`, with `rounds` rounds to go.
unfoldable pub add_from : BloomFilter → ℕ → ℕ → ℕ → ℕ → List ℕ → List ℕ
add_from f h1 h2 i zero bits = bits
add_from f h1 h2 i (suc rounds) bits =
    add_from f h1 h2 (suc i) rounds (set_bit bits (bit_index f h1 h2 i))

-- `BloomFilter::Add`
unfoldable pub add : BloomFilter → ℤ → BloomFilter
add f key =
    let h1 = mix (word_of key) seed_1 in
    let h2 = mix (word_of key) seed_2 in record f { bits = add_from f h1 h2 0 f.num_hashes f.bits }

-- The loop of `MightContain`.
unfoldable pub contain_from : BloomFilter → ℕ → ℕ → ℕ → ℕ → List ℕ → Bool
contain_from f h1 h2 i zero bits = true
contain_from f h1 h2 i (suc rounds) bits =
    if test_bit bits (bit_index f h1 h2 i) then contain_from f h1 h2 (suc i) rounds bits else false

-- `BloomFilter::MightContain`
unfoldable pub might_contain : BloomFilter → ℤ → Bool
might_contain f key =
    contain_from f (mix (word_of key) seed_1) (mix (word_of key) seed_2) 0 f.num_hashes f.bits
