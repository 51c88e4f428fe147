-- ===== src/Lsm/Bloom/NoFalseNegatives.antt =====
-- What lsm/bloom_filter.h promises: a key that was added is never reported absent.
use cpp_database_engine.Common.{
  ℕ, zero, suc, ◌+◌, ◌*◌, ◌/◌, ◌%◌, ◌^◌, ◌≤◌, ◌<◌, ◌≡◌, refl, ap, ◌∙◌, arith, true, false, List, [],
  ◌∷◌, ◌++◌, length, if◌then◌else◌, Bool-cases, inl, inr, ltb, ◌==◌, length-replicate,
}
use cpp_database_engine.Common.Int.{ℤ}
use cpp_database_engine.Sql.Keys.{word_of}
use cpp_database_engine.Lsm.Bloom.{
  BloomFilter, new_filter, mix, seed_1, seed_2, bit_index, set_bit, test_bit, add_from, add,
  contain_from, might_contain,
}
use cpp_database_engine.Lsm.Bloom.Bits.{test_bit-set_bit_self, test_bit-set_bit, length-set_bit}

-- The filter has bits, and a byte for each of them.
abbrev pub IsSized : BloomFilter → List ℕ → Type 0
IsSized f bits = (1 ≤ f.num_bits) × (f.num_bits ≤ 8 * length bits)

-- The first constructor makes such a filter, whatever the floating-point functions give.
pub new_filter-IsSized :
    (bits : ℕ → ℕ) (hashes : ℕ → ℕ → ℕ) (n : ℕ)
    → IsSized (new_filter bits hashes n) (new_filter bits hashes n).bits
unfolding new_filter
new_filter-IsSized bits hashes n =
    let keys = if n == 0 then 1 else n in
    let m = if ltb 8 (bits keys) then bits keys else 8 in
    let least : 8 ≤ m = elim (Bool-cases (ltb 8 (bits keys))) [
      | inl e ↦ rw e (ground arith)
      | inr e ↦ rw e (omega arith)
    ] in
    let l = length-replicate {A = ℕ} ((m + 7) / 8) 0 in (omega arith, omega (arith, l, least))

test_bit-add_from :
    (f : BloomFilter) (h1 h2 i rounds : ℕ) (bits : List ℕ) (bit : ℕ)
    → test_bit bits bit ≡ true
    → test_bit (add_from f h1 h2 i rounds bits) bit ≡ true
unfolding add_from
test_bit-add_from f h1 h2 i zero bits bit h = h
test_bit-add_from f h1 h2 i (suc rounds) bits bit h =
    test_bit-add_from f h1 h2 (suc i) rounds _ bit
      (test_bit-set_bit bits (bit_index f h1 h2 i) bit h)

index-lt :
    (f : BloomFilter) (h1 h2 i : ℕ) (bits : List ℕ)
    → IsSized f bits
    → bit_index f h1 h2 i / 8 < length bits
unfolding bit_index
index-lt f h1 h2 i bits sized =
    let w = (h1 + i * h2 % 2 ^ 64) % 2 ^ 64 in
    let below : w % f.num_bits < f.num_bits = omega arith in omega arith

contain_from-add_from :
    (f : BloomFilter) (h1 h2 i rounds : ℕ) (bits : List ℕ)
    → IsSized f bits
    → contain_from f h1 h2 i rounds (add_from f h1 h2 i rounds bits) ≡ true
unfolding add_from contain_from
contain_from-add_from f h1 h2 i zero bits sized = refl
contain_from-add_from f h1 h2 i (suc rounds) bits sized =
    let bit = bit_index f h1 h2 i in
    let bits' = set_bit bits bit in
    let first : test_bit (add_from f h1 h2 (suc i) rounds bits') bit ≡ true =
      test_bit-add_from f h1 h2 (suc i) rounds bits' bit
        (test_bit-set_bit_self bits bit (index-lt f h1 h2 i bits sized)) in
    let sized' : IsSized f bits' =
      let l = length-set_bit bits bit in (sized.0, omega (arith, sized.1, l)) in
    ap
      (λ b.
        if b
        then contain_from f h1 h2 (suc i) rounds (add_from f h1 h2 (suc i) rounds bits')
        else false)
      first
    ∙ contain_from-add_from f h1 h2 (suc i) rounds bits' sized'

contain_from_mono :
    (f : BloomFilter) (h1 h2 i rounds : ℕ) (bits bits' : List ℕ)
    → ((bit : ℕ) → test_bit bits bit ≡ true → test_bit bits' bit ≡ true)
    → contain_from f h1 h2 i rounds bits ≡ true
    → contain_from f h1 h2 i rounds bits' ≡ true
unfolding contain_from
contain_from_mono f h1 h2 i zero bits bits' more h = refl
contain_from_mono f h1 h2 i (suc rounds) bits bits' more h =
    elim (Bool-cases (test_bit bits (bit_index f h1 h2 i))) [
      | inl e ↦
          let e' = more (bit_index f h1 h2 i) e in
          let rest = contain_from_mono f h1 h2 (suc i) rounds bits bits' more (ground arith) in
          ground arith
      | inr e ↦ absurd (ground arith)
    ]

-- The filter after every key of the list.
abbrev pub add_all : BloomFilter → List ℤ → BloomFilter
add_all f [] = f
add_all f (key ∷ keys) = add_all (add f key) keys

might_contain-add_self :
    (f : BloomFilter) (key : ℤ) → IsSized f f.bits → might_contain (add f key) key ≡ true
unfolding might_contain add contain_from bit_index
might_contain-add_self f key sized =
    contain_from-add_from f (mix (word_of key) seed_1) (mix (word_of key) seed_2) 0 f.num_hashes
      f.bits sized

might_contain-add :
    (f : BloomFilter) (key other : ℤ)
    → might_contain f other ≡ true
    → might_contain (add f key) other ≡ true
unfolding might_contain add contain_from bit_index
might_contain-add f key other h =
    contain_from_mono f (mix (word_of other) seed_1) (mix (word_of other) seed_2) 0 f.num_hashes
      f.bits _
      (λ bit.
        test_bit-add_from f (mix (word_of key) seed_1) (mix (word_of key) seed_2) 0 f.num_hashes
          f.bits bit)
      h

length-add_from :
    (f : BloomFilter) (h1 h2 i rounds : ℕ) (bits : List ℕ)
    → length (add_from f h1 h2 i rounds bits) ≡ length bits
unfolding add_from
length-add_from f h1 h2 i zero bits = refl
length-add_from f h1 h2 i (suc rounds) bits =
    length-add_from f h1 h2 (suc i) rounds _ ∙ length-set_bit bits (bit_index f h1 h2 i)

add-IsSized : (f : BloomFilter) (key : ℤ) → IsSized f f.bits → IsSized (add f key) (add f key).bits
unfolding add
add-IsSized f key sized =
    let l =
      length-add_from f (mix (word_of key) seed_1) (mix (word_of key) seed_2) 0 f.num_hashes
        f.bits in
    (sized.0, omega (arith, sized.1, l))

might_contain-add_all :
    (f : BloomFilter) (keys : List ℤ) (other : ℤ)
    → might_contain f other ≡ true
    → might_contain (add_all f keys) other ≡ true
might_contain-add_all f [] other h = h
might_contain-add_all f (key ∷ keys) other h =
    might_contain-add_all (add f key) keys other (might_contain-add f key other h)

-- No false negatives: after any keys are added to a filter that has at least one bit, and a byte for
-- each of its bits, it reports none of them absent.
pub add_all-might_contain :
    (f : BloomFilter) (before after : List ℤ) (key : ℤ)
    → IsSized f f.bits
    → might_contain (add_all f (before ++ key ∷ after)) key ≡ true
add_all-might_contain f [] after key sized =
    might_contain-add_all (add f key) after key (might_contain-add_self f key sized)
add_all-might_contain f (first ∷ before) after key sized =
    add_all-might_contain (add f first) before after key (add-IsSized f first sized)
