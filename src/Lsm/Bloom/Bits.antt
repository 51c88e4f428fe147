-- ===== src/Lsm/Bloom/Bits.antt =====
-- The bit operations of lsm/bloom_filter.cpp: setting a bit sets it, and clears none.
use Prim.Native.Nat.{bit_and, bit_or, bit_and-bitwise}
use native.Mathlib.Nat.{pow-suc}
use cpp_database_engine.Common.{
  ℕ, zero, suc, ◌/◌, ◌%◌, ◌^◌, ◌≤◌, ◌<◌, ◌≡◌, ◌≢◌, refl, ◌∙◌, sym, ap, ==_iff, arith, true, false,
  none, some, List, [], ◌∷◌, inl, inr, Bool-cases, Option-cases, get_elem?, set, length, ◌==◌,
  if◌then◌else◌, length-set, get_elem?-set_self, get_elem?-set_ne,
}
use cpp_database_engine.Common.Bits.{bit_and_step, bit_or_step}
use cpp_database_engine.Lsm.Bloom.{set_bit, test_bit}

true≢false : true ≢ false
true≢false h = cc

or_half : (a b m : ℕ) → bit_and (bit_or a b) m ≡ 0 → bit_and (bit_or (a / 2) (b / 2)) (m / 2) ≡ 0
or_half a b m e =
    let half : bit_or a b / 2 ≡ bit_or (a / 2) (b / 2) = omega (arith, bit_or_step a b) in
    rw (← half) (omega (arith, e, bit_and_step (bit_or a b) m))

or_keeps : (n a b m : ℕ) → a ≤ n → bit_and a m ≢ 0 → bit_and (bit_or a b) m ≢ 0
or_keeps n zero b m h ne e = absurd (ne (omega (arith, bit_and-bitwise 0 m)))
or_keeps zero (suc a) b m h ne e = absurd (omega arith)
or_keeps (suc n) (suc a) b m h ne e = elim (Bool-cases (bit_and (suc a / 2) (m / 2) == 0)) [
  | inl z ↦ ne (
      omega (
        arith,
        (==_iff (bit_and (suc a / 2) (m / 2)) 0).0 z,
        e,
        bit_and_step (suc a) m,
        bit_and_step (bit_or (suc a) b) m,
        bit_or_step (suc a) b,
      ))
  | inr nz ↦
      or_keeps n (suc a / 2) (b / 2) (m / 2) (omega arith)
        (λ z. true≢false (sym ((==_iff (bit_and (suc a / 2) (m / 2)) 0).1 z) ∙ nz))
        (or_half (suc a) b m e)
]

or_sets : (n a m : ℕ) → m ≤ n → m ≢ 0 → bit_and (bit_or a m) m ≢ 0
or_sets n a zero h ne e = ne refl
or_sets zero a (suc m) h ne e = absurd (omega arith)
or_sets (suc n) a (suc m) h ne e = elim (Bool-cases (suc m / 2 == 0)) [
  | inl z ↦ omega (
    arith,
    (==_iff (suc m / 2) 0).0 z,
    e,
    bit_and_step (bit_or a (suc m)) (suc m),
    bit_or_step a (suc m),
  )
  | inr nz ↦
      let half : bit_or a (suc m) / 2 ≡ bit_or (a / 2) (suc m / 2) =
        omega (arith, bit_or_step a (suc m)) in
      or_sets n (a / 2) (suc m / 2) (omega arith)
        (λ z. true≢false (sym ((==_iff (suc m / 2) 0).1 z) ∙ nz))
        (rw (← half) (omega (arith, e, bit_and_step (bit_or a (suc m)) (suc m))))
]

get_elem?-in :
    (bits : List ℕ) (i : ℕ) → i < length bits → (byte : ℕ) × (get_elem? bits i ≡ some byte)
get_elem?-in [] i h = absurd (omega arith)
get_elem?-in (b ∷ bits) zero h = (b, refl)
get_elem?-in (b ∷ bits) (suc i) h = get_elem?-in bits i (omega arith)

in-get_elem? : (bits : List ℕ) (i byte : ℕ) → get_elem? bits i ≡ some byte → i < length bits
in-get_elem? [] i byte h = absurd (ground arith)
in-get_elem? (b ∷ bits) zero byte h = omega arith
in-get_elem? (b ∷ bits) (suc i) byte h = let ih = in-get_elem? bits i byte h in omega arith

nonzero-test : (n : ℕ) → n ≢ 0 → (if n == 0 then false else true) ≡ true
nonzero-test n ne = ground arith

test-nonzero : (n : ℕ) → (if n == 0 then false else true) ≡ true → n ≢ 0
test-nonzero n h = ground arith

mask_ne_zero : (k : ℕ) → 2 ^ k ≢ 0
mask_ne_zero zero z = omega arith
mask_ne_zero (suc k) z = mask_ne_zero k (omega (arith, pow-suc 2 k))

set_bit-some :
    (bits : List ℕ) (bit byte : ℕ)
    → get_elem? bits (bit / 8) ≡ some byte
    → set_bit bits bit ≡ set bits (bit / 8) (bit_or byte (2 ^ (bit % 8)))
unfolding set_bit
set_bit-some bits bit byte e =
    ap (λ o. elim o [ none ↦ bits | some byte ↦ set bits (bit / 8) (bit_or byte (2 ^ (bit % 8))) ])
      e

set_bit-none : (bits : List ℕ) (bit : ℕ) → get_elem? bits (bit / 8) ≡ none → set_bit bits bit ≡ bits
unfolding set_bit
set_bit-none bits bit e =
    ap (λ o. elim o [ none ↦ bits | some byte ↦ set bits (bit / 8) (bit_or byte (2 ^ (bit % 8))) ])
      e

test_bit-some :
    (bits : List ℕ) (bit byte : ℕ)
    → get_elem? bits (bit / 8) ≡ some byte
    → test_bit bits bit ≡ (if bit_and byte (2 ^ (bit % 8)) == 0 then false else true)
unfolding test_bit
test_bit-some bits bit byte e =
    ap
      (λ o. elim o [
        | none ↦ false
        | some byte ↦ if bit_and byte (2 ^ (bit % 8)) == 0 then false else true
      ])
      e

-- The two bits have different bytes.
test_bit_ne :
    (bits : List ℕ) (i bit v : ℕ) → i ≢ bit / 8 → test_bit (set bits i v) bit ≡ test_bit bits bit
unfolding test_bit
test_bit_ne bits i bit v ne =
    ap
      (λ o. elim o [
        | none ↦ false
        | some byte ↦ if bit_and byte (2 ^ (bit % 8)) == 0 then false else true
      ])
      (get_elem?-set_ne bits i (bit / 8) v ne)

pub test_bit-set_bit_self :
    (bits : List ℕ) (bit : ℕ) → bit / 8 < length bits → test_bit (set_bit bits bit) bit ≡ true
test_bit-set_bit_self bits bit h =
    let (byte, e) = get_elem?-in bits (bit / 8) h in
    let mask = 2 ^ (bit % 8) in
    ap (λ bs. test_bit bs bit) (set_bit-some bits bit byte e)
    ∙ test_bit-some _ bit (bit_or byte mask)
        (get_elem?-set_self bits (bit / 8) (bit_or byte mask) h)
    ∙ nonzero-test (bit_and (bit_or byte mask) mask)
        (or_sets mask byte mask (omega arith) (mask_ne_zero (bit % 8)))

pub test_bit-set_bit :
    (bits : List ℕ) (bit other : ℕ)
    → test_bit bits other ≡ true
    → test_bit (set_bit bits bit) other ≡ true
test_bit-set_bit bits bit other h = elim (Option-cases (get_elem? bits (bit / 8))) [
  | inl e ↦ ap (λ bs. test_bit bs other) (set_bit-none bits bit e) ∙ h
  | inr (byte, e) ↦
      ap (λ bs. test_bit bs other) (set_bit-some bits bit byte e)
      ∙ elim (Bool-cases (bit / 8 == other / 8)) [
        | inl same ↦
            let same' : bit / 8 ≡ other / 8 = (==_iff (bit / 8) (other / 8)).0 same in
            let e' : get_elem? bits (other / 8) ≡ some byte =
              ap (λ i. get_elem? bits i) (sym same') ∙ e in
            let now : get_elem? (set bits (bit / 8) (bit_or byte (2 ^ (bit % 8)))) (other / 8)
                ≡ some (bit_or byte (2 ^ (bit % 8))) =
              ap (λ i. get_elem? (set bits (bit / 8) (bit_or byte (2 ^ (bit % 8)))) i) (sym same')
              ∙ get_elem?-set_self bits (bit / 8) _ (in-get_elem? bits (bit / 8) byte e) in
            let was : bit_and byte (2 ^ (other % 8)) ≢ 0 =
              test-nonzero _ (sym (test_bit-some bits other byte e') ∙ h) in
            test_bit-some _ other _ now
            ∙ nonzero-test _
                (or_keeps byte byte (2 ^ (bit % 8)) (2 ^ (other % 8)) (omega arith) was)
        | inr apart ↦
            test_bit_ne bits (bit / 8) other _
              (λ z. true≢false (sym ((==_iff (bit / 8) (other / 8)).1 z) ∙ apart))
            ∙ h
      ]
]

pub length-set_bit : (bits : List ℕ) (bit : ℕ) → length (set_bit bits bit) ≡ length bits
length-set_bit bits bit = elim (Option-cases (get_elem? bits (bit / 8))) [
  | inl e ↦ ap (λ bs. length bs) (set_bit-none bits bit e)
  | inr (byte, e) ↦
      ap (λ bs. length bs) (set_bit-some bits bit byte e)
      ∙ length-set bits (bit / 8) (bit_or byte (2 ^ (bit % 8)))
]
