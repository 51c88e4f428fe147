-- ===== src/Common/Bits.antt =====
-- Laws of the bit operations at variables: low masks and disjoint fields, at every width.
use Prim.Native.Nat.{
  ℕ, zero, suc, ◌+◌, ◌-◌, ◌*◌, ◌/◌, ◌%◌, ◌^◌, ◌≤◌, ◌<◌, min, max, bit_and, bit_or, digits,
  bit_and-bitwise, bit_or-bitwise,
}
use mathlib.Core.Path.{◌≡◌, refl, ap}
use native.Mathlib.Nat.{pow-suc, one-le-pow}
use native.Mathlib.Omega.{arith}

module _ (rest : ℕ → ℕ) (op : ℕ → ℕ → ℕ) where
  -- Rounds beyond the value of the first operand change nothing.
  rounds_enough : (n m a b : ℕ) → a ≤ n → a ≤ m → digits rest op n a b ≡ digits rest op m a b
  rounds_enough zero zero a b p q = refl
  rounds_enough (suc n) (suc m) (suc a) b p q =
      omega (arith, rounds_enough n m (suc a / 2) (b / 2) (omega arith) (omega arith))
  rounds_enough zero (suc m) zero b p q = refl
  rounds_enough (suc n) zero zero b p q = refl
  rounds_enough (suc n) (suc m) zero b p q = refl
  rounds_enough n m (suc a) b p q = absurd (omega arith)

  lowest_digit :
      (a b : ℕ)
      → digits rest op (suc a) (suc a) b
        ≡ digits rest op (suc a / 2) (suc a / 2) (b / 2) * 2 + op (suc a % 2) (b % 2)
  lowest_digit a b =
      omega (arith, rounds_enough a (suc a / 2) (suc a / 2) (b / 2) (omega arith) (omega arith))

-- One binary digit of each operation.
pub bit_or_step : (v w : ℕ) → bit_or v w ≡ bit_or (v / 2) (w / 2) * 2 + max (v % 2) (w % 2)
bit_or_step zero b = omega (arith, bit_or-bitwise 0 b, bit_or-bitwise 0 (b / 2))
bit_or_step (suc a) b = omega (
  arith,
  bit_or-bitwise (suc a) b,
  bit_or-bitwise (suc a / 2) (b / 2),
  lowest_digit (λ x. x) max a b,
)

pub bit_and_step : (v w : ℕ) → bit_and v w ≡ bit_and (v / 2) (w / 2) * 2 + min (v % 2) (w % 2)
bit_and_step zero b = omega (arith, bit_and-bitwise 0 b, bit_and-bitwise 0 (b / 2))
bit_and_step (suc a) b = omega (
  arith,
  bit_and-bitwise (suc a) b,
  bit_and-bitwise (suc a / 2) (b / 2),
  lowest_digit (λ _. zero) min a b,
)

-- Operations with 0, by recursion on a bound of the other operand.
and_or_zero : (n a : ℕ) → a ≤ n → (bit_and a 0 ≡ 0) × (bit_or a 0 ≡ a)
and_or_zero n zero h = (refl, refl)
and_or_zero zero (suc a) h = absurd (omega arith)
and_or_zero (suc n) (suc a) h =
    let ih = and_or_zero n (suc a / 2) (omega arith) in
    (omega (arith, bit_and_step (suc a) 0, ih.0), omega (arith, bit_or_step (suc a) 0, ih.1))

pub bit_and-zero : (a : ℕ) → bit_and a 0 ≡ 0
bit_and-zero a = (and_or_zero a a (omega arith)).0

pub bit_or-zero : (a : ℕ) → bit_or a 0 ≡ a
bit_or-zero a = (and_or_zero a a (omega arith)).1

scale : (q k : ℕ) → q * 2 ^ suc k ≡ 2 * (q * 2 ^ k)
scale q k = omega (arith, ap (λ (t : ℕ). q * t) (pow-suc 2 k))

-- A field below `2 ^ k` joined by `|` to one above it is their sum.
pub bit_or-disjoint : (k q r : ℕ) → r < 2 ^ k → bit_or (q * 2 ^ k) r ≡ q * 2 ^ k + r
bit_or-disjoint zero q r h = ground (arith, bit_or-zero q)
bit_or-disjoint (suc k) q r h =
    ground
      (arith, scale q k, bit_or_step (q * 2 ^ suc k) r, bit_or-disjoint k q (r / 2) (omega arith))

mask_of_parts : (k q r : ℕ) → r < 2 ^ k → bit_and (q * 2 ^ k + r) (2 ^ k - 1) ≡ r
mask_of_parts zero q r h = rw bit_and-zero (omega arith)
mask_of_parts (suc k) q r h = ground (
  arith,
  scale q k,
  pow-suc 2 k,
  bit_and_step (q * 2 ^ suc k + r) (2 ^ suc k - 1),
  mask_of_parts k q (r / 2) (omega arith),
)

-- `a & (2 ^ k - 1)` is the remainder by `2 ^ k`.
pub bit_and-mask : (k a : ℕ) → bit_and a (2 ^ k - 1) ≡ a % 2 ^ k
bit_and-mask k a = ground (arith, one-le-pow k 2, mask_of_parts k (a / 2 ^ k) (a % 2 ^ k))
