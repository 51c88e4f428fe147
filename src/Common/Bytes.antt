-- ===== src/Common/Bytes.antt =====
-- Byte strings (`std::string`) as lists of numbers: equality, the order of `operator<`, and
-- little-endian integers, as `memcpy` of an integer writes and reads them.
use Prim.Native.Char.{code}
use Prim.Native.String.{String}
use native.Mathlib.Nat.{pow-suc}
use cpp_database_engine.Common.Names.{
  ℕ, zero, suc, ◌+◌, ◌*◌, ◌/◌, ◌%◌, ◌^◌, ◌<◌, ◌≡◌, refl, ◌↔◌, Bool, true, false, List, [], ◌∷◌,
  arith,
}
use cpp_database_engine.Common.Tests.{ltb, ◌==◌, if◌then◌else◌}
use cpp_database_engine.Common.Lists.{length}

abbrev pub Bytes : Type 0
Bytes = List ℕ

-- A text literal, for tests.
abbrev pub codes : String → Bytes
codes String.[] = []
codes (String.◌∷◌ c s) = code c ∷ codes s

abbrev pub eqb_bytes : Bytes → Bytes → Bool
eqb_bytes [] [] = true
eqb_bytes [] (b ∷ t) = false
eqb_bytes (a ∷ s) [] = false
eqb_bytes (a ∷ s) (b ∷ t) = if a == b then eqb_bytes s t else false

-- `std::string::operator<`: lexicographic.
abbrev pub ltb_bytes : Bytes → Bytes → Bool
ltb_bytes [] [] = false
ltb_bytes [] (b ∷ t) = true
ltb_bytes (a ∷ s) [] = false
ltb_bytes (a ∷ s) (b ∷ t) = if ltb a b then true else if a == b then ltb_bytes s t else false

pub eqb_bytes_iff : (s t : Bytes) → (eqb_bytes s t ≡ true) ↔ (s ≡ t)
eqb_bytes_iff [] [] = ((λ h. refl), (λ h. refl))
eqb_bytes_iff [] (b ∷ t) = ((λ h. cc), (λ h. cc))
eqb_bytes_iff (a ∷ s) [] = ((λ h. cc), (λ h. cc))
eqb_bytes_iff (a ∷ s) (b ∷ t) = ground (arith, eqb_bytes_iff s t)

unfoldable pub le_bytes : ℕ → ℕ → Bytes
le_bytes zero w = []
le_bytes (suc n) w = w % 256 ∷ le_bytes n (w / 256)

unfoldable pub le_value : Bytes → ℕ
le_value [] = 0
le_value (b ∷ s) = b + 256 * le_value s

pub length-le_bytes : (n w : ℕ) → length (le_bytes n w) ≡ n
unfolding le_bytes
length-le_bytes zero w = refl
length-le_bytes (suc n) w = omega (arith, length-le_bytes n (w / 256))

pub le_value-le_bytes : (n w : ℕ) → w < 256 ^ n → le_value (le_bytes n w) ≡ w
unfolding le_bytes le_value
le_value-le_bytes zero w h = omega arith
le_value-le_bytes (suc n) w h =
    omega (arith, le_value-le_bytes n (w / 256) (omega (arith, pow-suc 256 n)))
