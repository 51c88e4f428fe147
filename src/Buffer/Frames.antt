-- ===== src/Buffer/Frames.antt =====
-- What the replacers of buffer/ share: `size_t` counters, and the number of evictable frames.
use cpp_database_engine.Common.{
  ℕ, ◌+◌, ◌-◌, ◌%◌, ◌^◌, ◌≡◌, refl, Bool, true, false, Option, none, some, List, [], ◌∷◌, arith,
  inl, inr, Bool-cases,
}
use cpp_database_engine.Common.Int.{ℤ, eqb_ℤ}
use cpp_database_engine.Common.SortedMap.{
  lookup, insert, erase, Ascending, lookup_of_Above, Above-trans,
}

-- `++n` and `--n` on a `size_t`.
unfoldable pub increment : ℕ → ℕ
increment n = (n + 1) % 2 ^ 64

unfoldable pub decrement : ℕ → ℕ
decrement n = (n + (2 ^ 64 - 1)) % 2 ^ 64

-- `evictable_count_ += evictable ? 1 : -1`, where the flag changes.
unfoldable pub adjust : Bool → Bool → ℕ → ℕ
adjust true true n = n
adjust false false n = n
adjust false true n = increment n
adjust true false n = decrement n

-- What `Evict` does: it is undefined, returns false, or returns true with a victim.
pub data Eviction (S : Type 0) : Type 0 where
  undefined no_victim : Eviction S
  victim : ℤ → S → Eviction S

module _ {V : Type 0} (test : V → Bool) where
  abbrev pub units : Bool → ℕ
  units true = 1
  units false = 0

  abbrev pub units_of : Option V → ℕ
  units_of none = 0
  units_of (some v) = units (test v)

  -- The number of entries that pass the test.
  abbrev pub count : List (ℤ × V) → ℕ
  count [] = 0
  count ((k, v) ∷ m) = units (test v) + count m

  pub count-insert :
      (k : ℤ) (v : V) (m : List (ℤ × V))
      → Ascending m
      → count (insert k v m) + units_of (lookup k m) ≡ count m + units (test v)
  count-insert k v [] s = omega arith
  count-insert k v ((j, w) ∷ m) s =
      ground (arith, count-insert k v m s.1, lookup_of_Above k m, Above-trans k j m)

  pub count-erase : (k : ℤ) (m : List (ℤ × V)) → count (erase k m) + units_of (lookup k m) ≡ count m
  count-erase k [] = refl
  count-erase k ((j, w) ∷ m) = elim (Bool-cases (eqb_ℤ j k)) [
    | inl same ↦ rw same (omega arith)
    | inr other ↦ rw other (omega (arith, count-erase k m))
  ]
