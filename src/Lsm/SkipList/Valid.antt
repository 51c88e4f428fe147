-- ===== src/Lsm/SkipList/Valid.antt =====
-- What a valid skip list (lsm/skip_list.h) holds, and how its cells split at a key.
use cpp_database_engine.Common.{
  ℕ, zero, suc, ◌≤◌, ◌<◌, ◌≡◌, refl, ap, ◌∙◌, inl, inr, true, false, Option, none, some, List, [],
  ◌∷◌, ◌++◌, arith, Bool-cases, ltb, length, All,
}
use cpp_database_engine.Common.Int.{ℤ, ltb_ℤ}
use cpp_database_engine.Common.SortedMap.{from, Above, Ascending}
use cpp_database_engine.Lsm.SkipList.{Node, SkipList, empty_list, head, entries_from}
use cpp_database_engine.Lsm.SkipList.Chains.{Cell, at_level, entries, Chain, Holds, IsLow, IsHigh}
use cpp_database_engine.Lsm.SkipList.Splice.{Distinct}

-- The cells that the nodes of a list stand for: each level links those whose tower reaches it, in
-- ascending key order.
pub record IsValid (s : SkipList) : Type 0 where
  pub cells : List Cell
  pub chains : (l : ℕ) → Chain s.memory l head (at_level l cells)
  pub holds : All (λ c. Holds s.memory c) cells
  pub ascending : Ascending (entries cells)
  pub distinct : Distinct head cells
  pub addresses : All (λ c. c.address < s.allocated) cells
  pub room : s.allocated ≡ suc (length cells)
  pub tall : All (λ c. 1 ≤ c.height) cells
  pub heights : All (λ c. c.height ≤ s.current_height) cells
  pub levels : 1 ≤ s.current_height
  pub counted : s.size ≡ length cells

pub empty_list-IsValid : IsValid empty_list
empty_list-IsValid = record {
  cells = [];
  chains = λ l. refl;
  holds = tt;
  ascending = tt;
  distinct = tt;
  addresses = tt;
  room = refl;
  tall = tt;
  heights = tt;
  levels = omega arith;
  counted = refl;
}

pub record Split (k : ℤ) (cells : List Cell) : Type 0 where
  pub low : List Cell
  pub high : List Cell
  pub split : cells ≡ low ++ high
  pub below : All (IsLow k) low
  pub above : All (IsHigh k) high

all-IsHigh :
    (k j : ℤ) (cells : List Cell)
    → ltb_ℤ j k ≡ false
    → Above j (entries cells)
    → All (IsHigh k) cells
all-IsHigh k j [] h a = tt
all-IsHigh k j (c ∷ cells) h a = (ground arith, all-IsHigh k j cells h a.1)

pub Split-cells : (k : ℤ) (cells : List Cell) → Ascending (entries cells) → Split k cells
Split-cells k [] s = record { low = []; high = []; split = refl; below = tt; above = tt }
Split-cells k (c ∷ cells) s = elim (Bool-cases (ltb_ℤ c.key k)) [
  | inl lower ↦
      let p = Split-cells k cells s.1 in
      record {
        low = c ∷ p.low;
        high = p.high;
        split = ap (λ l. c ∷ l) p.split;
        below = (lower, p.below);
        above = p.above;
      }
  | inr higher ↦ record {
    low = [];
    high = c ∷ cells;
    split = refl;
    below = tt;
    above = (higher, all-IsHigh k c.key cells higher s.0);
  }
]

pub from-split :
    (k : ℤ) (low high : List Cell)
    → All (IsLow k) low
    → All (IsHigh k) high
    → from k (entries (low ++ high)) ≡ entries high
from-split k [] [] b a = refl
from-split k [] (c ∷ high) b a = rw a.0 refl
from-split k (c ∷ low) high b a = rw b.0 (from-split k low high b.1 a)

pub at_level-none :
    (l : ℕ) (cells : List Cell) → All (λ c. c.height ≤ l) cells → at_level l cells ≡ []
at_level-none l [] h = refl
at_level-none l (c ∷ cells) h =
    let low : ltb l c.height ≡ false = ground (arith, h.0) in rw low (at_level-none l cells h.1)

pub at_level-zero : (cells : List Cell) → All (λ c. 1 ≤ c.height) cells → at_level 0 cells ≡ cells
at_level-zero [] h = refl
at_level-zero (c ∷ cells) h =
    let tall : ltb 0 c.height ≡ true = ground (arith, h.0) in
    rw tall (ap (λ l. c ∷ l) (at_level-zero cells h.1))

pub All-append_left {κ} : (P : Cell → Type κ) (xs ys : List Cell) → All P (xs ++ ys) → All P xs
All-append_left P [] ys h = tt
All-append_left P (x ∷ xs) ys h = (h.0, All-append_left P xs ys h.1)

pub All-append_right {κ} : (P : Cell → Type κ) (xs ys : List Cell) → All P (xs ++ ys) → All P ys
All-append_right P [] ys h = h
All-append_right P (x ∷ xs) ys h = All-append_right P xs ys h.1

-- The pointer to the first cell.
abbrev pub first : List Cell → Option ℕ
first [] = none
first (c ∷ cells) = some c.address

pub Chain-first :
    (m : ℕ → Node) (l cur : ℕ) (cells : List Cell)
    → Chain m l cur cells
    → (m cur).forward l ≡ first cells
Chain-first m l cur [] h = h
Chain-first m l cur (c ∷ cells) h = h.0

pub entries_from-first :
    (m : ℕ → Node) (fuel cur : ℕ) (cells : List Cell)
    → Chain m 0 cur cells
    → All (λ c. Holds m c) cells
    → length cells ≤ fuel
    → entries_from m fuel (first cells) ≡ entries cells
unfolding entries_from
entries_from-first m zero cur [] h holds f = refl
entries_from-first m (suc fuel) cur [] h holds f = refl
entries_from-first m zero cur (c ∷ cells) h holds f = absurd (omega arith)
entries_from-first m (suc fuel) cur (c ∷ cells) h holds f =
    rw (holds.0.0, holds.0.1)
      (ap (λ l. (c.key, c.value) ∷ l)
        (ap (λ p. entries_from m fuel p) (Chain-first m 0 c.address cells h.1)
          ∙ entries_from-first m fuel c.address cells h.1 holds.1 (omega (arith, f))))
