-- ===== src/Lsm/SkipList/Search.antt =====
-- The searches of the skip list (lsm/skip_list.h) on its entries.
use cpp_database_engine.Common.{
  ℕ, zero, suc, ◌≤◌, ◌≡◌, refl, sym, ap, subst, ◌∙◌, inl, inr, true, false, Option, none, some,
  List, [], ◌∷◌, ◌++◌, arith, Bool-cases, ltb, length, length-append, ◌==◌, if◌then◌else◌, All,
}
use cpp_database_engine.Common.Int.{ℤ, eqb_ℤ}
use cpp_database_engine.Common.SortedMap.{from, lookup}
use cpp_database_engine.Lsm.Value.{LsmValue}
use cpp_database_engine.Lsm.Table.Lookup.{found_at}
use cpp_database_engine.Lsm.Table.Pages.{found_at-from}
use cpp_database_engine.Lsm.SkipList.{
  SkipList, head, put_at, walk_level, descend, seek, lower_bound, find, entries_from, entries_of,
}
use cpp_database_engine.Lsm.SkipList.Chains.{
  Cell, at_level, entries, Chain, last_of, Holds, Chain-append, walk_level-at_level,
}
use cpp_database_engine.Lsm.SkipList.Valid.{
  Split-cells, from-split, at_level-none, at_level-zero, All-append_left, All-append_right, IsValid,
  Split, first, Chain-first, entries_from-first,
}

-- A search of a valid list whose cells are split at the key.
module _ (s : SkipList) (k : ℤ) (h : IsValid s) (p : Split k h.cells) where
  pub chain : (l : ℕ) → Chain s.memory l head (at_level l (p.low ++ p.high))
  chain l = subst (λ cs. Chain s.memory l head (at_level l cs)) p.split (h.chains l)

  pub all {κ} : (P : Cell → Type κ) → All P h.cells → All P (p.low ++ p.high)
  all P a = subst (λ cs. All P cs) p.split a

  abbrev pub reached : ℕ → ℕ
  reached l = last_of head (at_level l p.low)

  walked : (l : ℕ) → walk_level s.memory k l s.allocated (reached (suc l)) ≡ reached l
  walked l =
      let n = ap (λ cs. length cs) p.split ∙ length-append p.low p.high in
      walk_level-at_level s.memory k l s.allocated p.low p.high (chain l)
        (all (λ c. Holds s.memory c) h.holds) p.below p.above (omega (arith, n, h.room))

  seek-reached : (levels : ℕ) → seek s k levels (reached levels) ≡ reached 0
  unfolding seek
  seek-reached zero = refl
  seek-reached (suc l) = ap (λ c. seek s k l c) (walked l) ∙ seek-reached l

  pub reached-none : (l : ℕ) → s.current_height ≤ l → reached l ≡ head
  reached-none l high =
      ap (λ cs. last_of head cs)
        (at_level-none l p.low (
          lower_than l high p.low (
            All-append_left (λ c. c.height ≤ s.current_height) p.low p.high
              (all (λ c. c.height ≤ s.current_height) h.heights))))
    where
      lower_than :
          (l : ℕ)
          → s.current_height ≤ l
          → (cells : List Cell) → All (λ c. c.height ≤ s.current_height) cells
          → All (λ c. c.height ≤ l) cells
      lower_than l high [] a = tt
      lower_than l high (c ∷ cells) a = (omega (arith, high, a.0), lower_than l high cells a.1)

  pub reached_zero : reached 0 ≡ last_of head p.low
  reached_zero =
      ap (λ cs. last_of head cs)
        (at_level-zero p.low
          (All-append_left (λ c. 1 ≤ c.height) p.low p.high (all (λ c. 1 ≤ c.height) h.tall)))

  high_chain : Chain s.memory 0 (reached 0) p.high
  high_chain =
      let whole =
        subst (λ cs. Chain s.memory 0 head cs)
          (at_level-zero (p.low ++ p.high) (all (λ c. 1 ≤ c.height) h.tall)) (chain 0) in
      subst (λ c. Chain s.memory 0 c p.high) (sym reached_zero)
        (Chain-append s.memory 0 head p.low p.high whole)

  pub candidate-first : (s.memory (reached 0)).forward 0 ≡ first p.high
  candidate-first = Chain-first s.memory 0 (reached 0) p.high high_chain

  seek-first : (s.memory (seek s k s.current_height head)).forward 0 ≡ first p.high
  seek-first =
      ap (λ c. (s.memory (seek s k s.current_height c)).forward 0)
        (sym (reached-none s.current_height (omega arith)))
      ∙ ap (λ c. (s.memory c).forward 0) (seek-reached s.current_height)
      ∙ candidate-first

  high-from : from k (entries h.cells) ≡ entries p.high
  high-from = ap (λ cs. from k (entries cs)) p.split ∙ from-split k p.low p.high p.below p.above

  lower_bound_split : entries_from s.memory s.allocated (lower_bound s k) ≡ from k (entries h.cells)
  unfolding lower_bound
  lower_bound_split =
      let n = ap (λ cs. length cs) p.split ∙ length-append p.low p.high in
      ap (λ c. entries_from s.memory s.allocated c) seek-first
      ∙ entries_from-first s.memory s.allocated (reached 0) p.high high_chain
          (All-append_right (λ c. Holds s.memory c) p.low p.high
            (all (λ c. Holds s.memory c) h.holds))
          (omega (arith, n, h.room))
      ∙ sym high-from

  find_split : find s k ≡ lookup k (entries h.cells)
  unfolding find found_at
  find_split =
      ap (λ o. candidate_value o) seek-first
      ∙ found p.high (
          All-append_right (λ c. Holds s.memory c) p.low p.high
            (all (λ c. Holds s.memory c) h.holds))
      ∙ ap (λ m. found_at k m) (sym high-from)
      ∙ found_at-from k (entries h.cells) h.ascending
    where
      candidate_value : Option ℕ → Option LsmValue
      candidate_value o = elim o [
        | none ↦ none
        | some c ↦ if eqb_ℤ (s.memory c).key k then some (s.memory c).value else none
      ]

      found :
          (high : List Cell)
          → All (λ c. Holds s.memory c) high
          → candidate_value (first high) ≡ found_at k (entries high)
      found [] a = refl
      found (c ∷ high) a = rw (a.0.0, a.0.1) refl

  pub descend-reached :
      (levels : ℕ) (update : ℕ → ℕ)
      → ((descend s k levels (reached levels) update).0 ≡ reached 0)
        × ((i : ℕ)
            → (descend s k levels (reached levels) update).1 i
              ≡ (if ltb i levels then reached i else update i))
  unfolding descend put_at
  descend-reached zero update = (refl, λ i. ground arith)
  descend-reached (suc l) update =
      subst
        (λ c.
          ((descend s k l c (put_at update l c)).0 ≡ reached 0)
          × ((i : ℕ)
              → (descend s k l c (put_at update l c)).1 i
                ≡ (if ltb i (suc l) then reached i else update i)))
        (sym (walked l))
        (let d = descend-reached l (put_at update l (reached l)) in
          (d.0, λ i. d.1 i ∙ one_more l update i))
    where
      one_more :
          (l : ℕ) (update : ℕ → ℕ) (i : ℕ)
          → (if ltb i l then reached i else put_at update l (reached l) i)
            ≡ (if ltb i (suc l) then reached i else update i)
      one_more l update i = elim (Bool-cases (i == l)) [
        | inl here ↦
            let same : l ≡ i = ground arith in
            let out : ltb i l ≡ false = ground arith in
            let within : ltb i (suc l) ≡ true = ground arith in
            rw (out, within, here) (ap (λ j. reached j) same)
        | inr apart ↦ rw apart (ground arith)
      ]

-- `LowerBound` starts the iteration at the first entry whose key is not below the key.
pub lower_bound-from :
    (s : SkipList) (k : ℤ) (h : IsValid s)
    → entries_from s.memory s.allocated (lower_bound s k) ≡ from k (entries h.cells)
lower_bound-from s k h = lower_bound_split s k h (Split-cells k h.cells h.ascending)

pub find-lookup : (s : SkipList) (k : ℤ) (h : IsValid s) → find s k ≡ lookup k (entries h.cells)
find-lookup s k h = find_split s k h (Split-cells k h.cells h.ascending)

pub entries_of-cells : (s : SkipList) (h : IsValid s) → entries_of s ≡ entries h.cells
unfolding entries_of
entries_of-cells s h =
    let whole =
      subst (λ cs. Chain s.memory 0 head cs) (at_level-zero h.cells h.tall) (h.chains 0) in
    ap (λ p. entries_from s.memory s.allocated p) (Chain-first s.memory 0 head h.cells whole)
    ∙ entries_from-first s.memory s.allocated head h.cells whole h.holds (omega (arith, h.room))
