-- ===== src/Lsm/SkipList/Link.antt =====
-- `Insert` of the skip list (lsm/skip_list.h) at a new key.
use cpp_database_engine.Common.{
  ℕ, ◌+◌, ◌-◌, ◌≤◌, ◌<◌, ◌≡◌, refl, sym, ap, subst, ◌∙◌, inl, inr, true, false, ◌∷◌, ◌++◌, arith,
  Bool-cases, ltb, leb, length, ◌==◌, ◌&&◌, if◌then◌else◌, All,
}
use cpp_database_engine.Common.Int.{ℤ, ltb_ℤ, eqb_ℤ}
use cpp_database_engine.Common.SortedMap.{insert, Ascending, insert-Ascending}
use cpp_database_engine.Lsm.Value.{LsmValue}
use cpp_database_engine.Lsm.SkipList.{Node, SkipList, head, splice, link}
use cpp_database_engine.Lsm.SkipList.Chains.{
  Cell, at_level, entries, Chain, Holds, at_level-append, All-at_level,
}
use cpp_database_engine.Lsm.SkipList.Splice.{Apart, Distinct, Distinct-at_level, splice-forward}
use cpp_database_engine.Lsm.SkipList.Spliced.{Chain-frame, Chain-splice}
use cpp_database_engine.Lsm.SkipList.Valid.{IsValid, Split}
use cpp_database_engine.Lsm.SkipList.Search.{reached, reached-none, chain, all}
use cpp_database_engine.Lsm.SkipList.Added.{
  with_node-same, with_node-Holds, with_node-forward, with_node-new, length-insert, filled,
  with_node, All-insert, Distinct-insert, entries-insert, fill_head-at, below_allocated,
  spliced-Holds, spliced-above, all_above, higher_than, more_allocated,
}

module _ (s : SkipList) (k : ℤ) (v : LsmValue) (level : ℕ) (h : IsValid s) (p : Split k h.cells)
    (update : ℕ → ℕ)
    (found : (i : ℕ)
      → update i ≡ (if ltb i s.current_height then reached s k h p i else head)) where
  filled-reached : (l : ℕ) → l < level → filled s update level l ≡ reached s k h p l
  filled-reached l e = elim (Bool-cases (ltb l s.current_height)) [
    | inl low ↦
        let as_found : update l ≡ reached s k h p l = found l ∙ (rw low refl) in
        elim (Bool-cases (ltb s.current_height level)) [
          | inl higher ↦
              let out : (leb s.current_height l
                    && ltb l (s.current_height + (level - s.current_height)))
                  ≡ false =
                ground arith in
              rw higher (
                fill_head-at (level - s.current_height) s.current_height update l
                ∙ (rw out as_found))
          | inr lower ↦ rw lower as_found
        ]
    | inr high ↦
        let higher : ltb s.current_height level ≡ true = ground arith in
        let within : (leb s.current_height l
              && ltb l (s.current_height + (level - s.current_height)))
            ≡ true =
          ground arith in
        rw higher (
          fill_head-at (level - s.current_height) s.current_height update l
          ∙ (rw within (sym (reached-none s k h p l (ground arith)))))
  ]

  new : Cell
  new = record { address = s.allocated; key = k; value = v; height = level }

  apart : Apart s.allocated (p.low ++ p.high)
  apart =
      below_allocated s.allocated (p.low ++ p.high)
        (all s k h p (λ c. c.address < s.allocated) h.addresses)

  head_apart : (head == s.allocated) ≡ false
  head_apart = ground (arith, h.room)

  before_chain : (l : ℕ) → Chain (with_node s k v) l head (at_level l (p.low ++ p.high))
  before_chain l =
      Chain-frame s.memory (with_node s k v) l head (at_level l (p.low ++ p.high))
        (ap (λ (n : Node). n.forward l) (with_node-same s k v head head_apart))
        (with_node-forward s k v l _ (
          All-at_level (λ (c : Cell). (s.allocated == c.address) ≡ false) l (p.low ++ p.high)
            apart))
        (chain s k h p l)

  memory : ℕ → Node
  memory = splice level 0 (filled s update level) s.allocated (with_node s k v)

  after_chain : (l : ℕ) → Chain memory l head (at_level l (p.low ++ new ∷ p.high))
  unfolding memory new
  after_chain l =
      let before' =
        subst (λ cs. Chain (with_node s k v) l head cs) (at_level-append l p.low p.high)
          (before_chain l) in
      let apart' =
        All-at_level (λ (c : Cell). (s.allocated == c.address) ≡ false) l (p.low ++ p.high) apart in
      subst (λ cs. Chain memory l head cs) (sym (at_level-append l p.low (new ∷ p.high)))
        (elim (Bool-cases (ltb l level)) [
          | inl tall ↦
              let within : (leb 0 l && ltb l (0 + level)) ≡ true = ground arith in
              rw tall (
                Chain-splice (with_node s k v) memory (filled s update level) l s.allocated
                  (λ a.
                    splice-forward level 0 (filled s update level) s.allocated (with_node s k v) a l
                    ∙ (rw within refl))
                  head new (at_level l p.low) (at_level l p.high) refl
                  (filled-reached l (ground arith)) head_apart
                  (subst (λ cs. Apart s.allocated cs) (at_level-append l p.low p.high) apart')
                  (subst (λ cs. Distinct head cs) (at_level-append l p.low p.high)
                    (Distinct-at_level l head (p.low ++ p.high)
                      (subst (λ cs. Distinct head cs) p.split h.distinct)))
                  before')
          | inr small ↦ rw small (
              Chain-frame (with_node s k v) memory l head (at_level l p.low ++ at_level l p.high)
                (spliced-above level s.allocated (filled s update level) (with_node s k v) l head
                  (ground arith))
                (all_above level s.allocated (filled s update level) (with_node s k v) l
                  (ground arith) _)
                before')
        ])

  -- The list with the new node.
  pub link-IsValid :
      1 ≤ level
      → All (λ d. (ltb_ℤ d.key k ≡ false) × (eqb_ℤ d.key k ≡ false)) p.high
      → (h' : IsValid (link s update k v level)) × (entries h'.cells ≡ insert k v (entries h.cells))
  unfolding link memory new
  link-IsValid tall absent =
      let added : entries (p.low ++ new ∷ p.high) ≡ insert k v (entries h.cells) =
        entries-insert k v p.low p.high new refl refl p.below absent
        ∙ ap (λ cs. insert k v (entries cs)) (sym p.split) in
      let n = ap (λ cs. length cs) p.split in
      let n' = length-insert p.low p.high new in
      let grown : s.current_height
          ≤ (if ltb s.current_height level then level else s.current_height) =
        ground arith in
      let reaches : level ≤ (if ltb s.current_height level then level else s.current_height) =
        ground arith in
      (
        record {
          cells = p.low ++ new ∷ p.high;
          chains = after_chain;
          holds = spliced-Holds level s.allocated (filled s update level) (with_node s k v) _ (
              All-insert (λ d. Holds (with_node s k v) d) p.low p.high new
                (with_node-new s k v level)
                (with_node-Holds s k v (p.low ++ p.high) apart
                  (all s k h p (λ d. Holds s.memory d) h.holds)));
          ascending =
              subst (λ m. Ascending m) (sym added)
                (insert-Ascending k v (entries h.cells) h.ascending);
          distinct =
              Distinct-insert head p.low p.high new head_apart apart
                (subst (λ cs. Distinct head cs) p.split h.distinct);
          addresses =
              All-insert (λ d. d.address < s.allocated + 1) p.low p.high new (omega arith)
                (more_allocated s.allocated (p.low ++ p.high)
                  (all s k h p (λ d. d.address < s.allocated) h.addresses));
          room = omega (arith, n, n', h.room);
          tall =
              All-insert (λ d. 1 ≤ d.height) p.low p.high new tall
                (all s k h p (λ d. 1 ≤ d.height) h.tall);
          heights =
              All-insert
                (λ d. d.height ≤ (if ltb s.current_height level then level else s.current_height))
                p.low p.high new reaches
                (higher_than s.current_height _ (p.low ++ p.high) grown
                  (all s k h p (λ d. d.height ≤ s.current_height) h.heights));
          levels = omega (arith, grown, h.levels);
          counted = omega (arith, n, n', h.counted);
        },
        added,
      )
