-- ===== src/Lsm/SkipList/Sorted.antt =====
-- The skip list of lsm/skip_list.h is the ordered map of its entries, whatever the heights of its towers.
use cpp_database_engine.Common.{
  ℕ, ◌≤◌, ◌≡◌, refl, sym, ap, subst, ◌∙◌, inl, inr, false, none, some, List, [], ◌∷◌, ◌++◌, arith,
  Bool-cases, List-cases, ltb, if◌then◌else◌, All,
}
use cpp_database_engine.Common.Int.{ℤ, ltb_ℤ, eqb_ℤ, eqb_ℤ_iff}
use cpp_database_engine.Common.SortedMap.{lookup, insert, from, Ascending, Above}
use cpp_database_engine.Common.Ranges.{Ascending-append_right}
use cpp_database_engine.Lsm.Value.{LsmValue}
use cpp_database_engine.Lsm.SkipList.{
  SkipList, head, descend, lower_bound, find, link, overwrite, insert_at, insert_node, entries_from,
  entries_of,
}
use cpp_database_engine.Lsm.SkipList.Chains.{Cell, entries, Holds, IsHigh}
use cpp_database_engine.Lsm.SkipList.Valid.{IsValid, Split, Split-cells, All-append_right, first}
use cpp_database_engine.Lsm.SkipList.Search.{
  reached, reached-none, candidate-first, descend-reached, lower_bound-from, find-lookup,
  entries_of-cells,
}
use cpp_database_engine.Lsm.SkipList.Link.{link-IsValid}
use cpp_database_engine.Lsm.SkipList.Overwrite.{overwrite-IsValid}

abbrev Inserted : (s : SkipList) → IsValid s → ℤ → LsmValue → SkipList → Type 0
Inserted s h k v s' = (h' : IsValid s') × (entries h'.cells ≡ insert k v (entries h.cells))

entries-append : (xs ys : List Cell) → entries (xs ++ ys) ≡ entries xs ++ entries ys
entries-append [] ys = refl
entries-append (x ∷ xs) ys = ap (λ l. (x.key, x.value) ∷ l) (entries-append xs ys)

-- Every key behind a cell whose key is not lower is apart.
all_apart :
    (k j : ℤ) (cells : List Cell)
    → ltb_ℤ j k ≡ false
    → Above j (entries cells)
    → All (λ d. (ltb_ℤ d.key k ≡ false) × (eqb_ℤ d.key k ≡ false)) cells
all_apart k j [] h b = tt
all_apart k j (d ∷ cells) h b = ((ground arith, ground arith), all_apart k j cells h b.1)

insert_at-none :
    (s : SkipList) (cur : ℕ) (update : ℕ → ℕ) (k : ℤ) (v : LsmValue) (level : ℕ)
    → (s.memory cur).forward 0 ≡ none
    → insert_at s (cur, update) k v level ≡ link s update k v level
unfolding insert_at
insert_at-none s cur update k v level e = rw (e, insert_at) refl

insert_at-some :
    (s : SkipList) (cur : ℕ) (update : ℕ → ℕ) (k : ℤ) (v : LsmValue) (level c : ℕ)
    → (s.memory cur).forward 0 ≡ some c
    → insert_at s (cur, update) k v level
      ≡ (if eqb_ℤ (s.memory c).key k then overwrite s c v else link s update k v level)
unfolding insert_at
insert_at-some s cur update k v level c e = rw (e, insert_at) refl

module _ (s : SkipList) (k : ℤ) (v : LsmValue) (level : ℕ) (h : IsValid s) (tall : 1 ≤ level) where
  module _ (p : Split k h.cells) (cur : ℕ) (update : ℕ → ℕ) (here : cur ≡ reached s k h p 0)
      (found : (i : ℕ)
        → update i ≡ (if ltb i s.current_height then reached s k h p i else head)) where
    candidate : (s.memory cur).forward 0 ≡ first p.high
    candidate = ap (λ c. (s.memory c).forward 0) here ∙ candidate-first s k h p

    insert_at-Inserted : Inserted s h k v (insert_at s (cur, update) k v level)
    insert_at-Inserted = elim (List-cases p.high) [
      | inl e ↦
          subst (λ t. Inserted s h k v t)
            (sym (insert_at-none s cur update k v level (candidate ∙ ap (λ cs. first cs) e)))
            (link-IsValid s k v level h p update found tall (
              subst (λ cs. All (λ d. (ltb_ℤ d.key k ≡ false) × (eqb_ℤ d.key k ≡ false)) cs) (sym e)
                tt))
      | inr (c, (rest, e)) ↦
          let above = subst (λ cs. All (IsHigh k) cs) e p.above in
          let whole = p.split ∙ ap (λ cs. p.low ++ cs) e in
          let held =
            All-append_right (λ d. Holds s.memory d) p.low (c ∷ rest)
              (subst (λ cs. All (λ d. Holds s.memory d) cs) whole h.holds) in
          let sorted = Ascending-append_right (entries p.low) (entries (c ∷ rest)) (
            subst (λ m. Ascending m) (ap (λ cs. entries cs) whole ∙ entries-append p.low (c ∷ rest))
              h.ascending) in
          subst (λ t. Inserted s h k v t)
            (sym (
              insert_at-some s cur update k v level c.address (candidate ∙ ap (λ cs. first cs) e)
              ∙ ap (λ j. if eqb_ℤ j k then overwrite s c.address v else link s update k v level)
                  held.0.0))
            (elim (Bool-cases (eqb_ℤ c.key k)) [
              | inl same ↦ rw same (
                  overwrite-IsValid s k c v p.low rest h whole p.below above.0
                    ((eqb_ℤ_iff c.key k).0 same))
              | inr apart ↦ rw apart (
                  link-IsValid s k v level h p update found tall (
                    subst (λ cs. All (λ d. (ltb_ℤ d.key k ≡ false) × (eqb_ℤ d.key k ≡ false)) cs)
                      (sym e) ((above.0, apart), all_apart k c.key rest above.0 sorted.0)))
            ])
    ]

  insert_node-Inserted : Inserted s h k v (insert_node s k v level)
  unfolding insert_node
  insert_node-Inserted =
      let p = Split-cells k h.cells h.ascending in
      let d =
        subst
          (λ c.
            ((descend s k s.current_height c (λ i. head)).0 ≡ reached s k h p 0)
            × ((i : ℕ)
                → (descend s k s.current_height c (λ i. head)).1 i
                  ≡ (if ltb i s.current_height then reached s k h p i else head)))
          (reached-none s k h p s.current_height (omega arith))
          (descend-reached s k h p s.current_height (λ i. head)) in
      let r = descend s k s.current_height head (λ i. head) in insert_at-Inserted p r.0 r.1 d.0 d.1

-- The skip list is the ordered map of its entries: whatever heights of at least 1 its towers have, an
-- insertion keeps a valid list valid and upserts in the entries that its iterator yields, and then
-- `Find` is the lookup in the new entries, and `LowerBound` starts the iteration at the first entry
-- whose key is not below the key. In a valid list, each level links, in ascending key order, the nodes
-- whose tower reaches it.
pub insert_node-insert :
    (s : SkipList) (key k : ℤ) (v : LsmValue) (level : ℕ)
    → IsValid s
    → 1 ≤ level
    → IsValid (insert_node s key v level)
      × ((entries_of (insert_node s key v level) ≡ insert key v (entries_of s))
          × ((find (insert_node s key v level) k ≡ lookup k (insert key v (entries_of s)))
              × (entries_from
                    (insert_node s key v level).memory
                    (insert_node s key v level).allocated
                    (lower_bound (insert_node s key v level) k)
                  ≡ from k (insert key v (entries_of s)))))
insert_node-insert s key k v level h tall =
    let s' = insert_node s key v level in
    let (h', e) = insert_node-Inserted s key v level h tall in
    let new = e ∙ ap (λ m. insert key v m) (sym (entries_of-cells s h)) in
    (
      h',
      (
        entries_of-cells s' h' ∙ new,
        (
          find-lookup s' k h' ∙ ap (λ m. lookup k m) new,
          lower_bound-from s' k h' ∙ ap (λ m. from k m) new,
        ),
      ),
    )
