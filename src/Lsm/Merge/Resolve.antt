-- ===== src/Lsm/Merge/Resolve.antt =====
-- `LSMMergeIterator::Advance` (lsm/merge_iterator.cpp): what the discarding loop and the whole
-- iteration leave for each key.
use cpp_database_engine.Common.{
  ℕ, zero, suc, ◌≤◌, ◌≡◌, refl, sym, ap, subst, ◌∙◌, inl, inr, true, false, Option, none, some,
  List, [], ◌∷◌, arith, Bool-cases,
}
use cpp_database_engine.Common.Int.{ℤ, ltb_ℤ, eqb_ℤ, eqb_ℤ_iff}
use cpp_database_engine.Common.SortedMap.{lookup, Ascending, Above-of_lookup}
use cpp_database_engine.Lsm.Value.{LsmValue, Entries}
use cpp_database_engine.Lsm.Merge.{
  HeapItem, cursor_at, next_at, push_valid, value_at, entries_left, MergeIterator, start, pull,
  discard, advance, collect, merge,
}
use cpp_database_engine.Lsm.Merge.Heap.{
  heads, resolve, AllAscending, Popped, popped, resolve_of_nil, push_all-heads,
}

-- The iterator's heap holds the heads of its cursors, which ascend.
abbrev Holds : MergeIterator → Type 0
Holds m = (m.heap ≡ heads 0 m.cursors) × AllAscending m.cursors

-- What one step past the top leaves.
record Pulled (cursors : List Entries) (item : HeapItem) (rest : List HeapItem) : Type 0 where
  found : LsmValue
  value : value_at (cursor_at cursors item.priority) ≡ some found
  holds : Holds (pull cursors item.priority rest)
  least : (j : ℤ) → ltb_ℤ j item.key ≡ true → resolve j cursors ≡ none
  first : resolve item.key cursors ≡ some found
  others :
      (j : ℤ)
      → eqb_ℤ item.key j ≡ false
      → resolve j (pull cursors item.priority rest).cursors ≡ resolve j cursors
  left : suc (entries_left (pull cursors item.priority rest).cursors) ≡ entries_left cursors

pulled :
    (cursors : List Entries) (item : HeapItem) (rest : List HeapItem)
    → item ∷ rest ≡ heads 0 cursors
    → AllAscending cursors
    → Pulled cursors item rest
unfolding pull
pulled cursors item rest h s =
    let p : Popped 0 cursors item rest = popped 0 cursors item rest s (sym h) in
    let at : p.place ≡ item.priority = omega (arith, p.priority_place) in
    record {
      found = p.found;
      value = subst (λ q. value_at (cursor_at cursors q) ≡ some p.found) at p.value;
      holds = (
        subst
            (λ q.
              push_valid item.priority (cursor_at (next_at cursors q) q) rest
              ≡ heads 0 (next_at cursors q))
            at p.heap,
        subst (λ q. AllAscending (next_at cursors q)) at p.ascending,
      );
      least = p.least;
      first = p.first;
      others =
          λ j ne. subst (λ q. resolve j (next_at cursors q) ≡ resolve j cursors) at (p.others j ne);
      left = subst (λ q. suc (entries_left (next_at cursors q)) ≡ entries_left cursors) at p.left;
    }

-- What the discarding loop for the key leaves.
record Discarded (key : ℤ) (cursors : List Entries) (m : MergeIterator) : Type 0 where
  holds : Holds m
  gone : (j : ℤ) → ltb_ℤ key j ≡ false → resolve j m.cursors ≡ none
  others : (j : ℤ) → eqb_ℤ key j ≡ false → resolve j m.cursors ≡ resolve j cursors
  left : entries_left m.cursors ≤ entries_left cursors

discarded :
    (fuel : ℕ) (key : ℤ) (cursors : List Entries) (heap : List HeapItem)
    → Holds (record { cursors = cursors; heap = heap })
    → entries_left cursors ≤ fuel
    → ((j : ℤ) → ltb_ℤ j key ≡ true → resolve j cursors ≡ none)
    → Discarded key cursors (discard fuel key (record { cursors = cursors; heap = heap }))
unfolding discard
discarded zero key cursors [] h enough below = record {
  holds = h;
  gone = λ j k. resolve_of_nil 0 cursors j (sym h.0);
  others = λ j k. refl;
  left = omega arith;
}
discarded (suc fuel) key cursors [] h enough below = record {
  holds = h;
  gone = λ j k. resolve_of_nil 0 cursors j (sym h.0);
  others = λ j k. refl;
  left = omega arith;
}
discarded zero key cursors (item ∷ rest) h enough below =
    absurd (let p = pulled cursors item rest h.0 h.1 in omega (arith, p.left, enough))
discarded (suc fuel) key cursors (item ∷ rest) h enough below =
    let p : Pulled cursors item rest = pulled cursors item rest h.0 h.1 in
    let next = pull cursors item.priority rest in
    elim (Bool-cases (eqb_ℤ item.key key)) [
      | inl same ↦
          let keys : item.key ≡ key = (eqb_ℤ_iff item.key key).0 same in
          let other : (j : ℤ) → eqb_ℤ key j ≡ false → resolve j next.cursors ≡ resolve j cursors =
            λ j ne. p.others j (subst (λ k. eqb_ℤ k j ≡ false) (sym keys) ne) in
          let d : Discarded key next.cursors (discard fuel key next) =
            discarded fuel key next.cursors next.heap p.holds (omega (arith, p.left, enough))
              (λ j lt. other j (ground arith) ∙ below j lt) in
          rw (same, discard)
            (record {
              holds = d.holds;
              gone = d.gone;
              others = λ j ne. d.others j ne ∙ other j ne;
              left = omega (arith, d.left, p.left);
            })
      | inr apart ↦
          rw (apart, discard)
            (record {
              holds = h;
              gone = λ j k. p.least j (elim (Bool-cases (ltb_ℤ item.key key)) [
                | inl lt ↦ let clash = sym (below item.key lt) ∙ p.first in cc
                | inr ge ↦ ground arith
              ]);
              others = λ j k. refl;
              left = omega arith;
            })
    ]

-- What the iteration yields: the keys ascend, and each has the value of the first cursor that holds it.
abbrev Resolves : List Entries → Entries → Type 0
Resolves cursors entries = Ascending entries × ((j : ℤ) → lookup j entries ≡ resolve j cursors)

collect_step :
    (fuel : ℕ) (cursors : List Entries) (item : HeapItem) (rest : List HeapItem) (found : LsmValue)
    → value_at (cursor_at cursors item.priority) ≡ some found
    → collect (suc fuel) (record { cursors = cursors; heap = item ∷ rest })
      ≡ (item.key, found)
        ∷ collect fuel (
            discard
              (entries_left (pull cursors item.priority rest).cursors)
              item.key
              (pull cursors item.priority rest))
unfolding collect advance
collect_step fuel cursors item rest found e =
    let next = pull cursors item.priority rest in
    let later = discard (entries_left next.cursors) item.key next in
    let step : Option LsmValue → Option ((ℤ × LsmValue) × MergeIterator) =
      λ o. elim o [ none ↦ none | some v ↦ some ((item.key, v), later) ] in
    let yields : Option LsmValue → Entries =
      λ o. elim (step o) [ none ↦ [] | some r ↦ r.0 ∷ collect fuel r.1 ] in
    ap yields e

resolved :
    (fuel : ℕ) (cursors : List Entries) (heap : List HeapItem)
    → Holds (record { cursors = cursors; heap = heap })
    → entries_left cursors ≤ fuel
    → Resolves cursors (collect fuel (record { cursors = cursors; heap = heap }))
unfolding collect advance
resolved zero cursors [] h enough = (tt, λ j. sym (resolve_of_nil 0 cursors j (sym h.0)))
resolved (suc fuel) cursors [] h enough = (tt, λ j. sym (resolve_of_nil 0 cursors j (sym h.0)))
resolved zero cursors (item ∷ rest) h enough =
    absurd (let p = pulled cursors item rest h.0 h.1 in omega (arith, p.left, enough))
resolved (suc fuel) cursors (item ∷ rest) h enough =
    let p : Pulled cursors item rest = pulled cursors item rest h.0 h.1 in
    let next = pull cursors item.priority rest in
    let d : Discarded item.key next.cursors (discard (entries_left next.cursors) item.key next) =
      discarded (entries_left next.cursors) item.key next.cursors next.heap p.holds (omega arith)
        (λ j lt. p.others j (ground arith) ∙ p.least j lt) in
    let m = discard (entries_left next.cursors) item.key next in
    let ih : Resolves m.cursors (collect fuel m) =
      resolved fuel m.cursors m.heap d.holds (omega (arith, d.left, p.left, enough)) in
    subst (λ l. Resolves cursors l) (sym (collect_step fuel cursors item rest p.found p.value))
      (
        (Above-of_lookup item.key (collect fuel m) (λ j h. ih.1 j ∙ d.gone j h), ih.0),
        λ j. elim (Bool-cases (eqb_ℤ item.key j)) [
          | inl same ↦
              rw same (sym p.first ∙ ap (λ k. resolve k cursors) ((eqb_ℤ_iff item.key j).0 same))
          | inr apart ↦ rw apart (ih.1 j ∙ d.others j apart ∙ p.others j apart)
        ],
      )

-- Merging cursors that ascend yields, in ascending order, exactly the keys that some cursor holds,
-- each once, with the value of the first cursor, the newest source, that holds it.
pub merge-resolve :
    (cursors : List Entries)
    → AllAscending cursors
    → Ascending (merge cursors) × ((j : ℤ) → lookup j (merge cursors) ≡ resolve j cursors)
unfolding merge start
merge-resolve cursors s =
    resolved (entries_left cursors) cursors _ (push_all-heads 0 cursors, s) (omega arith)
