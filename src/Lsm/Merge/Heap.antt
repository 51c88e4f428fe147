-- ===== src/Lsm/Merge/Heap.antt =====
-- The priority queue of `LSMMergeIterator` (lsm/merge_iterator.h) holds the heads of the cursors.
use cpp_database_engine.Common.{
  ℕ, suc, ◌+◌, ◌≡◌, refl, sym, ap, subst, ◌∙◌, ◌≢◌, inl, inr, true, false, Option, none, some, List,
  [], ◌∷◌, arith, Bool-cases, if◌then◌else◌,
}
use cpp_database_engine.Common.Int.{ℤ, eq_of_parts, ltb_ℤ, eqb_ℤ, eqb_ℤ_iff, ◌<ℤ◌}
use cpp_database_engine.Common.SortedMap.{lookup, Ascending, Above, Above-trans, lookup_of_Above}
use cpp_database_engine.Lsm.Value.{LsmValue, Entries}
use cpp_database_engine.Lsm.Merge.{
  HeapItem, precedes, push, cursor_at, next, next_at, push_valid, push_all, value_at, entries_left,
}

precedes-total : (a b : HeapItem) → precedes a b ≡ false → precedes b a ≡ true
unfolding precedes
precedes-total a b h = ground arith

precedes_trans :
    (a b c : HeapItem) → precedes a b ≡ true → precedes b c ≡ true → precedes a c ≡ true
unfolding precedes
precedes_trans a b c h k = ground arith

precedes-antisym : (a b : HeapItem) → precedes a b ≡ true → precedes b a ≡ true → a ≡ b
unfolding precedes
precedes-antisym a b h k =
    let keys : a.key ≡ b.key = eq_of_parts a.key b.key (ground arith) in
    let priorities : a.priority ≡ b.priority = ground arith in
    ap (λ k'. record { key = k'; priority = a.priority }) keys
    ∙ ap (λ p. record { key = b.key; priority = p }) priorities

comm_of_precedes :
    (a b : HeapItem) (heap : List HeapItem)
    → precedes a b ≡ true
    → push a (push b heap) ≡ push b (push a heap)
unfolding push
comm_of_precedes a b [] h = ground (arith, precedes-antisym a b)
comm_of_precedes a b (y ∷ heap) h =
    ground (arith, precedes_trans a b y, precedes-antisym a b, comm_of_precedes a b heap)

-- Two pushes may be swapped.
pub push_comm :
    (a b : HeapItem) (heap : List HeapItem) → push a (push b heap) ≡ push b (push a heap)
push_comm a b heap = elim (Bool-cases (precedes a b)) [
  | inl first ↦ comm_of_precedes a b heap first
  | inr second ↦ sym (comm_of_precedes b a heap (precedes-total a b second))
]

-- The heap of the heads of the cursors from number `i` on.
unfoldable pub heads : ℕ → List Entries → List HeapItem
heads i [] = []
heads i (cursor ∷ cursors) = push_valid i cursor (heads (suc i) cursors)

push_valid-push :
    (i : ℕ) (cursor : Entries) (item : HeapItem) (heap : List HeapItem)
    → push_valid i cursor (push item heap) ≡ push item (push_valid i cursor heap)
unfolding push_valid
push_valid-push i [] item heap = refl
push_valid-push i ((key, v) ∷ cursor) item heap =
    push_comm (record { key = key; priority = i }) item heap

push_all-push :
    (i : ℕ) (cursors : List Entries) (item : HeapItem) (heap : List HeapItem)
    → push_all i cursors (push item heap) ≡ push item (push_all i cursors heap)
unfolding push_all
push_all-push i [] item heap = refl
push_all-push i (cursor ∷ cursors) item heap =
    ap (λ h. push_all (suc i) cursors h) (push_valid-push i cursor item heap)
    ∙ push_all-push (suc i) cursors item (push_valid i cursor heap)

push_all-push_valid :
    (i j : ℕ) (cursors : List Entries) (cursor : Entries) (heap : List HeapItem)
    → push_all i cursors (push_valid j cursor heap) ≡ push_valid j cursor (push_all i cursors heap)
unfolding push_valid
push_all-push_valid i j cursors [] heap = refl
push_all-push_valid i j cursors ((key, v) ∷ cursor) heap = push_all-push i cursors _ heap

-- The constructor's loop builds it.
pub push_all-heads : (i : ℕ) (cursors : List Entries) → push_all i cursors [] ≡ heads i cursors
unfolding push_all heads
push_all-heads i [] = refl
push_all-heads i (cursor ∷ cursors) =
    push_all-push_valid (suc i) i cursors cursor []
    ∙ ap (λ h. push_valid i cursor h) (push_all-heads (suc i) cursors)

unfoldable pub first_of : Option LsmValue → Option LsmValue → Option LsmValue
first_of none other = other
first_of (some v) other = some v

-- What the first cursor that holds the key says of it.
unfoldable pub resolve : ℤ → List Entries → Option LsmValue
resolve k [] = none
resolve k (cursor ∷ cursors) = first_of (lookup k cursor) (resolve k cursors)

abbrev pub AllAscending : List Entries → Type 0
AllAscending [] = Unit
AllAscending (cursor ∷ cursors) = Ascending cursor × AllAscending cursors

-- What a step past the top of the heap finds and leaves.
pub record Popped (i : ℕ) (cursors : List Entries) (item : HeapItem) (rest : List HeapItem)
    : Type 0 where
  pub place : ℕ
  pub priority_place : item.priority ≡ i + place
  pub found : LsmValue
  pub value : value_at (cursor_at cursors place) ≡ some found
  pub heap :
      push_valid item.priority (cursor_at (next_at cursors place) place) rest
      ≡ heads i (next_at cursors place)
  pub least : (j : ℤ) → ltb_ℤ j item.key ≡ true → resolve j cursors ≡ none
  pub first : resolve item.key cursors ≡ some found
  pub others :
      (j : ℤ) → eqb_ℤ item.key j ≡ false → resolve j (next_at cursors place) ≡ resolve j cursors
  pub ascending : AllAscending (next_at cursors place)
  pub left : suc (entries_left (next_at cursors place)) ≡ entries_left cursors

none-first_of : (o other : Option LsmValue) → o ≡ none → first_of o other ≡ other
unfolding first_of
none-first_of none other e = refl
none-first_of (some v) other e = cc

-- The head of the heap belongs to a later cursor.
Popped-later :
    (i : ℕ) (cursor : Entries) (cursors : List Entries) (item : HeapItem)
    (rest rest' : List HeapItem)
    → Ascending cursor
    → ((j : ℤ) → ltb_ℤ j item.key ≡ true → lookup j cursor ≡ none)
    → (lookup item.key cursor ≡ none)
    → ((p : ℕ) (late : Entries)
        → push_valid p late rest' ≡ push_valid i cursor (push_valid p late rest))
    → Popped (suc i) cursors item rest
    → Popped i (cursor ∷ cursors) item rest'
unfolding heads resolve next_at cursor_at entries_left
Popped-later i cursor cursors item rest rest' s below absent later p = record {
  place = suc p.place;
  priority_place = omega (arith, p.priority_place);
  found = p.found;
  value = p.value;
  heap = later item.priority _ ∙ ap (λ h. push_valid i cursor h) p.heap;
  least = λ j h. none-first_of (lookup j cursor) _ (below j h) ∙ p.least j h;
  first = none-first_of (lookup item.key cursor) _ absent ∙ p.first;
  others = λ j h. ap (λ o. first_of (lookup j cursor) o) (p.others j h);
  ascending = (s, p.ascending);
  left = omega (arith, p.left);
}

-- The head of the heap belongs to the first cursor.
Popped-here :
    (i : ℕ) (key : ℤ) (v : LsmValue) (cursor : Entries) (cursors : List Entries)
    → AllAscending (((key, v) ∷ cursor) ∷ cursors)
    → ((j : ℤ) → ltb_ℤ j key ≡ true → resolve j cursors ≡ none)
    → Popped i
        (((key, v) ∷ cursor) ∷ cursors)
        (record { key = key; priority = i })
        (heads (suc i) cursors)
unfolding heads resolve next_at next cursor_at entries_left value_at first_of
Popped-here i key v cursor cursors s least = record {
  place = 0;
  priority_place = omega arith;
  found = v;
  value = refl;
  heap = refl;
  least = λ j h. none-first_of (lookup j ((key, v) ∷ cursor)) _ (below j h) ∙ least j h;
  first =
      ap (λ b. first_of (if b then some v else lookup key cursor) (resolve key cursors))
        ((eqb_ℤ_iff key key).1 refl);
  others =
      λ j h. ap (λ b. first_of (if b then some v else lookup j cursor) (resolve j cursors)) (sym h);
  ascending = (s.0.1, s.1);
  left = omega arith;
}
  where
    below : (j : ℤ) → ltb_ℤ j key ≡ true → lookup j ((key, v) ∷ cursor) ≡ none
    below j h =
        lookup_of_Above j ((key, v) ∷ cursor)
          (ground arith, Above-trans j key cursor (ground arith) s.0.0)

push_ne_nil : (item : HeapItem) (heap : List HeapItem) → push item heap ≢ []
unfolding push
push_ne_nil item [] e = cc
push_ne_nil item (top ∷ heap) e = elim (Bool-cases (precedes item top)) [
  | inl h ↦ let all : item ∷ top ∷ heap ≡ [] = rw h at e in cc
  | inr h ↦ let all : top ∷ push item heap ≡ [] = rw h at e in cc
]

pub resolve_of_nil :
    (i : ℕ) (cursors : List Entries) (j : ℤ) → heads i cursors ≡ [] → resolve j cursors ≡ none
unfolding heads resolve push_valid
resolve_of_nil i [] j e = refl
resolve_of_nil i ([] ∷ cursors) j e = none-first_of none _ refl ∙ resolve_of_nil (suc i) cursors j e
resolve_of_nil i (((k, v) ∷ cursor) ∷ cursors) j e =
    absurd (push_ne_nil (record { key = k; priority = i }) (heads (suc i) cursors) e)

Popped-of_eq :
    (i : ℕ) (cursors : List Entries) (a item : HeapItem) (l rest : List HeapItem)
    → a ∷ l ≡ item ∷ rest
    → Popped i cursors a l
    → Popped i cursors item rest
Popped-of_eq i cursors a item l rest e p =
    let same : a ≡ item = cc in
    let tails : l ≡ rest = cc in
    subst (λ x. Popped i cursors x rest) same (subst (λ r. Popped i cursors a r) tails p)

-- The top of the heap of the heads, whose first cursor is not at its end.
Popped-push :
    (i : ℕ) (key : ℤ) (v : LsmValue) (cursor : Entries) (cursors : List Entries) (item : HeapItem)
    (rest heap : List HeapItem)
    → AllAscending (((key, v) ∷ cursor) ∷ cursors)
    → heads (suc i) cursors ≡ heap
    → push (record { key = key; priority = i }) heap ≡ item ∷ rest
    → ((top : HeapItem) (behind : List HeapItem)
        → heads (suc i) cursors ≡ top ∷ behind
        → Popped (suc i) cursors top behind)
    → Popped i (((key, v) ∷ cursor) ∷ cursors) item rest
unfolding push push_valid precedes
Popped-push i key v cursor cursors item rest [] s h e ih =
    Popped-of_eq i _ _ item _ rest (ap (λ l. record { key = key; priority = i } ∷ l) h ∙ e)
      (Popped-here i key v cursor cursors s (λ j lt. resolve_of_nil (suc i) cursors j h))
Popped-push i key v cursor cursors item rest (top ∷ heap) s h e ih =
    let head : HeapItem = record { key = key; priority = i } in
    let p = ih top heap h in
    elim (Bool-cases (precedes head top)) [
      | inl before ↦
          let all : head ∷ top ∷ heap ≡ item ∷ rest = rw before at e in
          Popped-of_eq i _ head item _ rest (ap (λ l. head ∷ l) h ∙ all)
            (Popped-here i key v cursor cursors s (λ j lt. p.least j (ground arith)))
      | inr after ↦
          let all : top ∷ push head heap ≡ item ∷ rest = rw after at e in
          let above : top.key <ℤ key = ground (arith, p.priority_place) in
          let all_above : Above top.key ((key, v) ∷ cursor) =
            (above, Above-trans top.key key cursor above s.0.0) in
          Popped-of_eq i _ top item _ rest all (
            Popped-later i ((key, v) ∷ cursor) cursors top heap (push head heap) s.0
              (λ j lt.
                lookup_of_Above j ((key, v) ∷ cursor)
                  (ground arith, Above-trans j key cursor (ground arith) s.0.0))
              (lookup_of_Above top.key ((key, v) ∷ cursor) all_above)
              (λ q late. push_valid-push q late head heap) p)
    ]

-- The top of the heap of the heads.
pub popped :
    (i : ℕ) (cursors : List Entries) (item : HeapItem) (rest : List HeapItem)
    → AllAscending cursors
    → heads i cursors ≡ item ∷ rest
    → Popped i cursors item rest
unfolding heads push_valid
popped i [] item rest s e = cc
popped i ([] ∷ cursors) item rest s e =
    Popped-later i [] cursors item rest rest s.0 (λ j h. refl) refl (λ p late. refl)
      (popped (suc i) cursors item rest s.1 e)
popped i (((key, v) ∷ cursor) ∷ cursors) item rest s e =
    Popped-push i key v cursor cursors item rest (heads (suc i) cursors) s refl e
      (λ top behind h. popped (suc i) cursors top behind s.1 h)
