-- ===== src/Lsm/Merge.antt =====
-- class `LSMMergeIterator` of lsm/merge_iterator.h and lsm/merge_iterator.cpp. A cursor is the list
-- of the entries that are left to it; the `std::priority_queue` is the list of its items, `top`
-- first, in the order of `Compare`.
pub mod Heap
pub mod Resolve
use cpp_database_engine.Common.{
  ℕ, zero, suc, ◌+◌, Bool, true, false, Option, none, some, List, [], ◌∷◌, length, leb,
  if◌then◌else◌,
}
use cpp_database_engine.Common.Int.{ℤ, ltb_ℤ, eqb_ℤ}
use cpp_database_engine.Lsm.Value.{LsmValue, Entries}

pub record HeapItem : Type 0 where
  pub key : ℤ
  pub priority : ℕ

-- `!Compare()(a, b)`: `a` may stand before `b`.
unfoldable pub precedes : HeapItem → HeapItem → Bool
precedes a b = if eqb_ℤ a.key b.key then leb a.priority b.priority else ltb_ℤ a.key b.key

unfoldable pub push : HeapItem → List HeapItem → List HeapItem
push item [] = item ∷ []
push item (top ∷ heap) =
    let later = push item heap in if precedes item top then item ∷ top ∷ heap else top ∷ later

-- `cursors_[i]`, and `cursors_[i]->Next()`.
unfoldable pub cursor_at : List Entries → ℕ → Entries
cursor_at [] i = []
cursor_at (cursor ∷ cursors) zero = cursor
cursor_at (cursor ∷ cursors) (suc i) = cursor_at cursors i

unfoldable pub next : Entries → Entries
next [] = []
next (entry ∷ entries) = entries

unfoldable pub next_at : List Entries → ℕ → List Entries
next_at [] i = []
next_at (cursor ∷ cursors) zero = next cursor ∷ cursors
next_at (cursor ∷ cursors) (suc i) = cursor ∷ next_at cursors i

-- `if (cursors_[i]->Valid()) heap_.push({cursors_[i]->Key(), i});`
unfoldable pub push_valid : ℕ → Entries → List HeapItem → List HeapItem
push_valid i [] heap = heap
push_valid i ((key, v) ∷ entries) heap = push (record { key = key; priority = i }) heap

pub record MergeIterator : Type 0 where
  pub cursors : List Entries
  pub heap : List HeapItem

-- The loop of the constructor, from cursor `i` on.
unfoldable pub push_all : ℕ → List Entries → List HeapItem → List HeapItem
push_all i [] heap = heap
push_all i (cursor ∷ cursors) heap = push_all (suc i) cursors (push_valid i cursor heap)

unfoldable pub start : List Entries → MergeIterator
start cursors = record { cursors = cursors; heap = push_all 0 cursors [] }

-- The step past the top, with `rest` of the heap behind it.
unfoldable pub pull : List Entries → ℕ → List HeapItem → MergeIterator
pull cursors i rest = record {
  cursors = next_at cursors i;
  heap = push_valid i (cursor_at (next_at cursors i) i) rest;
}

-- The number of entries that are left, each of which takes one round at most.
unfoldable pub entries_left : List Entries → ℕ
entries_left [] = 0
entries_left (cursor ∷ cursors) = length cursor + entries_left cursors

-- The loop that discards the shadowed entries of `key`.
unfoldable pub discard : ℕ → ℤ → MergeIterator → MergeIterator
discard zero key m = m
discard (suc fuel) key m = elim m.heap [
  | [] ↦ m
  | item ∷ rest ↦ elim (eqb_ℤ item.key key) [
    | true ↦ discard fuel key (pull m.cursors item.priority rest)
    | false ↦ m
  ]
]

-- `cursors_[i]->Value()`; the cursor of an item of the heap is valid.
unfoldable pub value_at : Entries → Option LsmValue
value_at [] = none
value_at ((key, v) ∷ entries) = some v

-- `Advance`: the current entry and the iterator behind it, or `none` where it becomes invalid.
unfoldable pub advance : MergeIterator → Option ((ℤ × LsmValue) × MergeIterator)
advance m = elim m.heap [
  | [] ↦ none
  | winner ∷ rest ↦ elim (value_at (cursor_at m.cursors winner.priority)) [
    | none ↦ none
    | some v ↦
        let m' = pull m.cursors winner.priority rest in
        some ((winner.key, v), discard (entries_left m'.cursors) winner.key m')
  ]
]

-- The entries that the iterator yields until it is invalid.
unfoldable pub collect : ℕ → MergeIterator → Entries
collect zero m = []
collect (suc fuel) m = elim (advance m) [ none ↦ [] | some r ↦ r.0 ∷ collect fuel r.1 ]

unfoldable pub merge : List Entries → Entries
merge cursors = collect (entries_left cursors) (start cursors)
