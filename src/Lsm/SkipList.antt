-- ===== src/Lsm/SkipList.antt =====
-- class `SkipList` of lsm/skip_list.h, at the types of the memtable: nodes at addresses, `head_` at the
-- address 0, and the pointers between them. The vectors `forward` and `update` are functions of the
-- level. The height that `RandomLevel` draws for a new node is an argument.
pub mod Chains
pub mod Splice
pub mod Spliced
pub mod Valid
pub mod Search
pub mod Added
pub mod Link
pub mod Overwrite
pub mod Sorted
use cpp_database_engine.Common.{
  ℕ, zero, suc, ◌+◌, ◌-◌, false, Option, none, some, List, [], ◌∷◌, ◌==◌, ltb, if◌then◌else◌,
}
use cpp_database_engine.Common.Int.{ℤ, pos, ltb_ℤ, eqb_ℤ}
use cpp_database_engine.Lsm.Value.{LsmValue, Entries}

-- A null pointer is `none`.
pub record Node : Type 0 where
  pub key : ℤ
  pub value : LsmValue
  pub forward : ℕ → Option ℕ

-- `allocated` is the address that the next node gets.
pub record SkipList : Type 0 where
  pub memory : ℕ → Node
  pub allocated : ℕ
  pub current_height : ℕ
  pub size : ℕ

abbrev pub head : ℕ
head = 0

-- The constructor; the height of `head_` and of `update` bounds what `RandomLevel` gives.
abbrev pub empty_list : SkipList
empty_list = record {
  memory = λ node. record {
    key = pos 0;
    value = record { value = []; deleted = false };
    forward = λ i. none;
  };
  allocated = 1;
  current_height = 1;
  size = 0;
}

-- `f[i] = a`
unfoldable pub put_at {ℓ} : {A : Type ℓ} → (ℕ → A) → ℕ → A → ℕ → A
put_at f i a j = if j == i then a else f j

-- The inner loop of a search at a level, with one unit of fuel for each pointer that it follows.
unfoldable pub walk_level : (ℕ → Node) → ℤ → ℕ → ℕ → ℕ → ℕ
walk_level memory key level zero cur = cur
walk_level memory key level (suc fuel) cur = elim ((memory cur).forward level) [
  | none ↦ cur
  | some next ↦
      let past = walk_level memory key level fuel next in
      if ltb_ℤ (memory next).key key then past else cur
]

-- The outer loop of `Insert`, over the levels below `levels`, the highest first: `cur` and `update`.
unfoldable pub descend : SkipList → ℤ → ℕ → ℕ → (ℕ → ℕ) → ℕ × (ℕ → ℕ)
descend s key zero cur update = (cur, update)
descend s key (suc level) cur update =
    let cur' = walk_level s.memory key level s.allocated cur in
    descend s key level cur' (put_at update level cur')

-- The outer loop of `Find` and of `LowerBound`.
unfoldable pub seek : SkipList → ℤ → ℕ → ℕ → ℕ
seek s key zero cur = cur
seek s key (suc level) cur = seek s key level (walk_level s.memory key level s.allocated cur)

-- `SkipList::LowerBound`
unfoldable pub lower_bound : SkipList → ℤ → Option ℕ
lower_bound s key = (s.memory (seek s key s.current_height head)).forward 0

-- `SkipList::Find`
unfoldable pub find : SkipList → ℤ → Option LsmValue
find s key = elim ((s.memory (seek s key s.current_height head)).forward 0) [
  | none ↦ none
  | some candidate ↦
      if eqb_ℤ (s.memory candidate).key key then some (s.memory candidate).value else none
]

-- `update[i] = head_`, for `count` levels from `i` on.
unfoldable pub fill_head : ℕ → ℕ → (ℕ → ℕ) → ℕ → ℕ
fill_head zero i update = update
fill_head (suc count) i update = fill_head count (suc i) (put_at update i head)

unfoldable pub set_forward : (ℕ → Node) → ℕ → ℕ → Option ℕ → ℕ → Node
set_forward memory node level p =
    put_at memory node (record (memory node) { forward = put_at (memory node).forward level p })

-- One round of the loop that links the new node, and `count` rounds from the level `i` on.
unfoldable pub splice_level : ℕ → (ℕ → ℕ) → ℕ → (ℕ → Node) → ℕ → Node
splice_level i update node memory =
    let linked = set_forward memory node i ((memory (update i)).forward i) in
    set_forward linked (update i) i (some node)

unfoldable pub splice : ℕ → ℕ → (ℕ → ℕ) → ℕ → (ℕ → Node) → ℕ → Node
splice zero i update node memory = memory
splice (suc count) i update node memory =
    splice count (suc i) update node (splice_level i update node memory)

-- `Insert` where the key is new, with the height that `RandomLevel` gives.
unfoldable pub link : SkipList → (ℕ → ℕ) → ℤ → LsmValue → ℕ → SkipList
link s update key value level =
    let higher = ltb s.current_height level in
    let filled =
      if higher then fill_head (level - s.current_height) s.current_height update else update in
    let node : Node = record { key = key; value = value; forward = λ i. none } in
    record {
      memory = splice level 0 filled s.allocated (put_at s.memory s.allocated node);
      allocated = s.allocated + 1;
      current_height = if higher then level else s.current_height;
      size = s.size + 1;
    }

-- `candidate->value = value`
unfoldable pub overwrite : SkipList → ℕ → LsmValue → SkipList
overwrite s candidate value = record s {
  memory = put_at s.memory candidate (record (s.memory candidate) { value = value });
}

unfoldable pub insert_at : SkipList → ℕ × (ℕ → ℕ) → ℤ → LsmValue → ℕ → SkipList
insert_at s (cur, update) key value level = elim ((s.memory cur).forward 0) [
  | none ↦ link s update key value level
  | some candidate ↦
      if eqb_ℤ (s.memory candidate).key key
      then overwrite s candidate value
      else link s update key value level
]

-- `SkipList::Insert`
unfoldable pub insert_node : SkipList → ℤ → LsmValue → ℕ → SkipList
insert_node s key value level =
    insert_at s (descend s key s.current_height head (λ i. head)) key value level

-- What an iterator yields from a pointer on.
unfoldable pub entries_from : (ℕ → Node) → ℕ → Option ℕ → Entries
entries_from memory zero p = []
entries_from memory (suc fuel) none = []
entries_from memory (suc fuel) (some node) =
    ((memory node).key, (memory node).value) ∷ entries_from memory fuel ((memory node).forward 0)

-- What the iterator of `Begin` yields.
unfoldable pub entries_of : SkipList → Entries
entries_of s = entries_from s.memory s.allocated ((s.memory head).forward 0)
