-- ===== src/Buffer/Lru.antt =====
-- class `LRUReplacer` of buffer/lru_replacer.h and buffer/lru_replacer.cpp. The iterator that a
-- frame keeps points at its own place in the list, so erasing at it removes the frame's id.
pub mod Order
use cpp_database_engine.Common.{
  ℕ, Bool, true, false, Option, none, some, List, [], ◌∷◌, ◌++◌, leb, ◌||◌, if◌then◌else◌,
}
use cpp_database_engine.Common.Int.{ℤ, pos, ltb_ℤ, eqb_ℤ, pos_part}
use cpp_database_engine.Common.SortedMap.{lookup, insert, erase}
use cpp_database_engine.Buffer.Frames.{adjust, decrement}

-- `frames` holds the flag `evictable` of each tracked frame; the front of `lru_list` is the least
-- recently used frame.
pub record Lru : Type 0 where
  pub num_frames : ℕ
  pub evictable_count : ℕ
  pub lru_list : List ℤ
  pub frames : List (ℤ × Bool)

unfoldable pub new : ℕ → Lru
new num_frames = record { num_frames = num_frames; evictable_count = 0; lru_list = []; frames = [] }

-- `lru_list_.erase(pos)`
unfoldable pub unlist : ℤ → List ℤ → List ℤ
unlist f [] = []
unlist f (g ∷ l) = if eqb_ℤ g f then l else g ∷ unlist f l

-- `none` where it throws. A new frame is not evictable.
unfoldable pub record_access : Lru → ℤ → Option Lru
record_access s frame_id =
    if ltb_ℤ frame_id (pos 0) || leb s.num_frames (pos_part frame_id)
    then none
    else some (elim (lookup frame_id s.frames) [
      | none ↦ record s {
        lru_list = s.lru_list ++ frame_id ∷ [];
        frames = insert frame_id false s.frames;
      }
      | some evictable ↦ record s { lru_list = unlist frame_id s.lru_list ++ frame_id ∷ [] }
    ])

unfoldable pub set_evictable : Lru → ℤ → Bool → Lru
set_evictable s frame_id evictable = elim (lookup frame_id s.frames) [
  | none ↦ record s {
    lru_list = s.lru_list ++ frame_id ∷ [];
    frames = insert frame_id evictable s.frames;
    evictable_count = adjust false evictable s.evictable_count;
  }
  | some old ↦ record s {
    frames = insert frame_id evictable s.frames;
    evictable_count = adjust old evictable s.evictable_count;
  }
]

-- The test of the loop of `Evict`.
unfoldable pub may_go : List (ℤ × Bool) → ℤ → Bool
may_go frames f = elim (lookup f frames) [ none ↦ false | some evictable ↦ evictable ]

-- The loop: the victim, and the list without it.
unfoldable pub pick : List (ℤ × Bool) → List ℤ → Option (ℤ × List ℤ)
pick frames [] = none
pick frames (f ∷ l) =
    let later = pick frames l in
    if may_go frames f
    then some (f, l)
    else elim later [ none ↦ none | some found ↦ some (found.0, f ∷ found.1) ]

unfoldable pub evict : Lru → Option (ℤ × Lru)
evict s = elim (pick s.frames s.lru_list) [
  | none ↦ none
  | some found ↦ some (
    found.0,
    record s {
      lru_list = found.1;
      frames = erase found.0 s.frames;
      evictable_count = decrement s.evictable_count;
    },
  )
]

-- `none` where it throws.
unfoldable pub remove : Lru → ℤ → Option Lru
remove s frame_id = elim (lookup frame_id s.frames) [
  | none ↦ some s
  | some evictable ↦
      if evictable
      then some (record s {
        lru_list = unlist frame_id s.lru_list;
        frames = erase frame_id s.frames;
        evictable_count = decrement s.evictable_count;
      })
      else none
]

unfoldable pub size : Lru → ℕ
size s = s.evictable_count
