-- ===== src/Buffer/LruK.antt =====
-- class `LRUKReplacer` of buffer/lru_k_replacer.h and buffer/lru_k_replacer.cpp. The
-- `unordered_map` of frames is an association list.
pub mod Optimal
pub mod Victim
pub mod Valid
pub mod Untracked
use cpp_database_engine.Common.{
  ℕ, ◌+◌, ◌-◌, ◌%◌, ◌^◌, Bool, true, false, not, Option, none, some, List, [], ◌∷◌, ◌++◌, length,
  drop, ltb, leb, ◌==◌, ◌||◌, if◌then◌else◌,
}
use cpp_database_engine.Common.Int.{ℤ, pos, ltb_ℤ, pos_part}
use cpp_database_engine.Common.SortedMap.{lookup, insert, erase}
use cpp_database_engine.Buffer.Frames.{
  increment, decrement, adjust, Eviction, undefined, no_victim, victim,
}

pub record FrameState : Type 0 where
  pub history : List ℕ
  pub evictable : Bool

pub record LruK : Type 0 where
  pub num_frames : ℕ
  pub k : ℕ
  pub current_timestamp : ℕ
  pub evictable_count : ℕ
  pub frames : List (ℤ × FrameState)

-- The constructor; `none` where it throws.
unfoldable pub new : ℕ → ℕ → Option LruK
new num_frames k =
    if k == 0
    then none
    else some (record {
      num_frames = num_frames;
      k = k;
      current_timestamp = 0;
      evictable_count = 0;
      frames = [];
    })

-- `frames_[frame_id]`, which adds the default state for a new frame.
unfoldable pub state_of : Option FrameState → FrameState
state_of none = record { history = []; evictable = false }
state_of (some state) = state

unfoldable pub push_access : ℕ → ℕ → List ℕ → List ℕ
push_access k now history =
    let longer = history ++ now ∷ [] in if ltb k (length longer) then drop 1 longer else longer

unfoldable pub record_access : LruK → ℤ → Option LruK
record_access s frame_id =
    if ltb_ℤ frame_id (pos 0) || leb s.num_frames (pos_part frame_id)
    then none
    else (let state = state_of (lookup frame_id s.frames) in
        some (record s {
          frames =
              insert frame_id
                (record state { history = push_access s.k s.current_timestamp state.history })
                s.frames;
          current_timestamp = increment s.current_timestamp;
        }))

unfoldable pub set_evictable : LruK → ℤ → Bool → LruK
set_evictable s frame_id evictable =
    let state = state_of (lookup frame_id s.frames) in
    record s {
      frames = insert frame_id (record state { evictable = evictable }) s.frames;
      evictable_count = adjust state.evictable evictable s.evictable_count;
    }

-- `best_frame`, `best_is_inf` and `best_metric`, once `found`.
pub record Candidate : Type 0 where
  pub frame : ℤ
  pub is_inf : Bool
  pub metric : ℕ

unfoldable pub adopts : Option Candidate → Candidate → Bool
adopts none c = true
adopts (some best) c =
    if c.is_inf
    then (if best.is_inf then ltb c.metric best.metric else true)
    else (if best.is_inf then false else ltb best.metric c.metric)

-- The candidate that an evictable frame makes; `first` is `history.front()`. The difference of
-- two `size_t` wraps.
unfoldable pub candidate : ℕ → ℕ → ℤ → ℕ → List ℕ → Candidate
candidate k now frame first later =
    let is_inf = ltb (length (first ∷ later)) k in
    record {
      frame = frame;
      is_inf = is_inf;
      metric = if is_inf then first else (now + 2 ^ 64 - first) % 2 ^ 64;
    }

-- One round of the loop of `Evict`; `none` where it reads the front of an empty history, which is
-- undefined.
unfoldable pub round : ℕ → ℕ → Option Candidate → ℤ → FrameState → Option (Option Candidate)
round k now best frame state =
    if state.evictable
    then elim state.history [
      | [] ↦ none
      | first ∷ later ↦
          let c = candidate k now frame first later in some (if adopts best c then some c else best)
    ]
    else some best

unfoldable pub choose : ℕ → ℕ → Option Candidate → List (ℤ × FrameState) → Option (Option Candidate)
choose k now best [] = some best
choose k now best ((frame, state) ∷ frames) = elim (round k now best frame state) [
  | none ↦ none
  | some best' ↦ choose k now best' frames
]

unfoldable pub evict : LruK → Eviction LruK
evict s = elim (choose s.k s.current_timestamp none s.frames) [
  | none ↦ undefined
  | some none ↦ no_victim
  | some (some best) ↦ victim best.frame (record s {
    frames = erase best.frame s.frames;
    evictable_count = decrement s.evictable_count;
  })
]

-- `none` where it throws.
unfoldable pub remove : LruK → ℤ → Option LruK
remove s frame_id = elim (lookup frame_id s.frames) [
  | none ↦ some s
  | some state ↦
      if state.evictable
      then some (record s {
        frames = erase frame_id s.frames;
        evictable_count = decrement s.evictable_count;
      })
      else none
]

unfoldable pub size : LruK → ℕ
size s = s.evictable_count
