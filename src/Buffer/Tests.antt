-- ===== src/Buffer/Tests.antt =====
-- Replacers with three frames, of which two are evictable.
use cpp_database_engine.Common.{◌≡◌, refl, true, false, [], ◌∷◌, arith}
use cpp_database_engine.Common.Int.{ℤ, pos}
use cpp_database_engine.Common.SortedMap.{erase}
use cpp_database_engine.Buffer.Frames.{increment, decrement, adjust, victim, undefined}
use cpp_database_engine.Buffer.LruK.{
  FrameState, LruK, state_of, push_access, record_access, set_evictable, adopts, candidate, round,
  choose, evict,
}
use cpp_database_engine.Buffer.LruK.Optimal.{IsFrame}
use cpp_database_engine.Buffer.LruK.Victim.{Outranks, evict-Outranks}
use cpp_database_engine.Buffer.LruK.Valid.{IsValid, evicted, Call-IsValid}
use cpp_database_engine.Buffer.LruK.Untracked.{evict-untracked}
use cpp_database_engine.Buffer.Lru
use cpp_database_engine.Buffer.Lru.{Lru}
use cpp_database_engine.Buffer.Lru.Order.{Evicts, evict-Evicts}

program : Unit {0}
unfolding increment decrement adjust state_of push_access record_access set_evictable adopts
    candidate round choose evict
program = tt

abbrev frame_zero : FrameState
frame_zero = record { history = 0 ∷ 3 ∷ []; evictable = true }

abbrev frame_one : FrameState
frame_one = record { history = 1 ∷ []; evictable = false }

abbrev frame_two : FrameState
frame_two = record { history = 2 ∷ []; evictable = true }

-- frame 0 has two accesses, frame 1 is pinned, frame 2 has one access
abbrev three_frames : LruK
three_frames = record {
  num_frames = 3;
  k = 2;
  current_timestamp = 4;
  evictable_count = 2;
  frames = (pos 0, frame_zero) ∷ (pos 1, frame_one) ∷ (pos 2, frame_two) ∷ [];
}

abbrev two_frames : LruK
two_frames = record {
  num_frames = 3;
  k = 2;
  current_timestamp = 4;
  evictable_count = 1;
  frames = (pos 0, frame_zero) ∷ (pos 1, frame_one) ∷ [];
}

two_goes : evict three_frames ≡ victim (pos 2) two_frames
unfolding program
two_goes = refl

evict-Outranks_example :
    (st : FrameState) × IsFrame (pos 2) st three_frames.frames
    × (st.evictable ≡ true)
    × ((g : ℤ) (st' : FrameState)
        → IsFrame g st' three_frames.frames
        → st'.evictable ≡ true
        → Outranks 2 st.history st'.history)
    × (two_frames.frames ≡ erase (pos 2) three_frames.frames)
evict-Outranks_example =
    evict-Outranks three_frames two_frames (pos 2) (omega arith)
      (omega arith, (omega arith, (omega arith, tt))) two_goes

three_frames-IsValid : IsValid three_frames
three_frames-IsValid = record {
  ascending = ((omega arith, (omega arith, tt)), ((omega arith, tt), (tt, tt)));
  counted = refl;
}

Call-IsValid_example : IsValid two_frames
Call-IsValid_example =
    Call-IsValid three_frames two_frames (evicted three_frames two_frames (pos 2) two_goes)
      three_frames-IsValid

evict-untracked_example : evict (set_evictable two_frames (pos 2) true) ≡ undefined
evict-untracked_example = evict-untracked two_frames (pos 2) refl

abbrev lru_frames : Lru
lru_frames = record {
  num_frames = 3;
  evictable_count = 2;
  lru_list = pos 1 ∷ pos 0 ∷ pos 2 ∷ [];
  frames = (pos 0, true) ∷ (pos 1, false) ∷ (pos 2, true) ∷ [];
}

evict-Evicts_example : Evicts lru_frames (Lru.evict lru_frames)
evict-Evicts_example = evict-Evicts lru_frames
