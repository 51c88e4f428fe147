-- ===== src/Buffer/LruK/Untracked.antt =====
-- `LRUKReplacer` (buffer/lru_k_replacer.cpp) on a frame that was never accessed.
use cpp_database_engine.Common.{
  ◌≡◌, refl, sym, ap, subst, inl, inr, true, Option, none, some, List, [], ◌∷◌, Bool-cases,
}
use cpp_database_engine.Common.Int.{ℤ, ltb_ℤ, eqb_ℤ}
use cpp_database_engine.Common.SortedMap.{lookup, insert, erase}
use cpp_database_engine.Buffer.Frames.{decrement, Eviction, undefined, no_victim, victim}
use cpp_database_engine.Buffer.LruK.{
  FrameState, LruK, Candidate, state_of, set_evictable, choose, evict,
}
use cpp_database_engine.Buffer.LruK.Optimal.{IsFrame}
use cpp_database_engine.Buffer.LruK.Victim.{choose-Makes}

IsFrame-insert :
    (f : ℤ) (st : FrameState) (m : List (ℤ × FrameState)) → IsFrame f st (insert f st m)
IsFrame-insert f st [] = inl (refl, refl)
IsFrame-insert f st ((j, w) ∷ m) = elim (Bool-cases (ltb_ℤ j f)) [
  | inl before ↦ rw before (inr (IsFrame-insert f st m))
  | inr after ↦ rw after (elim (Bool-cases (eqb_ℤ j f)) [
    | inl same ↦ rw same (inl (refl, refl))
    | inr ne ↦ rw ne (inl (refl, refl))
  ])
]

-- `Evict` on a state that tracks such a frame.
evict-empty :
    (s : LruK) (f : ℤ)
    → IsFrame f (record { history = []; evictable = true }) s.frames
    → evict s ≡ undefined
unfolding evict
evict-empty s f at_frame = chosen (choose s.k s.current_timestamp none s.frames) refl
  where
    chosen :
        (r : Option (Option Candidate))
        → choose s.k s.current_timestamp none s.frames ≡ r
        → elim r as (λ x. Eviction LruK) [
          | none ↦ undefined
          | some none ↦ no_victim
          | some (some best) ↦ victim best.frame (record s {
            frames = erase best.frame s.frames;
            evictable_count = decrement s.evictable_count;
          })
        ]
          ≡ undefined
    chosen none e = refl
    chosen (some result) e =
        let (c, (on, first, later, empty, made)) =
          choose-Makes s.k s.current_timestamp none s.frames result e f
            (record { history = []; evictable = true }) at_frame refl in
        absurd (cc)

-- A frame that is marked evictable before any access is tracked with an empty history, and the next
-- `Evict` reads the front of it, which is undefined.
pub evict-untracked :
    (s : LruK) (f : ℤ) → lookup f s.frames ≡ none → evict (set_evictable s f true) ≡ undefined
unfolding set_evictable state_of
evict-untracked s f absent =
    let fresh : FrameState = record { history = []; evictable = true } in
    let is_fresh : record (state_of (lookup f s.frames)) { evictable = true } ≡ fresh =
      ap (λ (o : Option FrameState). record (state_of o) { evictable = true }) absent in
    evict-empty (set_evictable s f true) f (
      subst (λ st. IsFrame f fresh (insert f st s.frames)) (sym is_fresh)
        (IsFrame-insert f fresh s.frames))
