-- ===== src/Buffer/LruK/Valid.antt =====
-- `Size` of `LRUKReplacer` (buffer/lru_k_replacer.cpp) is the number of evictable frames.
use cpp_database_engine.Common.{
  ℕ, ◌+◌, ◌%◌, ◌^◌, ◌≡◌, refl, sym, ap, subst, ◌∙◌, inl, inr, Bool, true, false, Option, none, some,
  List, [], ◌∷◌, arith, leb, ◌||◌, if◌then◌else◌,
}
use cpp_database_engine.Common.Int.{ℤ, pos, ltb_ℤ, eqb_ℤ, eqb_ℤ_iff, pos_part, ◌<ℤ◌}
use cpp_database_engine.Common.SortedMap.{
  lookup, insert, erase, Ascending, Above, insert-Ascending, erase-Ascending,
}
use cpp_database_engine.Buffer.Frames.{
  adjust, increment, decrement, count, units, units_of, count-insert, count-erase, Eviction, victim,
  no_victim, undefined,
}
use cpp_database_engine.Buffer.LruK.{
  FrameState, LruK, Candidate, state_of, push_access, record_access, set_evictable, choose, evict,
  remove,
}
use cpp_database_engine.Buffer.LruK.Optimal.{IsFrame, choose-Best}
use cpp_database_engine.Buffer.LruK.Victim.{frame_of_Makes}

abbrev is_evictable : FrameState → Bool
is_evictable st = st.evictable

-- The frames are a map, and `evictable_count_` counts the evictable ones, as a 64-bit number.
pub record IsValid (s : LruK) : Type 0 where
  pub ascending : Ascending s.frames
  pub counted : s.evictable_count ≡ count is_evictable s.frames % 2 ^ 64

adjust-count :
    (b e : Bool) (n c c' : ℕ)
    → n ≡ c % 2 ^ 64
    → c' + units is_evictable b ≡ c + units is_evictable e
    → adjust b e n ≡ c' % 2 ^ 64
unfolding adjust increment decrement
adjust-count true true n c c' h k = omega arith
adjust-count true false n c c' h k = omega arith
adjust-count false true n c c' h k = omega arith
adjust-count false false n c c' h k = omega arith

units-state_of :
    (o : Option FrameState) → units_of is_evictable o ≡ units is_evictable (state_of o).evictable
unfolding state_of
units-state_of none = refl
units-state_of (some st) = refl

set_evictable-IsValid : (s : LruK) (f : ℤ) (e : Bool) → IsValid s → IsValid (set_evictable s f e)
unfolding set_evictable
set_evictable-IsValid s f e valid =
    let state = state_of (lookup f s.frames) in
    let now = record state { evictable = e } in
    let counts = count-insert is_evictable f now s.frames valid.ascending in
    let old = units-state_of (lookup f s.frames) in
    record {
      ascending = insert-Ascending f now s.frames valid.ascending;
      counted =
          adjust-count state.evictable e s.evictable_count (count is_evictable s.frames) _
            valid.counted (omega arith);
    }

of_some : {S : Type 0} (a b : S) → some a ≡ some b → a ≡ b
of_some a b e = cc

-- What a test lets through.
through :
    {S : Type 0} (refuses : Bool) (a b : S) → (if refuses then none else some a) ≡ some b → a ≡ b
through true a b h = absurd (cc)
through false a b h = cc

record_access-IsValid : (s s' : LruK) (f : ℤ) → IsValid s → record_access s f ≡ some s' → IsValid s'
unfolding record_access
record_access-IsValid s s' f valid h =
    let state = state_of (lookup f s.frames) in
    let now = record state { history = push_access s.k s.current_timestamp state.history } in
    let counts = count-insert is_evictable f now s.frames valid.ascending in
    let old = units-state_of (lookup f s.frames) in
    let same : count is_evictable (insert f now s.frames) ≡ count is_evictable s.frames =
      omega arith in
    subst IsValid (through (ltb_ℤ f (pos 0) || leb s.num_frames (pos_part f)) _ s' h) (record {
      ascending = insert-Ascending f now s.frames valid.ascending;
      counted = valid.counted ∙ ap (λ n. n % 2 ^ 64) (sym same);
    })

IsFrame-Above :
    (j g : ℤ) (st : FrameState) (m : List (ℤ × FrameState)) → Above j m → IsFrame g st m → j <ℤ g
IsFrame-Above j g st [] a h = absurd h
IsFrame-Above j g st ((i, w) ∷ m) (lt, a) (inl (e, e')) = subst (λ x. j <ℤ x) e lt
IsFrame-Above j g st ((i, w) ∷ m) (lt, a) (inr h) = IsFrame-Above j g st m a h

lookup_of_IsFrame :
    (g : ℤ) (st : FrameState) (m : List (ℤ × FrameState))
    → Ascending m
    → IsFrame g st m
    → lookup g m ≡ some st
lookup_of_IsFrame g st [] s h = absurd h
lookup_of_IsFrame g st ((i, w) ∷ m) (a, s) (inl (e, e')) =
    ap (λ b. if b then some w else lookup g m) ((eqb_ℤ_iff i g).1 e) ∙ ap some e'
lookup_of_IsFrame g st ((i, w) ∷ m) (a, s) (inr h) =
    let lt = IsFrame-Above i g st m a h in
    let ne : eqb_ℤ i g ≡ false = ground arith in
    ap (λ b. if b then some w else lookup g m) ne ∙ lookup_of_IsFrame g st m s h

-- An evictable frame is taken out.
IsValid-taken :
    (s : LruK) (f : ℤ) (st : FrameState)
    → IsValid s
    → lookup f s.frames ≡ some st
    → st.evictable ≡ true
    → IsValid
        (record s { frames = erase f s.frames; evictable_count = decrement s.evictable_count })
unfolding adjust
IsValid-taken s f st valid found on =
    let counts = count-erase is_evictable f s.frames in
    let unit : units_of is_evictable (lookup f s.frames) ≡ 1 =
      ap (units_of is_evictable) found ∙ ap (units is_evictable) on in
    record {
      ascending = erase-Ascending f s.frames valid.ascending;
      counted =
          adjust-count true false s.evictable_count (count is_evictable s.frames) _ valid.counted
            (omega arith);
    }

remove-IsValid : (s s' : LruK) (f : ℤ) → IsValid s → remove s f ≡ some s' → IsValid s'
unfolding remove
remove-IsValid s s' f valid h = looked_up (lookup f s.frames) refl h
  where
    flagged :
        (st : FrameState) (b : Bool)
        → lookup f s.frames ≡ some st
        → st.evictable ≡ b
        → (if b
            then some (record s {
              frames = erase f s.frames;
              evictable_count = decrement s.evictable_count;
            })
            else none)
          ≡ some s'
        → IsValid s'
    flagged st true found on e =
        subst IsValid (of_some _ s' e) (IsValid-taken s f st valid found on)
    flagged st false found on e = absurd (cc)

    looked_up :
        (o : Option FrameState)
        → lookup f s.frames ≡ o
        → elim o as (λ x. Option LruK) [
          | none ↦ some s
          | some st ↦
              if st.evictable
              then some (record s {
                frames = erase f s.frames;
                evictable_count = decrement s.evictable_count;
              })
              else none
        ]
          ≡ some s'
        → IsValid s'
    looked_up none found e = subst IsValid (of_some s s' e) valid
    looked_up (some st) found e = flagged st st.evictable found refl e

choose-IsFrame :
    (k now : ℕ) (frames : List (ℤ × FrameState)) (best : Candidate)
    → choose k now none frames ≡ some (some best)
    → (st : FrameState) × IsFrame best.frame st frames × (st.evictable ≡ true)
choose-IsFrame k now frames best e = elim (choose-Best k now none frames (some best) e).origin [
  | inl nothing ↦ absurd (cc)
  | inr (c, g, st, is, at_frame, makes) ↦
      let same : best ≡ c = of_some best c is in
      let framed : g ≡ best.frame =
        sym (ap (λ (x : Candidate). x.frame) same ∙ frame_of_Makes k now g st c makes) in
      (st, subst (λ x. IsFrame x st frames) framed at_frame, makes.0)
]

evict-IsValid : (s s' : LruK) (f : ℤ) → IsValid s → evict s ≡ victim f s' → IsValid s'
unfolding evict
evict-IsValid s s' f valid h = chosen (choose s.k s.current_timestamp none s.frames) refl h
  where
    chosen :
        (r : Option (Option Candidate))
        → choose s.k s.current_timestamp none s.frames ≡ r
        → elim r as (λ x. Eviction LruK) [
          | none ↦ undefined
          | some none ↦ no_victim
          | some (some best) ↦ victim best.frame (record s {
            frames = erase best.frame s.frames;
            evictable_count = decrement s.evictable_count;
          })
        ]
          ≡ victim f s'
        → IsValid s'
    chosen none e v = absurd (cc)
    chosen (some none) e v = absurd (cc)
    chosen (some (some best)) e v =
        let left : (record s {
          frames = erase best.frame s.frames;
          evictable_count = decrement s.evictable_count;
        })
            ≡ s' =
          cc in
        let (st, at_frame, on) = choose-IsFrame s.k s.current_timestamp s.frames best e in
        subst IsValid left (
          IsValid-taken s best.frame st valid
            (lookup_of_IsFrame best.frame st s.frames valid.ascending at_frame) on)

-- The calls of a replacer that return.
pub data Call : LruK → LruK → Type 0 where
  accessed : (s s' : LruK) (f : ℤ) → record_access s f ≡ some s' → Call s s'
  flagged : (s : LruK) (f : ℤ) (e : Bool) → Call s (set_evictable s f e)
  evicted : (s s' : LruK) (f : ℤ) → evict s ≡ victim f s' → Call s s'
  removed : (s s' : LruK) (f : ℤ) → remove s f ≡ some s' → Call s s'

-- Every call keeps the state valid: frames are a map, and what `Size` returns is the number of the
-- frames that are marked evictable, as a 64-bit number.
pub Call-IsValid : (s s' : LruK) → Call s s' → IsValid s → IsValid s'
Call-IsValid _ _ (accessed s s' f h) valid = record_access-IsValid s s' f valid h
Call-IsValid _ _ (flagged s f e) valid = set_evictable-IsValid s f e valid
Call-IsValid _ _ (evicted s s' f h) valid = evict-IsValid s s' f valid h
Call-IsValid _ _ (removed s s' f h) valid = remove-IsValid s s' f valid h
