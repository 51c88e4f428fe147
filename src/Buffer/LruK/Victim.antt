-- ===== src/Buffer/LruK/Victim.antt =====
-- The victim of `LRUKReplacer::Evict` (buffer/lru_k_replacer.cpp) against the policy that
-- buffer/lru_k_replacer.h states.
use cpp_database_engine.Common.{
  ℕ, ◌+◌, ◌-◌, ◌%◌, ◌^◌, ◌<◌, ◌≤◌, ◌≡◌, refl, sym, ap, subst, ◌∙◌, ◌⊎◌, inl, inr, Bool, true, false,
  Option, none, some, List, [], ◌∷◌, length, arith, ltb, if◌then◌else◌,
}
use cpp_database_engine.Common.Int.{ℤ}
use cpp_database_engine.Common.SortedMap.{erase}
use cpp_database_engine.Buffer.Frames.{decrement, Eviction, victim, no_victim, undefined}
use cpp_database_engine.Buffer.LruK.{FrameState, LruK, Candidate, candidate, round, choose, evict}
use cpp_database_engine.Buffer.LruK.Optimal.{
  BeatsBy, Beats, Makes, IsFrame, better, Round, faults, skips, weighs, round-Round, choose-Best,
}

-- The time of the oldest access that is kept: the k-th most recent one, where there are k.
abbrev pub oldest : List ℕ → ℕ
oldest [] = 0
oldest (first ∷ later) = first

-- A frame with fewer than k accesses goes before one with k; otherwise the one with the older
-- oldest access goes first.
abbrev pub Outranks : ℕ → List ℕ → List ℕ → Type 0
Outranks k a b =
    ((length a < k) × (k ≤ length b))
    ⊎ ((length a < k) × (length b < k) × (oldest a ≤ oldest b))
    ⊎ ((k ≤ length a) × (k ≤ length b) × (oldest a ≤ oldest b))

-- No recorded access is later than now: the clock has not wrapped.
abbrev pub Past : ℕ → List (ℤ × FrameState) → Type 0
Past now [] = Unit
Past now ((g, st) ∷ frames) = (oldest st.history ≤ now) × Past now frames

Past-IsFrame :
    (now : ℕ) (frames : List (ℤ × FrameState)) (g : ℤ) (st : FrameState)
    → Past now frames
    → IsFrame g st frames
    → oldest st.history ≤ now
Past-IsFrame now [] g st past h = absurd h
Past-IsFrame now ((f, st') ∷ frames) g st (here, past) (inl (ef, es)) =
    subst (λ (x : FrameState). oldest x.history ≤ now) es here
Past-IsFrame now ((f, st') ∷ frames) g st (here, past) (inr h) = Past-IsFrame now frames g st past h

-- An evictable frame makes a candidate, if the loop has met no empty history.
pub choose-Makes :
    (k now : ℕ) (best : Option Candidate) (frames : List (ℤ × FrameState))
    (result : Option Candidate)
    → choose k now best frames ≡ some result
    → (g : ℤ) (st : FrameState) → IsFrame g st frames
    → st.evictable ≡ true
    → (c : Candidate) × Makes k now g st c
unfolding choose
choose-Makes k now best [] result h g st absent on = absurd absent
choose-Makes k now best ((f, st') ∷ frames) result h g st at_frame on =
    made (round k now best f st') (round-Round k now best f st')
      (λ b e later. choose-Makes k now b frames result e g st later on) h at_frame
  where
    made :
        (r : Option (Option Candidate))
        → Round k now best f st' r
        → ((b : Option Candidate)
            → choose k now b frames ≡ some result
            → IsFrame g st frames
            → (c : Candidate) × Makes k now g st c)
        → elim r as (λ x. Option (Option Candidate)) [
          | none ↦ none
          | some b ↦ choose k now b frames
        ]
          ≡ some result
        → IsFrame g st ((f, st') ∷ frames)
        → (c : Candidate) × Makes k now g st c
    made _ faults rest e at_frame' = absurd (cc)
    made _ (skips off) rest e (inl (ef, es)) =
        let off' : st.evictable ≡ false = subst (λ (x : FrameState). x.evictable ≡ false) es off in
        absurd (cc)
    made _ (skips off) rest e (inr later) = rest best e later
    made _ (weighs c makes) rest e (inl (ef, es)) =
        (c, subst (λ x. Makes k now x st c) ef (subst (λ x. Makes k now f x c) es makes))
    made _ (weighs c makes) rest e (inr later) = rest (better best c) e later

-- The difference of two times does not wrap.
elapsed :
    (now first : ℕ) → now < 2 ^ 64 → first ≤ now → (now + 2 ^ 64 - first) % 2 ^ 64 ≡ now - first
elapsed now first small past = omega arith

abbrev metric_of : ℕ → Bool → ℕ → ℕ
metric_of now is_inf first = if is_inf then first else (now + 2 ^ 64 - first) % 2 ^ 64

Outranks-BeatsBy :
    (k now : ℕ) (a b : List ℕ) (i j : Bool)
    → now < 2 ^ 64
    → oldest a ≤ now
    → oldest b ≤ now
    → ltb (length a) k ≡ i
    → ltb (length b) k ≡ j
    → BeatsBy i (metric_of now i (oldest a)) j (metric_of now j (oldest b))
    → Outranks k a b
Outranks-BeatsBy k now a b true true small pa pb ea eb h = inr (inl (ground arith, ground arith, h))
Outranks-BeatsBy k now a b true false small pa pb ea eb h = inl (ground arith, ground arith)
Outranks-BeatsBy k now a b false true small pa pb ea eb h = absurd h
Outranks-BeatsBy k now a b false false small pa pb ea eb h =
    let ta = elapsed now (oldest a) small pa in
    let tb = elapsed now (oldest b) small pb in inr (inr (ground arith, ground arith, omega arith))

Outranks-Makes :
    (k now : ℕ) (f g : ℤ) (st st' : FrameState) (c d : Candidate)
    → now < 2 ^ 64
    → oldest st.history ≤ now
    → oldest st'.history ≤ now
    → Makes k now f st c
    → Makes k now g st' d
    → Beats c d
    → Outranks k st.history st'.history
unfolding candidate
Outranks-Makes k now f g st st' c d small pa pb (on, first, later, h, made)
      (on', first', later', h', made') beats =
    rw (h, h')
      (Outranks-BeatsBy k now (first ∷ later) (first' ∷ later') (ltb (length (first ∷ later)) k)
        (ltb (length (first' ∷ later')) k) small (rw h at pa) (rw h' at pb) refl refl
        (rw (made, made') at beats))

pub frame_of_Makes :
    (k now : ℕ) (g : ℤ) (st : FrameState) (c : Candidate) → Makes k now g st c → c.frame ≡ g
unfolding candidate
frame_of_Makes k now g st c (on, first, later, h, made) = ap (λ (x : Candidate). x.frame) made

-- The best candidate's frame.
choose-Outranks :
    (k now : ℕ) (frames : List (ℤ × FrameState)) (best : Candidate)
    → now < 2 ^ 64
    → Past now frames
    → choose k now none frames ≡ some (some best)
    → (st : FrameState) × IsFrame best.frame st frames
      × (st.evictable ≡ true)
      × ((g : ℤ) (st' : FrameState)
          → IsFrame g st' frames
          → st'.evictable ≡ true
          → Outranks k st.history st'.history)
choose-Outranks k now frames best small past e =
    let found = choose-Best k now none frames (some best) e in
    elim found.origin [
      | inl nothing ↦ absurd (cc)
      | inr (c, g, st, is, at_frame, makes) ↦
          let same : best ≡ c = cc in
          let framed : g ≡ best.frame =
            sym (ap (λ (x : Candidate). x.frame) same ∙ frame_of_Makes k now g st c makes) in
          (
            st,
            subst (λ x. IsFrame x st frames) framed at_frame,
            makes.0,
            λ g' st' at_frame' on.
                let (d, makes') =
                  choose-Makes k now none frames (some best) e g' st' at_frame' on in
                let beats : Beats c d =
                  subst (λ x. Beats x d) same (found.newer g' st' d at_frame' makes') in
                Outranks-Makes k now g g' st st' c d small
                  (Past-IsFrame now frames g st past at_frame)
                  (Past-IsFrame now frames g' st' past at_frame') makes makes' beats,
          )
    ]

-- What `Evict` picks is an evictable frame that goes before every other evictable frame: one with
-- fewer than k accesses if there is any, and the one whose oldest kept access (the k-th most recent,
-- where there are k) is the oldest of its kind. It is then no longer tracked, and the others are as
-- they were. The clock is a 64-bit counter that has not wrapped.
pub evict-Outranks :
    (s s' : LruK) (f : ℤ)
    → s.current_timestamp < 2 ^ 64
    → Past s.current_timestamp s.frames
    → evict s ≡ victim f s'
    → (st : FrameState) × IsFrame f st s.frames
      × (st.evictable ≡ true)
      × ((g : ℤ) (st' : FrameState)
          → IsFrame g st' s.frames
          → st'.evictable ≡ true
          → Outranks s.k st.history st'.history)
      × (s'.frames ≡ erase f s.frames)
unfolding evict
evict-Outranks s s' f small past h = chosen (choose s.k s.current_timestamp none s.frames) refl h
  where
    chosen :
        (r : Option (Option Candidate))
        → choose s.k s.current_timestamp none s.frames ≡ r
        → elim r as (λ x. Eviction LruK) [
          | none ↦ undefined
          | some none ↦ no_victim
          | some (some best) ↦ victim best.frame (record s {
            frames = erase best.frame s.frames;
            evictable_count = decrement s.evictable_count;
          })
        ]
          ≡ victim f s'
        → (st : FrameState) × IsFrame f st s.frames
          × (st.evictable ≡ true)
          × ((g : ℤ) (st' : FrameState)
              → IsFrame g st' s.frames
              → st'.evictable ≡ true
              → Outranks s.k st.history st'.history)
          × (s'.frames ≡ erase f s.frames)
    chosen none e v = absurd (cc)
    chosen (some none) e v = absurd (cc)
    chosen (some (some best)) e v =
        let picked : best.frame ≡ f = cc in
        let left : (record s {
          frames = erase best.frame s.frames;
          evictable_count = decrement s.evictable_count;
        })
            ≡ s' =
          cc in
        let (st, at_frame, on, first) =
          choose-Outranks s.k s.current_timestamp s.frames best small past e in
        (
          st,
          subst (λ x. IsFrame x st s.frames) picked at_frame,
          on,
          first,
          ap (λ (x : LruK). x.frames) (sym left) ∙ ap (λ x. erase x s.frames) picked,
        )
