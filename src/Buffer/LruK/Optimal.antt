-- ===== src/Buffer/LruK/Optimal.antt =====
-- `LRUKReplacer::Evict` (buffer/lru_k_replacer.cpp) picks the frame with the largest backward
-- k-distance.
use cpp_database_engine.Common.{
  ℕ, ◌≤◌, ◌≡◌, refl, sym, ap, subst, ◌∙◌, ◌⊎◌, inl, inr, Bool, true, false, Option, none, some,
  List, [], ◌∷◌, arith, ltb, if◌then◌else◌, Bool-cases,
}
use cpp_database_engine.Common.Int.{ℤ}
use cpp_database_engine.Buffer.LruK.{FrameState, Candidate, adopts, candidate, round, choose}

-- +inf beats a finite distance; among +inf the smaller metric wins, among finite ones the larger.
abbrev pub BeatsBy : Bool → ℕ → Bool → ℕ → Type 0
BeatsBy true m true n = m ≤ n
BeatsBy true m false n = Unit
BeatsBy false m true n = ⊥
BeatsBy false m false n = n ≤ m

-- The first candidate is at least as good as the second.
abbrev pub Beats : Candidate → Candidate → Type 0
Beats c d = BeatsBy c.is_inf c.metric d.is_inf d.metric

BeatsBy-trans : (i j k : Bool) (l m n : ℕ) → BeatsBy i l j m → BeatsBy j m k n → BeatsBy i l k n
BeatsBy-trans true true true l m n a b = omega arith
BeatsBy-trans true j false l m n a b = tt
BeatsBy-trans true false true l m n a b = absurd b
BeatsBy-trans false true k l m n a b = absurd a
BeatsBy-trans false false true l m n a b = absurd b
BeatsBy-trans false false false l m n a b = omega arith

BeatsBy-refl : (i : Bool) (m : ℕ) → BeatsBy i m i m
BeatsBy-refl true m = omega arith
BeatsBy-refl false m = omega arith

-- The test `adopt`, on the two flags and metrics.
abbrev adopts_by : Bool → ℕ → Bool → ℕ → Bool
adopts_by i m j n = if i then (if j then ltb m n else true) else (if j then false else ltb n m)

adopts-BeatsBy : (i j : Bool) (m n : ℕ) → adopts_by i m j n ≡ true → BeatsBy i m j n
adopts-BeatsBy true true m n h = ground arith
adopts-BeatsBy true false m n h = tt
adopts-BeatsBy false true m n h = cc
adopts-BeatsBy false false m n h = ground arith

keeps-BeatsBy : (i j : Bool) (m n : ℕ) → adopts_by i m j n ≡ false → BeatsBy j n i m
keeps-BeatsBy true true m n h = ground arith
keeps-BeatsBy true false m n h = cc
keeps-BeatsBy false true m n h = tt
keeps-BeatsBy false false m n h = ground arith

-- The better one of the best so far and a new candidate.
abbrev pub better : Option Candidate → Candidate → Option Candidate
better best c = if adopts best c then some c else best

abbrev pub AtLeast : Option Candidate → Candidate → Type 0
AtLeast none d = ⊥
AtLeast (some b) d = Beats b d

better-new : (best : Option Candidate) (c : Candidate) → AtLeast (better best c) c
unfolding adopts
better-new none c = BeatsBy-refl c.is_inf c.metric
better-new (some b) c = elim (Bool-cases (adopts (some b) c)) [
  | inl yes' ↦
      subst (λ x. AtLeast (if x then some c else some b) c) (sym yes')
        (BeatsBy-refl c.is_inf c.metric)
  | inr no' ↦
      subst (λ x. AtLeast (if x then some c else some b) c) (sym no')
        (keeps-BeatsBy c.is_inf b.is_inf c.metric b.metric no')
]

better-old :
    (best : Option Candidate) (c d : Candidate) → AtLeast best d → AtLeast (better best c) d
unfolding adopts
better-old none c d h = absurd h
better-old (some b) c d h = elim (Bool-cases (adopts (some b) c)) [
  | inl yes' ↦
      subst (λ x. AtLeast (if x then some c else some b) d) (sym yes')
        (BeatsBy-trans c.is_inf b.is_inf d.is_inf c.metric b.metric d.metric
          (adopts-BeatsBy c.is_inf b.is_inf c.metric b.metric yes') h)
  | inr no' ↦ subst (λ x. AtLeast (if x then some c else some b) d) (sym no') h
]

-- The candidate that the frame makes.
abbrev pub Makes : ℕ → ℕ → ℤ → FrameState → Candidate → Type 0
Makes k now g state c =
    (state.evictable ≡ true)
    × (first : ℕ) × (later : List ℕ) × (state.history ≡ first ∷ later)
    × (c ≡ candidate k now g first later)

-- A frame of the list.
abbrev pub IsFrame : ℤ → FrameState → List (ℤ × FrameState) → Type 0
IsFrame g state [] = ⊥
IsFrame g state ((f, st) ∷ frames) = ((f ≡ g) × (st ≡ state)) ⊎ IsFrame g state frames

module _ (k now : ℕ) where
  -- A round of the loop.
  pub data Round (best : Option Candidate) (g : ℤ) (st : FrameState)
      : Option (Option Candidate) → Type 0 where
    faults : Round best g st none
    skips : st.evictable ≡ false → Round best g st (some best)
    weighs : (c : Candidate) → Makes k now g st c → Round best g st (some (better best c))

  pub round-Round :
      (best : Option Candidate) (g : ℤ) (st : FrameState) → Round best g st (round k now best g st)
  unfolding round
  round-Round best g st = by_flag st.evictable st.history refl refl
    where
      by_flag :
          (b : Bool) (history : List ℕ)
          → st.evictable ≡ b
          → st.history ≡ history
          → Round best g st (
              if b
              then elim history [
                | [] ↦ none
                | first ∷ later ↦
                    let c = candidate k now g first later in
                    some (if adopts best c then some c else best)
              ]
              else some best)
      by_flag false history e h = skips e
      by_flag true [] e h = faults
      by_flag true (first ∷ later) e h =
          weighs (candidate k now g first later) (e, first, later, h, refl)

  Makes-unique :
      (g : ℤ) (st : FrameState) (c d : Candidate) → Makes k now g st c → Makes k now g st d → c ≡ d
  Makes-unique g st c d (e, first, later, h, made) (e', first', later', h', made') =
      let same : first ∷ later ≡ first' ∷ later' = sym h ∙ h' in
      let firsts : first ≡ first' = cc in
      let laters : later ≡ later' = cc in
      made
      ∙ ap (λ f. candidate k now g f later) firsts
      ∙ ap (λ l. candidate k now g first' l) laters
      ∙ sym made'

  -- What the loop has found: the best before it, or a candidate of its list, and nothing better.
  pub record Best (best : Option Candidate) (frames : List (ℤ × FrameState))
      (result : Option Candidate) : Type 0 where
    pub old : (d : Candidate) → AtLeast best d → AtLeast result d
    pub newer :
        (g : ℤ) (st : FrameState) (d : Candidate)
        → IsFrame g st frames
        → Makes k now g st d
        → AtLeast result d
    pub origin :
        (result ≡ best)
        ⊎ ((c : Candidate) × (g : ℤ) × (st : FrameState) × (result ≡ some c)
            × IsFrame g st frames
            × Makes k now g st c)

  Best-skips :
      (best : Option Candidate) (f : ℤ) (st : FrameState) (frames : List (ℤ × FrameState))
      (result : Option Candidate)
      → st.evictable ≡ false
      → Best best frames result
      → Best best ((f, st) ∷ frames) result
  Best-skips best f st frames result off rest = record {
    old = rest.old;
    newer = λ g st' d at_frame makes. elim at_frame [
      | inl (ef, es) ↦
          let off' : st'.evictable ≡ false =
            subst (λ (x : FrameState). x.evictable ≡ false) es off in
          let on : st'.evictable ≡ true = makes.0 in absurd (cc)
      | inr later ↦ rest.newer g st' d later makes
    ];
    origin = elim rest.origin [
      | inl same ↦ inl same
      | inr (c, g, st', is, at_frame, makes) ↦ inr (c, g, st', is, inr at_frame, makes)
    ];
  }

  -- Either the best stays, or the new candidate has replaced it.
  better_cases :
      (best : Option Candidate) (c : Candidate) → (better best c ≡ best) ⊎ (better best c ≡ some c)
  better_cases best c = elim (Bool-cases (adopts best c)) [
    | inl yes' ↦ inr (ap (λ x. if x then some c else best) yes')
    | inr no' ↦ inl (ap (λ x. if x then some c else best) no')
  ]

  Best-weighs :
      (best : Option Candidate) (f : ℤ) (st : FrameState) (frames : List (ℤ × FrameState))
      (result : Option Candidate) (c : Candidate)
      → Makes k now f st c
      → Best (better best c) frames result
      → Best best ((f, st) ∷ frames) result
  Best-weighs best f st frames result c made rest = record {
    old = λ d at_least. rest.old d (better-old best c d at_least);
    newer = λ g st' d at_frame makes. elim at_frame [
      | inl (ef, es) ↦
          let made' : Makes k now g st' c =
            subst (λ x. Makes k now x st' c) ef (subst (λ x. Makes k now f x c) es made) in
          subst (AtLeast result) (Makes-unique g st' c d made' makes)
            (rest.old c (better-new best c))
      | inr later ↦ rest.newer g st' d later makes
    ];
    origin = elim rest.origin [
      | inl same ↦ elim (better_cases best c) [
        | inl stays ↦ inl (same ∙ stays)
        | inr replaced ↦ inr (c, f, st, same ∙ replaced, inl (refl, refl), made)
      ]
      | inr (c', g, st', is, at_frame, makes) ↦ inr (c', g, st', is, inr at_frame, makes)
    ];
  }

  Best-Round :
      (best : Option Candidate) (f : ℤ) (st : FrameState) (frames : List (ℤ × FrameState))
      (result : Option Candidate) (r : Option (Option Candidate))
      → Round best f st r
      → ((b : Option Candidate) → choose k now b frames ≡ some result → Best b frames result)
      → elim r as (λ x. Option (Option Candidate)) [ none ↦ none | some b ↦ choose k now b frames ]
        ≡ some result
      → Best best ((f, st) ∷ frames) result
  Best-Round best f st frames result _ faults rest e = cc
  Best-Round best f st frames result _ (skips off) rest e =
      Best-skips best f st frames result off (rest best e)
  Best-Round best f st frames result _ (weighs c made) rest e =
      Best-weighs best f st frames result c made (rest (better best c) e)

  pub choose-Best :
      (best : Option Candidate) (frames : List (ℤ × FrameState)) (result : Option Candidate)
      → choose k now best frames ≡ some result
      → Best best frames result
  unfolding choose
  choose-Best best [] result h =
      let same : best ≡ result = cc in
      record {
        old = λ d at_least. subst (λ r. AtLeast r d) same at_least;
        newer = λ g st d absent makes. absurd absent;
        origin = inl (sym same);
      }
  choose-Best best ((f, st) ∷ frames) result h =
      Best-Round best f st frames result (round k now best f st) (round-Round best f st)
        (λ b e. choose-Best b frames result e) h
