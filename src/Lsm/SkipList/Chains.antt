-- ===== src/Lsm/SkipList/Chains.antt =====
-- The chains of nodes of the skip list (lsm/skip_list.h), one for each level.
use cpp_database_engine.Common.{
  ℕ, zero, suc, ◌≤◌, ◌≡◌, refl, sym, ap, subst, ◌∙◌, inl, inr, true, false, none, some, List, [],
  ◌∷◌, ◌++◌, arith, Bool-cases, List-cases, ltb, length, if◌then◌else◌, All,
}
use cpp_database_engine.Common.Int.{ℤ, ltb_ℤ}
use cpp_database_engine.Lsm.Value.{LsmValue, Entries}
use cpp_database_engine.Lsm.SkipList.{Node, head, walk_level}

-- What a node of the list stands for: its address, its entry and the height of its tower.
pub record Cell : Type 0 where
  pub address : ℕ
  pub key : ℤ
  pub value : LsmValue
  pub height : ℕ

-- The cells whose tower reaches the level.
abbrev pub at_level : ℕ → List Cell → List Cell
at_level l [] = []
at_level l (c ∷ cells) = let rest = at_level l cells in if ltb l c.height then c ∷ rest else rest

abbrev pub entries : List Cell → Entries
entries [] = []
entries (c ∷ cells) = (c.key, c.value) ∷ entries cells

-- From the node `cur`, the pointers of the level lead through the cells to null.
abbrev pub Chain : (ℕ → Node) → ℕ → ℕ → List Cell → Type 0
Chain m l cur [] = (m cur).forward l ≡ none
Chain m l cur (c ∷ cells) = ((m cur).forward l ≡ some c.address) × Chain m l c.address cells

abbrev pub last_of : ℕ → List Cell → ℕ
last_of cur [] = cur
last_of cur (c ∷ cells) = last_of c.address cells

-- The cell is in memory.
abbrev pub Holds : (ℕ → Node) → Cell → Type 0
Holds m c = ((m c.address).key ≡ c.key) × ((m c.address).value ≡ c.value)

abbrev pub IsLow : ℤ → Cell → Type 0
IsLow k c = ltb_ℤ c.key k ≡ true

abbrev pub IsHigh : ℤ → Cell → Type 0
IsHigh k c = ltb_ℤ c.key k ≡ false

pub at_level-append :
    (l : ℕ) (xs ys : List Cell) → at_level l (xs ++ ys) ≡ at_level l xs ++ at_level l ys
at_level-append l [] ys = refl
at_level-append l (x ∷ xs) ys = elim (Bool-cases (ltb l x.height)) [
  | inl tall ↦ rw tall (ap (λ r. x ∷ r) (at_level-append l xs ys))
  | inr small ↦ rw small (at_level-append l xs ys)
]

pub All-at_level {κ} :
    (P : Cell → Type κ) (l : ℕ) (xs : List Cell) → All P xs → All P (at_level l xs)
All-at_level P l [] h = h
All-at_level P l (x ∷ xs) h = elim (Bool-cases (ltb l x.height)) [
  | inl tall ↦ rw tall (h.0, All-at_level P l xs h.1)
  | inr small ↦ rw small (All-at_level P l xs h.1)
]

pub length-at_level : (l : ℕ) (xs : List Cell) → length (at_level l xs) ≤ length xs
length-at_level l [] = omega arith
length-at_level l (x ∷ xs) = elim (Bool-cases (ltb l x.height)) [
  | inl tall ↦ let h = length-at_level l xs in rw tall (omega (arith, h))
  | inr small ↦ let h = length-at_level l xs in rw small (omega (arith, h))
]

pub Chain-append :
    (m : ℕ → Node) (l cur : ℕ) (xs ys : List Cell)
    → Chain m l cur (xs ++ ys)
    → Chain m l (last_of cur xs) ys
Chain-append m l cur [] ys h = h
Chain-append m l cur (x ∷ xs) ys h = Chain-append m l x.address xs ys h.1

-- A walk that starts before the low cells ends at the last one of them.
pub walk_level-last_of :
    (m : ℕ → Node) (k : ℤ) (l fuel cur : ℕ) (low high : List Cell)
    → Chain m l cur (low ++ high)
    → All (Holds m) (low ++ high)
    → All (IsLow k) low
    → All (IsHigh k) high
    → length low ≤ fuel
    → walk_level m k l fuel cur ≡ last_of cur low
unfolding walk_level
walk_level-last_of m k l zero cur [] high h holds below above f = refl
walk_level-last_of m k l zero cur (x ∷ low) high h holds below above f = absurd (omega arith)
walk_level-last_of m k l (suc fuel) cur [] [] h holds below above f = rw (h, walk_level) refl
walk_level-last_of m k l (suc fuel) cur [] (x ∷ high) h holds below above f =
    rw (h.0, walk_level, holds.0.0, above.0) refl
walk_level-last_of m k l (suc fuel) cur (x ∷ low) high h holds below above f =
    rw (h.0, walk_level, holds.0.0, below.0)
      (walk_level-last_of m k l fuel x.address low high h.1 holds.1 below.1 above
        (omega (arith, f)))

-- The last cell of a level starts a part of the chain of the level below it.
pub record Lower (m : ℕ → Node) (k : ℤ) (l cur : ℕ) (low high : List Cell) (from' : ℕ)
    : Type 0 where
  pub rest : List Cell
  pub chain : Chain m l from' (at_level l (rest ++ high))
  pub ends : last_of from' (at_level l rest) ≡ last_of cur (at_level l low)
  pub shorter : length rest ≤ length low
  pub below : All (IsLow k) rest
  pub holds : All (Holds m) (rest ++ high)

widen :
    (m : ℕ → Node) (k : ℤ) (l c cur : ℕ) (x : Cell) (low high : List Cell) (from' : ℕ)
    → Lower m k l c low high from'
    → last_of c (at_level l low) ≡ last_of cur (at_level l (x ∷ low))
    → Lower m k l cur (x ∷ low) high from'
widen m k l c cur x low high from' p e = record {
  rest = p.rest;
  chain = p.chain;
  ends = p.ends ∙ e;
  shorter = omega (arith, p.shorter);
  below = p.below;
  holds = p.holds;
}

pub lower :
    (m : ℕ → Node) (k : ℤ) (l cur : ℕ) (low high : List Cell)
    → Chain m l cur (at_level l (low ++ high))
    → All (IsLow k) low
    → All (Holds m) (low ++ high)
    → Lower m k l cur low high (last_of cur (at_level (suc l) low))
lower m k l cur [] high h below holds = record {
  rest = [];
  chain = h;
  ends = refl;
  shorter = omega arith;
  below = tt;
  holds = holds;
}
lower m k l cur (x ∷ low) high h below holds = elim (Bool-cases (ltb (suc l) x.height)) [
  | inl taller ↦
      let tall : ltb l x.height ≡ true = ground arith in
      let h' = rw tall at h in
      let p = lower m k l x.address low high h'.1 below.1 holds.1 in
      let same : last_of x.address (at_level l low) ≡ last_of cur (at_level l (x ∷ low)) =
        rw tall refl in
      let start : last_of x.address (at_level (suc l) low)
          ≡ last_of cur (at_level (suc l) (x ∷ low)) =
        rw taller refl in
      subst (λ c. Lower m k l cur (x ∷ low) high c) start
        (widen m k l x.address cur x low high _ p same)
  | inr smaller ↦ elim (List-cases (at_level (suc l) low)) [
    | inl nothing ↦
        let e : at_level (suc l) (x ∷ low) ≡ [] = rw smaller nothing in
        subst (λ ys. Lower m k l cur (x ∷ low) high (last_of cur ys)) (sym e)
          (record {
            rest = x ∷ low;
            chain = h;
            ends = refl;
            shorter = omega arith;
            below = below;
            holds = holds;
          })
    | inr (y, (ys, e)) ↦ elim (Bool-cases (ltb l x.height)) [
      | inl tall ↦
          let h' = rw tall at h in
          let p = lower m k l x.address low high h'.1 below.1 holds.1 in
          let same : last_of x.address (at_level l low) ≡ last_of cur (at_level l (x ∷ low)) =
            rw tall refl in
          let skipped : last_of cur (at_level (suc l) low)
              ≡ last_of cur (at_level (suc l) (x ∷ low)) =
            rw smaller refl in
          let start : last_of x.address (at_level (suc l) low)
              ≡ last_of cur (at_level (suc l) (x ∷ low)) =
            ap (λ zs. last_of x.address zs) e ∙ sym (ap (λ zs. last_of cur zs) e) ∙ skipped in
          subst (λ c. Lower m k l cur (x ∷ low) high c) start
            (widen m k l x.address cur x low high _ p same)
      | inr small ↦
          let h' = rw small at h in
          let p = lower m k l cur low high h' below.1 holds.1 in
          let same : last_of cur (at_level l low) ≡ last_of cur (at_level l (x ∷ low)) =
            rw small refl in
          let start : last_of cur (at_level (suc l) low)
              ≡ last_of cur (at_level (suc l) (x ∷ low)) =
            rw smaller refl in
          subst (λ c. Lower m k l cur (x ∷ low) high c) start
            (widen m k l cur cur x low high _ p same)
    ]
  ]
]

-- One level of a search, from the last low cell of the level above.
pub walk_level-at_level :
    (m : ℕ → Node) (k : ℤ) (l fuel : ℕ) (low high : List Cell)
    → Chain m l head (at_level l (low ++ high))
    → All (Holds m) (low ++ high)
    → All (IsLow k) low
    → All (IsHigh k) high
    → length low ≤ fuel
    → walk_level m k l fuel (last_of head (at_level (suc l) low)) ≡ last_of head (at_level l low)
walk_level-at_level m k l fuel low high h holds below above f =
    let p = lower m k l head low high h below holds in
    let e = at_level-append l p.rest high in
    walk_level-last_of m k l fuel (last_of head (at_level (suc l) low)) (at_level l p.rest)
      (at_level l high) (subst (λ cs. Chain m l (last_of head (at_level (suc l) low)) cs) e p.chain)
      (subst (λ cs. All (Holds m) cs) e (All-at_level (Holds m) l (p.rest ++ high) p.holds))
      (All-at_level (IsLow k) l p.rest p.below) (All-at_level (IsHigh k) l high above)
      (omega (arith, p.shorter, length-at_level l p.rest, f))
    ∙ p.ends
