-- ===== src/Lsm/SkipList/Overwrite.antt =====
-- `Insert` of the skip list (lsm/skip_list.h) at a key that is there.
use cpp_database_engine.Common.{
  ℕ, suc, ◌≤◌, ◌<◌, ◌≡◌, refl, sym, ap, subst, ◌∙◌, inl, inr, true, false, List, [], ◌∷◌, ◌++◌,
  arith, Bool-cases, ltb, length, ◌==◌, All,
}
use cpp_database_engine.Common.Int.{ℤ, ltb_ℤ, eqb_ℤ_iff}
use cpp_database_engine.Common.SortedMap.{insert, Ascending, insert-Ascending}
use cpp_database_engine.Lsm.Value.{LsmValue}
use cpp_database_engine.Lsm.SkipList.{Node, SkipList, head, put_at, overwrite}
use cpp_database_engine.Lsm.SkipList.Chains.{Cell, at_level, entries, Chain, Holds, IsLow}
use cpp_database_engine.Lsm.SkipList.Splice.{Apart, Distinct}
use cpp_database_engine.Lsm.SkipList.Spliced.{Chain-frame}
use cpp_database_engine.Lsm.SkipList.Valid.{IsValid}

abbrev pub revalued : Cell → LsmValue → Cell
revalued c v = record c { value = v }

All-revalued {κ} :
    (P : Cell → Type κ) (low rest : List Cell) (c d : Cell)
    → (P c → P d)
    → All P (low ++ c ∷ rest)
    → All P (low ++ d ∷ rest)
All-revalued P [] rest c d f h = (f h.0, h.1)
All-revalued P (x ∷ low) rest c d f h = (h.0, All-revalued P low rest c d f h.1)

Distinct-revalued :
    (a : ℕ) (low rest : List Cell) (c : Cell) (v : LsmValue)
    → Distinct a (low ++ c ∷ rest)
    → Distinct a (low ++ revalued c v ∷ rest)
Distinct-revalued a [] rest c v h = h
Distinct-revalued a (x ∷ low) rest c v h = (
  All-revalued (λ (d : Cell). (a == d.address) ≡ false) (x ∷ low) rest c (revalued c v) (λ e. e)
      h.0,
  Distinct-revalued x.address low rest c v h.1,
)

Chain-revalued :
    (m : ℕ → Node) (l a : ℕ) (low rest : List Cell) (c : Cell) (v : LsmValue)
    → Chain m l a (at_level l (low ++ c ∷ rest))
    → Chain m l a (at_level l (low ++ revalued c v ∷ rest))
Chain-revalued m l a [] rest c v h = elim (Bool-cases (ltb l c.height)) [
  | inl tall ↦ let h' = rw tall at h in rw tall h'
  | inr small ↦ let h' = rw small at h in rw small h'
]
Chain-revalued m l a (x ∷ low) rest c v h = elim (Bool-cases (ltb l x.height)) [
  | inl tall ↦
      let h' = rw tall at h in rw tall (h'.0, Chain-revalued m l x.address low rest c v h'.1)
  | inr small ↦ let h' = rw small at h in rw small (Chain-revalued m l a low rest c v h')
]

length-revalued :
    (low rest : List Cell) (c : Cell) (v : LsmValue)
    → length (low ++ c ∷ rest) ≡ length (low ++ revalued c v ∷ rest)
length-revalued [] rest c v = refl
length-revalued (x ∷ low) rest c v = ap suc (length-revalued low rest c v)

-- The entry of the key is replaced.
entries-revalued :
    (k : ℤ) (low rest : List Cell) (c : Cell) (v : LsmValue)
    → All (IsLow k) low
    → ltb_ℤ c.key k ≡ false
    → c.key ≡ k
    → entries (low ++ revalued c v ∷ rest) ≡ insert k v (entries (low ++ c ∷ rest))
entries-revalued k [] rest c v b high same =
    let here = (eqb_ℤ_iff c.key k).1 same in rw (high, here) (ap (λ j. (j, v) ∷ entries rest) same)
entries-revalued k (x ∷ low) rest c v b high same =
    rw b.0 (ap (λ m. (x.key, x.value) ∷ m) (entries-revalued k low rest c v b.1 high same))

Apart-here :
    (a : ℕ) (low rest : List Cell) (c : Cell) → Apart a (low ++ c ∷ rest) → (a == c.address) ≡ false
Apart-here a [] rest c h = h.0
Apart-here a (x ∷ low) rest c h = Apart-here a low rest c h.1

Distinct-Apart : (a : ℕ) (cells : List Cell) → Distinct a cells → Apart a cells
Distinct-Apart a [] d = tt
Distinct-Apart a (c ∷ cells) d = d.0

module _ (s : SkipList) (c : Cell) (v : LsmValue) where
  forward-overwrite :
      (a l : ℕ) → ((overwrite s c.address v).memory a).forward l ≡ (s.memory a).forward l
  unfolding overwrite put_at
  forward-overwrite a l = elim (Bool-cases (a == c.address)) [
    | inl here ↦
        let same : c.address ≡ a = ground arith in rw here (ap (λ b. (s.memory b).forward l) same)
    | inr apart ↦ rw apart refl
  ]

  all_forward :
      (l : ℕ) (cells : List Cell)
      → All
          (λ (d : Cell).
            ((overwrite s c.address v).memory d.address).forward l ≡ (s.memory d.address).forward l)
          cells
  all_forward l [] = tt
  all_forward l (d ∷ cells) = (forward-overwrite d.address l, all_forward l cells)

  kept :
      (d : Cell)
      → (d.address == c.address) ≡ false
      → Holds s.memory d
      → Holds (overwrite s c.address v).memory d
  unfolding overwrite put_at
  kept d apart h = rw apart h

  kept_all :
      (cells : List Cell)
      → Apart c.address cells
      → All (λ d. Holds s.memory d) cells
      → All (λ d. Holds (overwrite s c.address v).memory d) cells
  kept_all [] apart h = tt
  kept_all (d ∷ cells) apart h = (kept d (ground arith) h.0, kept_all cells apart.1 h.1)

  revalued-Holds : Holds s.memory c → Holds (overwrite s c.address v).memory (revalued c v)
  unfolding overwrite put_at
  revalued-Holds h =
      let here : (c.address == c.address) ≡ true = ground arith in rw here (h.0, refl)

  overwritten-Holds :
      (a : ℕ) (low rest : List Cell)
      → Distinct a (low ++ c ∷ rest)
      → All (λ d. Holds s.memory d) (low ++ c ∷ rest)
      → All (λ d. Holds (overwrite s c.address v).memory d) (low ++ revalued c v ∷ rest)
  overwritten-Holds a [] [] d h = (revalued-Holds h.0, tt)
  overwritten-Holds a [] (x ∷ rest) d h = (revalued-Holds h.0, kept_all (x ∷ rest) d.1.0 h.1)
  overwritten-Holds a (x ∷ low) rest d h = (
    kept x (Apart-here x.address low rest c (Distinct-Apart x.address (low ++ c ∷ rest) d.1)) h.0,
    overwritten-Holds x.address low rest d.1 h.1,
  )

-- The list with the new value of a key that it has.
pub overwrite-IsValid :
    (s : SkipList) (k : ℤ) (c : Cell) (v : LsmValue) (low rest : List Cell) (h : IsValid s)
    → h.cells ≡ low ++ c ∷ rest
    → All (IsLow k) low
    → ltb_ℤ c.key k ≡ false
    → c.key ≡ k
    → (h' : IsValid (overwrite s c.address v)) × (entries h'.cells ≡ insert k v (entries h.cells))
unfolding overwrite
overwrite-IsValid s k c v low rest h e below high same =
    let all : (P : Cell → Type 0) → All P h.cells → All P (low ++ c ∷ rest) =
      λ P a. subst (λ cs. All P cs) e a in
    let distinct = subst (λ cs. Distinct head cs) e h.distinct in
    let new : entries (low ++ revalued c v ∷ rest) ≡ insert k v (entries h.cells) =
      entries-revalued k low rest c v below high same
      ∙ ap (λ cs. insert k v (entries cs)) (sym e) in
    let n = ap (λ cs. length cs) e ∙ length-revalued low rest c v in
    let m' = (overwrite s c.address v).memory in
    (
      record {
        cells = low ++ revalued c v ∷ rest;
        chains = λ l.
            Chain-frame s.memory m' l head (at_level l (low ++ revalued c v ∷ rest))
              (forward-overwrite s c v head l) (all_forward s c v l _)
              (Chain-revalued s.memory l head low rest c v
                (subst (λ cs. Chain s.memory l head (at_level l cs)) e (h.chains l)));
        holds =
            overwritten-Holds s c v head low rest distinct (all (λ d. Holds s.memory d) h.holds);
        ascending =
            subst (λ m. Ascending m) (sym new) (insert-Ascending k v (entries h.cells) h.ascending);
        distinct = Distinct-revalued head low rest c v distinct;
        addresses =
            All-revalued (λ d. d.address < s.allocated) low rest c (revalued c v) (λ x. x)
              (all (λ d. d.address < s.allocated) h.addresses);
        room = h.room ∙ ap suc n;
        tall =
            All-revalued (λ d. 1 ≤ d.height) low rest c (revalued c v) (λ x. x)
              (all (λ d. 1 ≤ d.height) h.tall);
        heights =
            All-revalued (λ d. d.height ≤ s.current_height) low rest c (revalued c v) (λ x. x)
              (all (λ d. d.height ≤ s.current_height) h.heights);
        levels = h.levels;
        counted = h.counted ∙ n;
      },
      new,
    )
