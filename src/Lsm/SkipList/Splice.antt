-- ===== src/Lsm/SkipList/Splice.antt =====
-- The loop of `Insert` (lsm/skip_list.h) that links a new node, on the pointers.
use cpp_database_engine.Common.{
  ℕ, zero, suc, ◌+◌, ◌≡◌, refl, sym, ap, subst, ◌∙◌, inl, inr, true, false, Option, some, List, [],
  ◌∷◌, ◌++◌, arith, Bool-cases, ltb, leb, ◌==◌, ◌&&◌, if◌then◌else◌, All,
}
use cpp_database_engine.Lsm.SkipList.{Node, put_at, set_forward, splice_level, splice}
use cpp_database_engine.Lsm.SkipList.Chains.{Cell, at_level, last_of, All-at_level}

-- No cell has the address.
abbrev pub Apart : ℕ → List Cell → Type 0
Apart a cells = All (λ (c : Cell). (a == c.address) ≡ false) cells

abbrev pub Distinct : ℕ → List Cell → Type 0
Distinct a [] = Unit
Distinct a (c ∷ cells) = Apart a (c ∷ cells) × Distinct c.address cells

Distinct-skip : (a : ℕ) (c : Cell) (cells : List Cell) → Distinct a (c ∷ cells) → Distinct a cells
Distinct-skip a c [] h = tt
Distinct-skip a c (d ∷ cells) h = (h.0.1, h.1.1)

pub Distinct-at_level :
    (l a : ℕ) (cells : List Cell) → Distinct a cells → Distinct a (at_level l cells)
Distinct-at_level l a [] h = tt
Distinct-at_level l a (c ∷ cells) h = elim (Bool-cases (ltb l c.height)) [
  | inl tall ↦
      (let apart = All-at_level (λ (d : Cell). (a == d.address) ≡ false) l (c ∷ cells) h.0 in
        rw tall (rw tall at apart, Distinct-at_level l c.address cells h.1))
  | inr small ↦ rw small (Distinct-at_level l a cells (Distinct-skip a c cells h))
]

-- The last cell is another one than a cell that stands before it.
pub Apart-last_of :
    (a : ℕ) (x : Cell) (xs : List Cell) → Apart a (x ∷ xs) → (a == last_of x.address xs) ≡ false
Apart-last_of a x [] h = h.0
Apart-last_of a x (y ∷ xs) h = Apart-last_of a y xs h.1

pub Apart-append_left : (a : ℕ) (xs ys : List Cell) → Apart a (xs ++ ys) → Apart a xs
Apart-append_left a [] ys h = tt
Apart-append_left a (x ∷ xs) ys h = (h.0, Apart-append_left a xs ys h.1)

-- What the pointers of a level are behind its round.
abbrev pub relinked : (ℕ → Node) → (ℕ → ℕ) → ℕ → ℕ → ℕ → Option ℕ
relinked m update node a j =
    if a == update j
    then some node
    else if a == node
    then (m (update j)).forward j
    else (m a).forward j

set_forward-forward :
    (m : ℕ → Node) (node l : ℕ) (p : Option ℕ) (a j : ℕ)
    → (set_forward m node l p a).forward j ≡ (if a == node && j == l then p else (m a).forward j)
unfolding set_forward put_at
set_forward-forward m node l p a j = elim (Bool-cases (a == node)) [
  | inl here ↦
      let same : a ≡ node = ground arith in
      rw here (ap (λ b. if j == l then p else (m b).forward j) (sym same))
  | inr apart ↦ rw apart refl
]

set_forward-entry :
    (m : ℕ → Node) (node l : ℕ) (p : Option ℕ) (a : ℕ)
    → ((set_forward m node l p a).key ≡ (m a).key)
      × ((set_forward m node l p a).value ≡ (m a).value)
unfolding set_forward put_at
set_forward-entry m node l p a = elim (Bool-cases (a == node)) [
  | inl here ↦
      let same : a ≡ node = ground arith in
      rw here (ap (λ b. (m b).key) (sym same), ap (λ b. (m b).value) (sym same))
  | inr apart ↦ rw apart (refl, refl)
]

splice_level-forward :
    (i : ℕ) (update : ℕ → ℕ) (node : ℕ) (m : ℕ → Node) (a j : ℕ)
    → (splice_level i update node m a).forward j
      ≡ (if j == i then relinked m update node a i else (m a).forward j)
unfolding splice_level
splice_level-forward i update node m a j =
    let linked = set_forward m node i ((m (update i)).forward i) in
    set_forward-forward linked (update i) i (some node) a j
    ∙ ap (λ p. if a == update i && j == i then some node else p)
        (set_forward-forward m node i ((m (update i)).forward i) a j)
    ∙ elim (Bool-cases (j == i)) [
      | inl here ↦
          let same : j ≡ i = ground arith in
          subst
            (λ n.
              (if a == update n && j == n
                then some node
                else if a == node && j == n
                then (m (update n)).forward n
                else (m a).forward j)
              ≡ (if j == n then relinked m update node a n else (m a).forward j))
            same (agree a j)
      | inr apart ↦ ground arith
    ]
  where
    agree :
        (a j : ℕ)
        → (if a == update j && j == j
            then some node
            else if a == node && j == j
            then (m (update j)).forward j
            else (m a).forward j)
          ≡ (if j == j then relinked m update node a j else (m a).forward j)
    agree a j = ground arith

splice_level-entry :
    (i : ℕ) (update : ℕ → ℕ) (node : ℕ) (m : ℕ → Node) (a : ℕ)
    → ((splice_level i update node m a).key ≡ (m a).key)
      × ((splice_level i update node m a).value ≡ (m a).value)
unfolding splice_level
splice_level-entry i update node m a =
    let linked = set_forward m node i ((m (update i)).forward i) in
    let p = set_forward-entry linked (update i) i (some node) a in
    let q = set_forward-entry m node i ((m (update i)).forward i) a in (p.0 ∙ q.0, p.1 ∙ q.1)

pub splice-entry :
    (count i : ℕ) (update : ℕ → ℕ) (node : ℕ) (m : ℕ → Node) (a : ℕ)
    → ((splice count i update node m a).key ≡ (m a).key)
      × ((splice count i update node m a).value ≡ (m a).value)
unfolding splice
splice-entry zero i update node m a = (refl, refl)
splice-entry (suc count) i update node m a =
    let p = splice-entry count (suc i) update node (splice_level i update node m) a in
    let q = splice_level-entry i update node m a in (p.0 ∙ q.0, p.1 ∙ q.1)

pub splice-forward :
    (count i : ℕ) (update : ℕ → ℕ) (node : ℕ) (m : ℕ → Node) (a j : ℕ)
    → (splice count i update node m a).forward j
      ≡ (if leb i j && ltb j (i + count) then relinked m update node a j else (m a).forward j)
unfolding splice
splice-forward zero i update node m a j = ground arith
splice-forward (suc count) i update node m a j =
    let m' = splice_level i update node m in
    splice-forward count (suc i) update node m' a j ∙ elim (Bool-cases (j == i)) [
      | inl here ↦
          let outside : leb (suc i) j ≡ false = ground arith in
          let inside : (leb i j && ltb j (i + suc count)) ≡ true = ground arith in
          let same : i ≡ j = ground arith in
          rw (outside, inside)
            (splice_level-forward i update node m a j
              ∙ (rw here (ap (λ n. relinked m update node a n) same)))
      | inr apart ↦
          let range : (leb (suc i) j && ltb j (suc i + count))
              ≡ (leb i j && ltb j (i + suc count)) =
            ground arith in
          let e : (b : ℕ) → (m' b).forward j ≡ (m b).forward j =
            λ b. splice_level-forward i update node m b j ∙ (rw apart refl) in
          ap (λ r. if r then relinked m' update node a j else (m' a).forward j) range
          ∙ ap
              (λ p.
                if leb i j && ltb j (i + suc count)
                then (if a == update j
                    then some node
                    else if a == node
                    then p
                    else (m' a).forward j)
                else (m' a).forward j)
              (e (update j))
          ∙ ap
              (λ p.
                if leb i j && ltb j (i + suc count)
                then (if a == update j
                    then some node
                    else if a == node
                    then (m (update j)).forward j
                    else p)
                else p)
              (e a)
    ]
