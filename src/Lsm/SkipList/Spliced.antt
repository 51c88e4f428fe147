-- ===== src/Lsm/SkipList/Spliced.antt =====
-- The loop of `Insert` (lsm/skip_list.h) that links a new node, on the chains of the levels.
use cpp_database_engine.Common.{
  ℕ, ◌≡◌, refl, sym, ap, subst, ◌∙◌, true, false, Option, none, some, List, [], ◌∷◌, ◌++◌, arith,
  ◌==◌, All,
}
use cpp_database_engine.Lsm.SkipList.{Node}
use cpp_database_engine.Lsm.SkipList.Chains.{Cell, Chain, last_of}
use cpp_database_engine.Lsm.SkipList.Splice.{
  Apart, Distinct, relinked, Apart-last_of, Apart-append_left,
}

-- A chain that no pointer of leaves its nodes.
pub Chain-frame :
    (m m' : ℕ → Node) (l cur : ℕ) (cells : List Cell)
    → ((m' cur).forward l ≡ (m cur).forward l)
    → All (λ (c : Cell). (m' c.address).forward l ≡ (m c.address).forward l) cells
    → Chain m l cur cells
    → Chain m' l cur cells
Chain-frame m m' l cur [] e same h = e ∙ h
Chain-frame m m' l cur (c ∷ cells) e same h =
    (e ∙ h.0, Chain-frame m m' l c.address cells same.0 same.1 h.1)

module _ (m m' : ℕ → Node) (update : ℕ → ℕ) (l node : ℕ)
    (linked : (a : ℕ) → (m' a).forward l ≡ relinked m update node a l) where
  untouched :
      (a : ℕ) → (a == update l) ≡ false → (a == node) ≡ false → (m' a).forward l ≡ (m a).forward l
  untouched a e f = linked a ∙ (rw (e, f) refl)

  all_untouched :
      (cells : List Cell)
      → Apart (update l) cells
      → Apart node cells
      → All (λ (c : Cell). (m' c.address).forward l ≡ (m c.address).forward l) cells
  all_untouched [] e f = tt
  all_untouched (c ∷ cells) e f =
      (untouched c.address (ground arith) (ground arith), all_untouched cells e.1 f.1)

  first_behind :
      (p : Option ℕ)
      → (update l == node) ≡ false
      → (m (update l)).forward l ≡ p
      → (m' node).forward l ≡ p
  first_behind p e h =
      let apart : (node == update l) ≡ false = ground arith in
      let here : (node == node) ≡ true = ground arith in linked node ∙ (rw (apart, here) h)

  behind :
      (ys : List Cell)
      → (update l == node) ≡ false
      → Apart node ys
      → Distinct (update l) ys
      → Chain m l (update l) ys
      → Chain m' l node ys
  behind [] e f d h = first_behind none e h
  behind (y ∷ ys) e f d h = (
    first_behind (some y.address) e h.0,
    Chain-frame m m' l y.address ys (untouched y.address (ground arith) (ground arith))
        (all_untouched ys d.0.1 f.1) h.1,
  )

  -- A new node behind the last of the cells `xs`.
  pub Chain-splice :
      (cur : ℕ) (new : Cell) (xs ys : List Cell)
      → new.address ≡ node
      → update l ≡ last_of cur xs
      → (cur == node) ≡ false
      → Apart node (xs ++ ys)
      → Distinct cur (xs ++ ys)
      → Chain m l cur (xs ++ ys)
      → Chain m' l cur (xs ++ new ∷ ys)
  Chain-splice cur new [] ys named here other apart distinct h =
      let e : (cur == update l) ≡ true = ground arith in
      let f : (update l == node) ≡ false = ground arith in
      (
        linked cur ∙ (rw e (ap (λ a. some a) (sym named))),
        subst (λ a. Chain m' l a ys) (sym named)
            (behind ys f apart (subst (λ a. Distinct a ys) (sym here) distinct)
              (subst (λ a. Chain m l a ys) (sym here) h)),
      )
  Chain-splice cur new (x ∷ xs) ys named here other apart distinct h =
      let later = Apart-last_of cur x xs (Apart-append_left cur (x ∷ xs) ys distinct.0) in
      (
        untouched cur (ground arith) other ∙ h.0,
        Chain-splice x.address new xs ys named here (ground arith) apart.1 distinct.1 h.1,
      )
