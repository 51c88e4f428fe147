-- ===== src/Lsm/SkipList/Added.antt =====
-- The new node of an `Insert` of the skip list (lsm/skip_list.h), in memory and among the cells.
use cpp_database_engine.Common.{
  ℕ, zero, suc, ◌+◌, ◌-◌, ◌≤◌, ◌<◌, ◌≡◌, refl, ap, ◌∙◌, true, false, none, List, [], ◌∷◌, ◌++◌,
  arith, ltb, leb, length, ◌==◌, ◌&&◌, if◌then◌else◌, All,
}
use cpp_database_engine.Common.Int.{ℤ, ltb_ℤ, eqb_ℤ}
use cpp_database_engine.Common.SortedMap.{insert}
use cpp_database_engine.Lsm.Value.{LsmValue}
use cpp_database_engine.Lsm.SkipList.{Node, SkipList, head, put_at, fill_head, splice}
use cpp_database_engine.Lsm.SkipList.Chains.{Cell, entries, Holds, IsLow}
use cpp_database_engine.Lsm.SkipList.Splice.{Apart, Distinct, splice-entry, splice-forward}

pub All-insert {κ} :
    (P : Cell → Type κ) (xs ys : List Cell) (c : Cell)
    → P c
    → All P (xs ++ ys)
    → All P (xs ++ c ∷ ys)
All-insert P [] ys c p h = (p, h)
All-insert P (x ∷ xs) ys c p h = (h.0, All-insert P xs ys c p h.1)

pub Distinct-insert :
    (a : ℕ) (xs ys : List Cell) (c : Cell)
    → (a == c.address) ≡ false
    → Apart c.address (xs ++ ys)
    → Distinct a (xs ++ ys)
    → Distinct a (xs ++ c ∷ ys)
Distinct-insert a [] [] c e f d = ((e, tt), tt)
Distinct-insert a [] (y ∷ ys) c e f d = ((e, d.0), (f, d.1))
Distinct-insert a (x ∷ xs) ys c e f d = (
  All-insert (λ (b : Cell). (a == b.address) ≡ false) (x ∷ xs) ys c e d.0,
  Distinct-insert x.address xs ys c (ground arith) f.1 d.1,
)

pub entries-insert :
    (k : ℤ) (v : LsmValue) (xs ys : List Cell) (c : Cell)
    → c.key ≡ k
    → c.value ≡ v
    → All (IsLow k) xs
    → All (λ d. (ltb_ℤ d.key k ≡ false) × (eqb_ℤ d.key k ≡ false)) ys
    → entries (xs ++ c ∷ ys) ≡ insert k v (entries (xs ++ ys))
entries-insert k v [] [] c e f b a = rw (e, f) refl
entries-insert k v [] (y ∷ ys) c e f b a = rw (e, f, a.0.0, a.0.1) refl
entries-insert k v (x ∷ xs) ys c e f b a =
    rw b.0 (ap (λ m. (x.key, x.value) ∷ m) (entries-insert k v xs ys c e f b.1 a))

pub length-insert : (xs ys : List Cell) (c : Cell) → length (xs ++ c ∷ ys) ≡ suc (length (xs ++ ys))
length-insert [] ys c = refl
length-insert (x ∷ xs) ys c = ap suc (length-insert xs ys c)

pub fill_head-at :
    (count i : ℕ) (update : ℕ → ℕ) (l : ℕ)
    → fill_head count i update l ≡ (if leb i l && ltb l (i + count) then head else update l)
unfolding fill_head put_at
fill_head-at zero i update l = ground arith
fill_head-at (suc count) i update l =
    ground (arith, fill_head-at count (suc i) (put_at update i head) l)

pub below_allocated : (n : ℕ) (cells : List Cell) → All (λ c. c.address < n) cells → Apart n cells
below_allocated n [] h = tt
below_allocated n (c ∷ cells) h = (ground (arith, h.0), below_allocated n cells h.1)

-- The update array behind the loop that fills it with `head_`.
abbrev pub filled : SkipList → (ℕ → ℕ) → ℕ → ℕ → ℕ
filled s update level =
    if ltb s.current_height level
    then fill_head (level - s.current_height) s.current_height update
    else update

-- The memory with the new node, before any pointer leads to it.
abbrev pub with_node : SkipList → ℤ → LsmValue → ℕ → Node
with_node s k v = put_at s.memory s.allocated (record { key = k; value = v; forward = λ i. none })

module _ (s : SkipList) (k : ℤ) (v : LsmValue) where
  pub with_node-same : (a : ℕ) → (a == s.allocated) ≡ false → with_node s k v a ≡ s.memory a
  unfolding put_at
  with_node-same a e = rw e refl

  pub with_node-Holds :
      (cells : List Cell)
      → Apart s.allocated cells
      → All (λ d. Holds s.memory d) cells
      → All (λ d. Holds (with_node s k v) d) cells
  with_node-Holds [] e h = tt
  with_node-Holds (c ∷ cells) e h =
      let same = with_node-same c.address (ground arith) in
      (
        (ap (λ (n : Node). n.key) same ∙ h.0.0, ap (λ (n : Node). n.value) same ∙ h.0.1),
        with_node-Holds cells e.1 h.1,
      )

  pub with_node-forward :
      (l : ℕ) (cells : List Cell)
      → Apart s.allocated cells
      → All (λ d. (with_node s k v d.address).forward l ≡ (s.memory d.address).forward l) cells
  with_node-forward l [] e = tt
  with_node-forward l (c ∷ cells) e = (
    ap (λ (n : Node). n.forward l) (with_node-same c.address (ground arith)),
    with_node-forward l cells e.1,
  )

  pub with_node-new :
      (height : ℕ)
      → Holds
          (with_node s k v)
          (record { address = s.allocated; key = k; value = v; height = height })
  unfolding put_at
  with_node-new height =
      let here : (s.allocated == s.allocated) ≡ true = ground arith in rw here (refl, refl)

pub spliced-Holds :
    (level node : ℕ) (update : ℕ → ℕ) (m : ℕ → Node) (cells : List Cell)
    → All (λ d. Holds m d) cells
    → All (λ d. Holds (splice level 0 update node m) d) cells
spliced-Holds level node update m [] h = tt
spliced-Holds level node update m (c ∷ cells) h =
    let e = splice-entry level 0 update node m c.address in
    ((e.0 ∙ h.0.0, e.1 ∙ h.0.1), spliced-Holds level node update m cells h.1)

pub spliced-above :
    (level node : ℕ) (update : ℕ → ℕ) (m : ℕ → Node) (l a : ℕ)
    → level ≤ l
    → (splice level 0 update node m a).forward l ≡ (m a).forward l
spliced-above level node update m l a h =
    let out : (leb 0 l && ltb l (0 + level)) ≡ false = ground arith in
    splice-forward level 0 update node m a l ∙ (rw out refl)

pub all_above :
    (level node : ℕ) (update : ℕ → ℕ) (m : ℕ → Node) (l : ℕ)
    → level ≤ l
    → (cells : List Cell)
    → All (λ d. (splice level 0 update node m d.address).forward l ≡ (m d.address).forward l) cells
all_above level node update m l h [] = tt
all_above level node update m l h (c ∷ cells) =
    (spliced-above level node update m l c.address h, all_above level node update m l h cells)

pub higher_than :
    (m n : ℕ) (cells : List Cell)
    → m ≤ n
    → All (λ c. c.height ≤ m) cells
    → All (λ c. c.height ≤ n) cells
higher_than m n [] e h = tt
higher_than m n (c ∷ cells) e h = (omega (arith, e, h.0), higher_than m n cells e h.1)

pub more_allocated :
    (n : ℕ) (cells : List Cell)
    → All (λ c. c.address < n) cells
    → All (λ c. c.address < n + 1) cells
more_allocated n [] h = tt
more_allocated n (c ∷ cells) h = (omega (arith, h.0), more_allocated n cells h.1)
