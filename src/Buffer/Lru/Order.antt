-- ===== src/Buffer/Lru/Order.antt =====
-- `LRUReplacer::Evict` (buffer/lru_replacer.cpp) takes the least recently used evictable frame.
use cpp_database_engine.Common.{
  ◌≡◌, refl, ap, inl, inr, Bool, true, false, Option, none, some, List, [], ◌∷◌, ◌++◌, All,
  Bool-cases,
}
use cpp_database_engine.Common.Int.{ℤ}
use cpp_database_engine.Common.SortedMap.{erase}
use cpp_database_engine.Buffer.Frames.{decrement}
use cpp_database_engine.Buffer.Lru.{Lru, may_go, pick, evict}

abbrev pub Stays : List (ℤ × Bool) → ℤ → Type 0
Stays frames f = may_go frames f ≡ false

-- The victim's place in the list: nothing before it may go.
pub record Oldest (frames : List (ℤ × Bool)) (l : List ℤ) (f : ℤ) (rest : List ℤ) : Type 0 where
  pub before : List ℤ
  pub after : List ℤ
  pub place : l ≡ before ++ f ∷ after
  pub left : rest ≡ before ++ after
  pub goes : may_go frames f ≡ true
  pub stay : All (Stays frames) before

abbrev Picked : List (ℤ × Bool) → List ℤ → Option (ℤ × List ℤ) → Type 0
Picked frames l none = All (Stays frames) l
Picked frames l (some (f, rest)) = Oldest frames l f rest

Picked-later :
    (frames : List (ℤ × Bool)) (g : ℤ) (l : List ℤ) (r : Option (ℤ × List ℤ))
    → Stays frames g
    → Picked frames l r
    → Picked frames (g ∷ l) (elim r [ none ↦ none | some found ↦ some (found.0, g ∷ found.1) ])
Picked-later frames g l none h p = (h, p)
Picked-later frames g l (some (f, rest)) h p = record {
  before = g ∷ p.before;
  after = p.after;
  place = ap (◌∷◌ g) p.place;
  left = ap (◌∷◌ g) p.left;
  goes = p.goes;
  stay = (h, p.stay);
}

pick-Picked : (frames : List (ℤ × Bool)) (l : List ℤ) → Picked frames l (pick frames l)
unfolding pick
pick-Picked frames [] = tt
pick-Picked frames (g ∷ l) = elim (Bool-cases (may_go frames g)) [
  | inl goes ↦
      rw goes (record { before = []; after = l; place = refl; left = refl; goes = goes; stay = tt })
  | inr stays ↦ rw stays (Picked-later frames g l (pick frames l) stays (pick-Picked frames l))
]

abbrev pub Evicts : Lru → Option (ℤ × Lru) → Type 0
Evicts s none = All (Stays s.frames) s.lru_list
Evicts s (some (f, s')) = Oldest s.frames s.lru_list f s'.lru_list × (s'.frames ≡ erase f s.frames)

-- What `Evict` picks is the least recently used frame that is evictable: every frame before it in
-- the list, which runs from the least to the most recently used, is not. The frame leaves the list
-- and the map, the others keep their order; where `Evict` returns false, no frame of the list is
-- evictable.
pub evict-Evicts : (s : Lru) → Evicts s (evict s)
unfolding evict
evict-Evicts s = picked (pick s.frames s.lru_list) (pick-Picked s.frames s.lru_list)
  where
    picked :
        (r : Option (ℤ × List ℤ))
        → Picked s.frames s.lru_list r
        → Evicts s (elim r [
          | none ↦ none
          | some found ↦ some (
            found.0,
            record s {
              lru_list = found.1;
              frames = erase found.0 s.frames;
              evictable_count = decrement s.evictable_count;
            },
          )
        ])
    picked none p = p
    picked (some (f, rest)) p = (p, refl)
