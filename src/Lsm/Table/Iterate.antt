-- ===== src/Lsm/Table/Iterate.antt =====
-- `SSTable::NewIterator` and `SSTable::Iterator::Next` (lsm/sstable.cpp).
use cpp_database_engine.Common.{
  ℕ, zero, suc, ◌+◌, ◌≤◌, ◌≡◌, ◌≢◌, refl, sym, ap, subst, ◌∙◌, inl, inr, true, false, some, List,
  [], ◌∷◌, ◌++◌, ◌==◌, ==_iff, arith, Bool-cases, length, drop, get_elem?, ltb,
}
use cpp_database_engine.Common.Chunks.{
  concat, AllNonempty, get_elem?_of_drop, drop-suc_of_drop, length-drop_le, lt_of_get_elem?,
}
use cpp_database_engine.Common.Int.{ℤ, ltb_ℤ, max_ℤ, ◌<ℤ◌}
use cpp_database_engine.Common.SortedMap.{from, Ascending}
use cpp_database_engine.Common.Ranges.{Above-append_right}
use cpp_database_engine.Lsm.Value.{Entries}
use cpp_database_engine.Lsm.Table.{SsTable, index_from, front_key, back_key, start_id}
use cpp_database_engine.Lsm.Table.Lookup.{
  upper_bound, page_before, find_page_pos, indexed_id, fetch, pages_from, walk, new_iterator,
}
use cpp_database_engine.Lsm.Table.Pages.{upper_bound_zero, fetch-page}
use cpp_database_engine.Lsm.Table.Contents.{
  Represents, front_before, pages_cons, fetched, Located-in,
}

pub from_past_back :
    (k : ℤ) (m : Entries) → Ascending m → ltb_ℤ (back_key m) k ≡ true → from k m ≡ []
unfolding back_key
from_past_back k [] s h = refl
from_past_back k ((j, w) ∷ []) s h = rw h refl
from_past_back k ((j, w) ∷ (i, x) ∷ m) s h =
    let early : j <ℤ k = front_before k j w ((i, x) ∷ m) s h in
    let skip : ltb_ℤ j k ≡ true = ground arith in rw skip (from_past_back k ((i, x) ∷ m) s.1 h)

from_ne_nil : (k : ℤ) (m : Entries) → ltb_ℤ (back_key m) k ≡ false → 1 ≤ length m → from k m ≢ []
unfolding back_key
from_ne_nil k [] h l e = absurd (omega arith)
from_ne_nil k ((j, w) ∷ []) h l e = let e' = rw h at e in cc
from_ne_nil k ((j, w) ∷ (i, x) ∷ m) h l e = elim (Bool-cases (ltb_ℤ j k)) [
  | inl skip ↦ from_ne_nil k ((i, x) ∷ m) h (omega arith) (rw skip at e)
  | inr stop ↦ let e' = rw stop at e in cc
]

-- The page that follows in the file.
fetch_next :
    (t : SsTable) (entries : Entries) (r : Represents t entries) (i : ℕ) (page : Entries)
    → get_elem? r.pages i ≡ some page
    → fetch t.file (start_id t.first_data_page_id + i) ≡ page
fetch_next t entries r i page at =
    ap (λ d. fetch t.file (d + i)) (r.first_page (omega (arith, lt_of_get_elem? r.pages i page at)))
    ∙ fetch-page 1 t.file r.suffix r.pages i page r.stored_pages at

length_of_drop_nil : (i : ℕ) (pages : List Entries) → drop i pages ≡ [] → length pages ≤ i
length_of_drop_nil zero [] e = omega arith
length_of_drop_nil zero (p ∷ pages) e = cc
length_of_drop_nil (suc i) [] e = omega arith
length_of_drop_nil (suc i) (p ∷ pages) e = omega (arith, length_of_drop_nil i pages e)

-- `Next` walks to the end of the data pages.
pages_from-concat :
    (fuel : ℕ) (t : SsTable) (entries : Entries) (r : Represents t entries) (i : ℕ)
    (rest : List Entries)
    → drop i r.pages ≡ rest
    → length rest ≤ fuel
    → pages_from fuel t i ≡ concat rest
unfolding pages_from
pages_from-concat zero t entries r i [] e h = refl
pages_from-concat zero t entries r i (q ∷ rest) e h = absurd (omega arith)
pages_from-concat (suc fuel) t entries r i [] e h =
    let l = length_of_drop_nil i r.pages e in
    let past : ltb i t.num_data_pages ≡ false = ground (arith, r.data_pages) in rw past refl
pages_from-concat (suc fuel) t entries r i (q ∷ rest) e h =
    let at = get_elem?_of_drop i r.pages rest q e in
    let l = lt_of_get_elem? r.pages i q at in
    let more : ltb i t.num_data_pages ≡ true = ground (arith, r.data_pages) in
    rw more (
      ap (λ page. page ++ pages_from fuel t (suc i)) (fetch_next t entries r i q at)
      ∙ ap (λ later. q ++ later)
          (pages_from-concat fuel t entries r (suc i) rest (drop-suc_of_drop i r.pages rest q e)
            (omega arith)))

rest_le :
    (t : SsTable) (entries : Entries) (r : Represents t entries) (i : ℕ) (rest : List Entries)
    → drop i r.pages ≡ rest
    → length rest ≤ t.num_data_pages
rest_le t entries r i rest e =
    let l = length-drop_le i r.pages in
    let same : length (drop i r.pages) ≡ length rest = ap (λ xs. length xs) e in
    omega (arith, l, same, r.data_pages)

-- The walk from the located page.
walk-split :
    (t : SsTable) (entries : Entries) (r : Represents t entries) (place : ℕ) (found : Entries)
    (rest : List Entries)
    → drop (suc place) r.pages ≡ rest
    → found ++ concat rest ≢ []
    → walk t place found ≡ found ++ concat rest
unfolding walk
walk-split t entries r place [] [] e ne = absurd (ne refl)
walk-split t entries r place [] (q ∷ rest) e ne =
    let at = get_elem?_of_drop (suc place) r.pages rest q e in
    let tail = drop-suc_of_drop (suc place) r.pages rest q e in
    ap (λ page. page ++ pages_from t.num_data_pages t (suc (suc place)))
      (fetch_next t entries r (suc place) q at)
    ∙ ap (λ later. q ++ later)
        (pages_from-concat t.num_data_pages t entries r (suc (suc place)) rest tail
          (rest_le t entries r (suc (suc place)) rest tail))
walk-split t entries r place (entry ∷ found) rest e ne =
    ap (λ later. (entry ∷ found) ++ later)
      (pages_from-concat t.num_data_pages t entries r (suc place) rest e
        (rest_le t entries r (suc place) rest e))

from_front : (k : ℤ) (m : Entries) → Ascending m → ltb_ℤ (front_key m) k ≡ false → from k m ≡ m
unfolding front_key
from_front k [] s h = refl
from_front k ((j, w) ∷ m) s h = rw h refl

-- The first key of the table is in its first page.
front_place :
    (pid : ℕ) (p : Entries) (ps : List Entries)
    → AllNonempty (p ∷ ps)
    → Ascending (p ++ concat ps)
    → page_before (upper_bound (front_key (p ++ concat ps)) (index_from pid (p ∷ ps))) ≡ 0
unfolding upper_bound index_from page_before front_key
front_place pid [] ps ne s = absurd (omega (arith, ne.0))
front_place pid ((k, v) ∷ p) ps ne s =
    let reached : ltb_ℤ k k ≡ false = ground arith in
    rw reached (upper_bound_zero k (suc pid) ps ne.1 (Above-append_right k p (concat ps) s.0))

from_low :
    (start : ℤ) (p rest : Entries)
    → 1 ≤ length p
    → ltb_ℤ start (front_key (p ++ rest)) ≡ true
    → (from start p ≡ p) × (from start (p ++ rest) ≡ p ++ rest)
unfolding front_key
from_low start [] rest ne h = absurd (omega arith)
from_low start ((k, v) ∷ p) rest ne h =
    let stop : ltb_ℤ k start ≡ false = ground arith in (rw stop refl, rw stop refl)

-- The iterator from below the first key.
below_range :
    (t : SsTable) (entries : Entries) (r : Represents t entries) (start : ℤ) (p : Entries)
    (ps : List Entries)
    → r.pages ≡ p ∷ ps
    → p ++ concat ps ≡ entries
    → 1 ≤ length entries
    → ltb_ℤ start t.min_key ≡ true
    → walk t
        (find_page_pos t t.min_key)
        (from start (fetch t.file (indexed_id t.sparse_index (find_page_pos t t.min_key))))
      ≡ from start entries
unfolding find_page_pos
below_range t entries r start p ps e whole h low =
    let place = find_page_pos t t.min_key in
    let key : t.min_key ≡ front_key (p ++ concat ps) =
      r.first ∙ ap (λ m. front_key m) (sym whole) in
    let ne : AllNonempty (p ∷ ps) = subst (λ pages. AllNonempty pages) e r.nonempty in
    let first : place ≡ 0 =
      ap (λ i. page_before (upper_bound t.min_key i)) (r.index ∙ ap (λ pages. index_from 1 pages) e)
      ∙ ap (λ k. page_before (upper_bound k (index_from 1 (p ∷ ps)))) key
      ∙ front_place 1 p ps ne (subst (λ m. Ascending m) (sym whole) r.ascending) in
    let l = Located-in t entries r t.min_key p ps e in
    let at : some p ≡ some l.page = subst (λ i. get_elem? (p ∷ ps) i ≡ some l.page) first l.at in
    let page : l.page ≡ p = cc in
    let all = from_low start p (concat ps) ne.0 (subst (λ k. ltb_ℤ start k ≡ true) key low) in
    ap (λ q. walk t place (from start q)) (fetched t entries r t.min_key p ps place e l ∙ page)
    ∙ ap (λ found. walk t place found) all.0
    ∙ ap (λ i. walk t i p) first
    ∙ walk-split t entries r 0 p ps (ap (λ pages. drop 1 pages) e)
        (λ nil. let n = ap (λ m. length m) (sym whole ∙ nil) in omega (arith, n, h))
    ∙ sym all.1
    ∙ ap (λ m. from start m) whole

-- The iterator from a key of the table's range or below it.
in_range :
    (t : SsTable) (entries : Entries) (r : Represents t entries) (start : ℤ)
    → 1 ≤ length entries
    → ltb_ℤ (back_key entries) start ≡ false
    → (let place = find_page_pos t (max_ℤ start t.min_key) in
        walk t place (from start (fetch t.file (indexed_id t.sparse_index place))))
      ≡ from start entries
in_range t entries r start h inside =
    let (p, (ps, e)) = pages_cons r.pages entries r.whole h in
    let key = max_ℤ start t.min_key in
    let place = find_page_pos t key in
    let l = Located-in t entries r key p ps e in
    let whole : p ++ concat ps ≡ entries = sym (ap (λ pages. concat pages) e) ∙ r.whole in
    elim (Bool-cases (ltb_ℤ start t.min_key)) [
      | inl low ↦
          let same : key ≡ t.min_key = rw low refl in
          ap
            (λ k.
              walk t (find_page_pos t k)
                (from start (fetch t.file (indexed_id t.sparse_index (find_page_pos t k)))))
            same
          ∙ below_range t entries r start p ps e whole h low
      | inr at_least ↦
          let same : key ≡ start = rw at_least refl in
          let split : from start entries ≡ from start l.page ++ concat (drop place ps) =
            ap (λ m. from start m) (sym whole)
            ∙ ap (λ k. from k (p ++ concat ps)) (sym same)
            ∙ l.split
            ∙ ap (λ k. from k l.page ++ concat (drop place ps)) same in
          ap (λ page. walk t place (from start page)) (fetched t entries r key p ps place e l)
          ∙ walk-split t entries r place (from start l.page) (drop place ps)
              (ap (λ pages. drop (suc place) pages) e)
              (λ nil. from_ne_nil start entries inside h (split ∙ nil))
          ∙ sym split
    ]

-- The iterator yields exactly the entries from the start key on.
pub new_iterator-from :
    (t : SsTable) (entries : Entries) (start : ℤ)
    → Represents t entries
    → new_iterator t start ≡ from start entries
unfolding new_iterator
new_iterator-from t entries start r = elim (Bool-cases (t.num_entries == 0)) [
  | inl empty ↦
      rw empty
        (sym (from_of_empty entries (omega (arith, (==_iff t.num_entries 0).0 empty, r.counted))))
  | inr filled ↦ elim (Bool-cases (ltb_ℤ t.max_key start)) [
    | inl past ↦
        rw (filled, past)
          (sym (
            from_past_back start entries r.ascending
              (subst (λ j. ltb_ℤ j start ≡ true) r.last past)))
    | inr inside ↦
        let some_entry : 1 ≤ t.num_entries = ground arith in
        rw (filled, inside)
          (in_range t entries r start (omega (arith, some_entry, r.counted))
            (subst (λ j. ltb_ℤ j start ≡ false) r.last inside))
  ]
]
  where
    from_of_empty : (m : Entries) → length m ≡ 0 → from start m ≡ []
    from_of_empty [] e = refl
    from_of_empty (entry ∷ m) e = absurd (omega arith)
