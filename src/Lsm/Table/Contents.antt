-- ===== src/Lsm/Table/Contents.antt =====
-- What `SSTable::Get` and `SSTable::NewIterator` (lsm/sstable.cpp) promise of a table that holds given
-- entries.
use cpp_database_engine.Common.{
  ℕ, ◌≤◌, ◌≡◌, refl, sym, ap, subst, ◌∙◌, inl, inr, Bool, true, false, none, some, List, [], ◌∷◌,
  ◌++◌, ◌||◌, ◌==◌, ==_iff, ◌⊎◌, Option-cases, map, arith, Bool-cases, length, drop, get_elem?,
  if◌then◌else◌,
}
use cpp_database_engine.Common.Chunks.{concat, AllNonempty, lt_of_get_elem?}
use cpp_database_engine.Common.Int.{ℤ, ltb_ℤ, eqb_ℤ, ◌<ℤ◌}
use cpp_database_engine.Common.SortedMap.{lookup, from, Ascending, Above-trans, lookup_of_Above}
use cpp_database_engine.Lsm.Value.{LsmValue, Entries}
use cpp_database_engine.Lsm.Bloom.{might_contain}
use cpp_database_engine.Lsm.Table.{
  SsTable, SstPage, data_page, index_from, front_key, back_key, start_id,
}
use cpp_database_engine.Lsm.Table.Lookup.{
  table_might_contain, upper_bound, page_before, find_page_pos, indexed_id, fetch, found_at,
  table_get,
}
use cpp_database_engine.Lsm.Table.Pages.{
  Located, located, indexed_id-index_from, fetch-page, found_at-from, found_at-append,
}

-- The open table holds these entries, in these data pages.
pub record Represents (t : SsTable) (entries : Entries) : Type 0 where
  pub pages : List Entries
  pub suffix : List SstPage
  pub whole : concat pages ≡ entries
  pub nonempty : AllNonempty pages
  pub ascending : Ascending entries
  pub counted : t.num_entries ≡ length entries
  pub first : t.min_key ≡ front_key entries
  pub last : t.max_key ≡ back_key entries
  pub data_pages : t.num_data_pages ≡ length pages
  pub first_page : 1 ≤ length pages → start_id t.first_data_page_id ≡ 1
  pub index : t.sparse_index ≡ index_from 1 pages
  pub stored_pages : drop 1 t.file ≡ map data_page pages ++ suffix
  pub no_false_negatives :
      (k : ℤ) (v : LsmValue) → lookup k entries ≡ some v → might_contain t.bloom k ≡ true

pub front_before :
    (k j : ℤ) (w : LsmValue) (m : Entries)
    → Ascending ((j, w) ∷ m)
    → ltb_ℤ (back_key ((j, w) ∷ m)) k ≡ true
    → j <ℤ k
unfolding back_key
front_before k j w [] s h = ground arith
front_before k j w ((i, x) ∷ m) s h =
    let ih : i <ℤ k = front_before k i x m s.1 h in let here : j <ℤ i = s.0.0 in omega arith

pub lookup_past_back :
    (k : ℤ) (m : Entries) → Ascending m → ltb_ℤ (back_key m) k ≡ true → lookup k m ≡ none
unfolding back_key
lookup_past_back k [] s h = refl
lookup_past_back k ((j, w) ∷ []) s h = let ne : eqb_ℤ j k ≡ false = ground arith in rw ne refl
lookup_past_back k ((j, w) ∷ (i, x) ∷ m) s h =
    let early : j <ℤ k = front_before k j w ((i, x) ∷ m) s h in
    let ne : eqb_ℤ j k ≡ false = ground arith in rw ne (lookup_past_back k ((i, x) ∷ m) s.1 h)

lookup_before_front :
    (k : ℤ) (m : Entries) → Ascending m → ltb_ℤ k (front_key m) ≡ true → lookup k m ≡ none
unfolding front_key
lookup_before_front k [] s h = refl
lookup_before_front k ((j, w) ∷ m) s h =
    lookup_of_Above k ((j, w) ∷ m) (ground arith, Above-trans k j m (ground arith) s.0)

-- The ways in which `MightContain` turns a key away.
turned_away :
    (empty low high maybe : Bool)
    → (if (empty || low) || high then false else maybe) ≡ false
    → (empty ≡ true) ⊎ ((low ≡ true) ⊎ ((high ≡ true) ⊎ (maybe ≡ false)))
turned_away empty low high maybe h = ground arith

-- Where the filter and the key range turn the key away, the table does not hold it.
filtered :
    (t : SsTable) (entries : Entries) (k : ℤ)
    → Represents t entries
    → table_might_contain t k ≡ false
    → lookup k entries ≡ none
unfolding table_might_contain
filtered t entries k r h =
    elim (turned_away (t.num_entries == 0) (ltb_ℤ k t.min_key) (ltb_ℤ t.max_key k)
      (might_contain t.bloom k) h) [
        | inl empty ↦
            lookup_of_empty entries (omega (arith, (==_iff t.num_entries 0).0 empty, r.counted))
        | inr (inl low) ↦
            lookup_before_front k entries r.ascending (subst (λ j. ltb_ℤ k j ≡ true) r.first low)
        | inr (inr (inl high)) ↦
            lookup_past_back k entries r.ascending (subst (λ j. ltb_ℤ j k ≡ true) r.last high)
        | inr (inr (inr absent)) ↦ elim (Option-cases (lookup k entries)) [
          | inl e ↦ e
          | inr (v, e) ↦ let clash = sym absent ∙ r.no_false_negatives k v e in absurd (cc)
        ]
      ]
  where
    lookup_of_empty : (m : Entries) → length m ≡ 0 → lookup k m ≡ none
    lookup_of_empty [] e = refl
    lookup_of_empty (entry ∷ m) e = absurd (omega arith)

-- A table with an entry has a page.
pub pages_cons :
    (pages : List Entries) (entries : Entries)
    → concat pages ≡ entries
    → 1 ≤ length entries
    → (p : Entries) × ((ps : List Entries) × (pages ≡ p ∷ ps))
pages_cons [] entries e h = let l = ap (λ m. length m) e in absurd (omega (arith, l, h))
pages_cons (p ∷ ps) entries e h = (p, (ps, refl))

-- What is read at the located page.
pub fetched :
    (t : SsTable) (entries : Entries) (r : Represents t entries) (key : ℤ) (p : Entries)
    (ps : List Entries) (place : ℕ)
    → r.pages ≡ p ∷ ps
    → (l : Located key p ps place) → fetch t.file (indexed_id t.sparse_index place) ≡ l.page
fetched t entries r key p ps place e l =
    let at : get_elem? r.pages place ≡ some l.page = rw e l.at in
    ap (λ index. fetch t.file (indexed_id index place)) r.index
    ∙ ap (λ pid. fetch t.file pid)
        (indexed_id-index_from 1 r.pages place r.nonempty (lt_of_get_elem? r.pages place l.page at))
    ∙ fetch-page 1 t.file r.suffix r.pages place l.page r.stored_pages at

-- The page of the key, in a table with an entry.
pub Located-in :
    (t : SsTable) (entries : Entries) (r : Represents t entries) (key : ℤ) (p : Entries)
    (ps : List Entries)
    → r.pages ≡ p ∷ ps
    → Located key p ps (find_page_pos t key)
unfolding find_page_pos
Located-in t entries r key p ps e =
    let index : t.sparse_index ≡ index_from 1 (p ∷ ps) =
      r.index ∙ ap (λ pages. index_from 1 pages) e in
    subst (λ i. Located key p ps (page_before (upper_bound key i))) (sym index)
      (located key 1 p ps (subst (λ pages. AllNonempty pages) e r.nonempty)
        (subst (λ m. Ascending m) (sym r.whole ∙ ap (λ pages. concat pages) e) r.ascending))

get_of_pages :
    (t : SsTable) (entries : Entries) (r : Represents t entries) (k : ℤ)
    → 1 ≤ length entries
    → found_at k (from k (fetch t.file (indexed_id t.sparse_index (find_page_pos t k))))
      ≡ lookup k entries
get_of_pages t entries r k h =
    let (p, (ps, e)) = pages_cons r.pages entries r.whole h in
    let l = Located-in t entries r k p ps e in
    let whole : p ++ concat ps ≡ entries = sym (ap (λ pages. concat pages) e) ∙ r.whole in
    ap (λ page. found_at k (from k page)) (fetched t entries r k p ps (find_page_pos t k) e l)
    ∙ sym (found_at-append k (from k l.page) (concat (drop (find_page_pos t k) ps)) l.above)
    ∙ ap (λ m. found_at k m) (sym l.split)
    ∙ ap (λ m. found_at k (from k m)) whole
    ∙ found_at-from k entries r.ascending

maybe_nonempty : (t : SsTable) (k : ℤ) → table_might_contain t k ≡ true → 1 ≤ t.num_entries
unfolding table_might_contain
maybe_nonempty t k h = ground arith

-- `Get` finds in a table exactly what its entries have for the key.
pub table_get-lookup :
    (t : SsTable) (entries : Entries) (k : ℤ)
    → Represents t entries
    → table_get t k ≡ lookup k entries
unfolding table_get
table_get-lookup t entries k r = elim (Bool-cases (table_might_contain t k)) [
  | inl e ↦ rw e (get_of_pages t entries r k (omega (arith, maybe_nonempty t k e, r.counted)))
  | inr e ↦ rw e (sym (filtered t entries k r e))
]
