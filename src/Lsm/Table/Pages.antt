-- ===== src/Lsm/Table/Pages.antt =====
-- Finding the page of a key by the sparse index (`SSTable::FindPagePos` of lsm/sstable.cpp).
use cpp_database_engine.Common.{
  ℕ, zero, suc, ◌+◌, ◌<◌, ◌≡◌, refl, sym, ap, ◌∙◌, inl, inr, true, false, Option, none, some, List,
  [], ◌∷◌, ◌++◌, map, arith, Bool-cases, length, drop, get_elem?,
}
use cpp_database_engine.Common.Chunks.{concat, AllNonempty, get_elem?_of_drop, drop-suc_of_drop}
use cpp_database_engine.Common.Int.{ℤ, ltb_ℤ, eqb_ℤ}
use cpp_database_engine.Common.SortedMap.{
  lookup, from, Above, Ascending, Above-trans, lookup_of_Above,
}
use cpp_database_engine.Common.Ranges.{
  Above-append_right, Ascending-append_right, from-append, from-skip,
}
use cpp_database_engine.Lsm.Value.{LsmValue, Entries}
use cpp_database_engine.Lsm.Table.{
  SstPage, header_page, data_page, index_page, bloom_page, index_from,
}
use cpp_database_engine.Lsm.Table.Lookup.{upper_bound, page_before, indexed_id, fetch, found_at}

-- The page at the place, and what it says of the keys from `key` on.
pub record Located (key : ℤ) (p : Entries) (ps : List Entries) (place : ℕ) : Type 0 where
  pub page : Entries
  pub at : get_elem? (p ∷ ps) place ≡ some page
  pub split : from key (p ++ concat ps) ≡ from key page ++ concat (drop place ps)
  pub above : Above key (concat (drop place ps))

pub upper_bound_zero :
    (key : ℤ) (pid : ℕ) (pages : List Entries)
    → AllNonempty pages
    → Above key (concat pages)
    → upper_bound key (index_from pid pages) ≡ 0
unfolding upper_bound index_from
upper_bound_zero key pid [] h a = refl
upper_bound_zero key pid ([] ∷ pages) h a = absurd (omega (arith, h.0))
upper_bound_zero key pid (((k, v) ∷ page) ∷ pages) h a =
    let first : ltb_ℤ key k ≡ true = ground arith in rw first refl

-- The page that starts last among those that start at the key or before it.
Located-after :
    (key : ℤ) (pid : ℕ) (j : ℤ) (w : LsmValue) (p : Entries) (ps : List Entries)
    → AllNonempty ps
    → Ascending (((j, w) ∷ p) ++ concat ps)
    → ltb_ℤ key j ≡ false
    → Located key ((j, w) ∷ p) ps (upper_bound key (index_from pid ps))
unfolding upper_bound index_from
Located-after key pid j w p [] ne s h = record {
  page = (j, w) ∷ p;
  at = refl;
  split = from-append key ((j, w) ∷ p) [] tt;
  above = tt;
}
Located-after key pid j w p ([] ∷ ps) ne s h = absurd (omega (arith, ne.0))
Located-after key pid j w p (((k, v) ∷ q) ∷ ps) ne s h =
    let rest = ((k, v) ∷ q) ++ concat ps in
    let s' : Ascending rest = Ascending-append_right ((j, w) ∷ p) rest s in
    elim (Bool-cases (ltb_ℤ key k)) [
      | inl past ↦
          let above : Above key rest =
            (ground arith, Above-trans key k (q ++ concat ps) (ground arith) s'.0) in
          rw past (record {
            page = (j, w) ∷ p;
            at = refl;
            split = from-append key ((j, w) ∷ p) rest above;
            above = above;
          })
      | inr not_yet ↦
          let l : Located key ((k, v) ∷ q) ps (upper_bound key (index_from (suc pid) ps)) =
            Located-after key (suc pid) k v q ps ne.1 s' not_yet in
          rw not_yet (record {
            page = l.page;
            at = l.at;
            split = from-skip key k v ((j, w) ∷ p) (q ++ concat ps) s not_yet ∙ l.split;
            above = l.above;
          })
    ]

pub located :
    (key : ℤ) (pid : ℕ) (p : Entries) (ps : List Entries)
    → AllNonempty (p ∷ ps)
    → Ascending (p ++ concat ps)
    → Located key p ps (page_before (upper_bound key (index_from pid (p ∷ ps))))
unfolding upper_bound index_from page_before
located key pid [] ps ne s = absurd (omega (arith, ne.0))
located key pid ((j, w) ∷ p) ps ne s = elim (Bool-cases (ltb_ℤ key j)) [
  | inl early ↦
      let above : Above key (((j, w) ∷ p) ++ concat ps) =
        (ground arith, Above-trans key j (p ++ concat ps) (ground arith) s.0) in
      rw early (record {
        page = (j, w) ∷ p;
        at = refl;
        split =
            from-append key ((j, w) ∷ p) (concat ps)
              (Above-append_right key ((j, w) ∷ p) (concat ps) above);
        above = Above-append_right key ((j, w) ∷ p) (concat ps) above;
      })
  | inr late ↦ rw late (Located-after key (suc pid) j w p ps ne.1 s late)
]

-- The id that the index has for a page.
pub indexed_id-index_from :
    (pid : ℕ) (pages : List Entries) (i : ℕ)
    → AllNonempty pages
    → i < length pages
    → indexed_id (index_from pid pages) i ≡ pid + i
unfolding indexed_id index_from
indexed_id-index_from pid [] i ne h = absurd (omega arith)
indexed_id-index_from pid ([] ∷ pages) i ne h = absurd (omega (arith, ne.0))
indexed_id-index_from pid (((k, v) ∷ page) ∷ pages) zero ne h = omega arith
indexed_id-index_from pid (((k, v) ∷ page) ∷ pages) (suc i) ne h =
    indexed_id-index_from (suc pid) pages i ne.1 (omega arith) ∙ omega arith

fetch_of_page :
    (file : List SstPage) (pid : ℕ) (p : Entries)
    → get_elem? file pid ≡ some (data_page p)
    → fetch file pid ≡ p
unfolding fetch
fetch_of_page file pid p e =
    let entries : SstPage → Entries = λ page. elim page [
      | header_page h ↦ []
      | data_page entries ↦ entries
      | index_page entries ↦ []
      | bloom_page bytes ↦ []
    ] in
    let read : Option SstPage → Entries = λ o. elim o [ none ↦ [] | some page ↦ entries page ] in
    ap read e

-- The data page that was written at the place.
pub fetch-page :
    (d : ℕ) (file suffix : List SstPage) (pages : List Entries) (i : ℕ) (page : Entries)
    → drop d file ≡ map data_page pages ++ suffix
    → get_elem? pages i ≡ some page
    → fetch file (d + i) ≡ page
fetch-page d file suffix [] i page h at = cc
fetch-page d file suffix (p ∷ pages) zero page h at =
    let same : p ≡ page = cc in
    ap (λ pid. fetch file pid) (omega arith)
    ∙ fetch_of_page file d p
        (get_elem?_of_drop d file (map data_page pages ++ suffix) (data_page p) h)
    ∙ same
fetch-page d file suffix (p ∷ pages) (suc i) page h at =
    ap (λ pid. fetch file pid) (omega arith)
    ∙ fetch-page (suc d) file suffix pages i page
        (drop-suc_of_drop d file (map data_page pages ++ suffix) (data_page p) h) at

-- The lower bound has the key where the map has it.
pub found_at-from : (k : ℤ) (m : Entries) → Ascending m → found_at k (from k m) ≡ lookup k m
unfolding found_at
found_at-from k [] s = refl
found_at-from k ((j, w) ∷ m) s = elim (Bool-cases (ltb_ℤ j k)) [
  | inl e ↦ let ne : eqb_ℤ j k ≡ false = ground arith in rw e (rw ne (found_at-from k m s.1))
  | inr e ↦ rw e (elim (Bool-cases (eqb_ℤ j k)) [
    | inl same ↦ rw same refl
    | inr apart ↦ rw apart (sym (lookup_of_Above k m (Above-trans k j m (ground arith) s.0)))
  ])
]

pub found_at-append : (k : ℤ) (m n : Entries) → Above k n → found_at k (m ++ n) ≡ found_at k m
unfolding found_at
found_at-append k [] [] a = refl
found_at-append k [] ((j, w) ∷ n) a = let ne : eqb_ℤ j k ≡ false = ground arith in rw ne refl
found_at-append k ((j, w) ∷ m) n a = refl
