-- ===== src/Lsm/Table/Lookup.antt =====
-- The reads of class `SSTable` (lsm/sstable.cpp). `FetchPage` is a read of the file, since a table is
-- never written again.
use cpp_database_engine.Common.{
  ℕ, zero, suc, ◌+◌, Bool, false, ◌||◌, ◌==◌, ltb, Option, none, some, List, [], ◌∷◌, ◌++◌,
  get_elem?, if◌then◌else◌,
}
use cpp_database_engine.Common.Int.{ℤ, ltb_ℤ, eqb_ℤ, max_ℤ}
use cpp_database_engine.Common.SortedMap.{from}
use cpp_database_engine.Lsm.Value.{LsmValue, Entries}
use cpp_database_engine.Lsm.Bloom.{might_contain}
use cpp_database_engine.Lsm.Table.{
  SsTable, SstPage, header_page, data_page, index_page, bloom_page, start_id,
}

-- `SSTable::MightContain`
unfoldable pub table_might_contain : SsTable → ℤ → Bool
table_might_contain t key =
    if (t.num_entries == 0 || ltb_ℤ key t.min_key) || ltb_ℤ t.max_key key
    then false
    else might_contain t.bloom key

-- `std::upper_bound` on the sparse index: the number of entries before the first one above the key.
unfoldable pub upper_bound : ℤ → List (ℤ × ℕ) → ℕ
upper_bound key [] = 0
upper_bound key ((first, pid) ∷ index) = if ltb_ℤ key first then 0 else suc (upper_bound key index)

unfoldable pub page_before : ℕ → ℕ
page_before zero = zero
page_before (suc n) = n

-- `SSTable::FindPagePos`
unfoldable pub find_page_pos : SsTable → ℤ → ℕ
find_page_pos t key = page_before (upper_bound key t.sparse_index)

-- `sparse_index_[pos].second`
unfoldable pub indexed_id : List (ℤ × ℕ) → ℕ → ℕ
indexed_id [] pos = 0
indexed_id ((first, pid) ∷ index) zero = pid
indexed_id ((first, pid) ∷ index) (suc pos) = indexed_id index pos

-- `FetchPage` of a data page; a page of another kind, which is not read here, has no entries.
unfoldable pub fetch : List SstPage → ℕ → Entries
fetch file pid = elim (get_elem? file pid) [
  | none ↦ []
  | some page ↦ elim page [
    | header_page h ↦ []
    | data_page entries ↦ entries
    | index_page entries ↦ []
    | bloom_page bytes ↦ []
  ]
]

-- The test at the place that `std::lower_bound` found.
unfoldable pub found_at : ℤ → Entries → Option LsmValue
found_at key [] = none
found_at key ((k, v) ∷ entries) = if eqb_ℤ k key then some v else none

-- `SSTable::Get`; `from key` is what `std::lower_bound` leaves of the page.
unfoldable pub table_get : SsTable → ℤ → Option LsmValue
table_get t key =
    if table_might_contain t key
    then found_at key (from key (fetch t.file (indexed_id t.sparse_index (find_page_pos t key))))
    else none

-- The entries that `Iterator::Next` reaches from the start of the page at `page_pos`.
unfoldable pub pages_from : ℕ → SsTable → ℕ → Entries
pages_from zero t page_pos = []
pages_from (suc fuel) t page_pos =
    let later = pages_from fuel t (suc page_pos) in
    if ltb page_pos t.num_data_pages
    then fetch t.file (start_id t.first_data_page_id + page_pos) ++ later
    else []

-- Behind the lower bound in the page: where that is the end of the page, the next page is fetched.
unfoldable pub walk : SsTable → ℕ → Entries → Entries
walk t page_pos [] =
    fetch t.file (start_id t.first_data_page_id + suc page_pos)
    ++ pages_from t.num_data_pages t (suc (suc page_pos))
walk t page_pos (entry ∷ entries) =
    (entry ∷ entries) ++ pages_from t.num_data_pages t (suc page_pos)

-- `SSTable::NewIterator`, as the list of the entries that the iterator yields.
unfoldable pub new_iterator : SsTable → ℤ → Entries
new_iterator t start_key =
    if t.num_entries == 0 || ltb_ℤ t.max_key start_key
    then []
    else (let page_pos = find_page_pos t (max_ℤ start_key t.min_key) in
        walk t page_pos (from start_key (fetch t.file (indexed_id t.sparse_index page_pos))))
