-- ===== src/Lsm/Table/Reopen.antt =====
-- Writing a table and opening it again (lsm/sstable.cpp).
use cpp_database_engine.Common.{
  ℕ, suc, ◌+◌, ◌≡◌, refl, sym, ap, ◌∙◌, true, some, List, [], ◌∷◌, ◌++◌, map, arith, length, drop,
}
use cpp_database_engine.Common.Chunks.{
  chunks, concat, concat-chunks, chunks-AllNonempty, length_le_concat,
}
use cpp_database_engine.Common.Int.{ℤ}
use cpp_database_engine.Common.SortedMap.{Ascending, lookup, from}
use cpp_database_engine.Lsm.Value.{Entries}
use cpp_database_engine.Lsm.Bloom.{BloomFilter, new_filter, might_contain}
use cpp_database_engine.Lsm.Bloom.NoFalseNegatives.{IsSized, new_filter-IsSized}
use cpp_database_engine.Lsm.Table.{
  SsTable, SstPage, data_page, index_page, bloom_page, page_size, values_fit, bloom_of, header_of,
  index_from, first_id, padded, pages_of, build, read_index, start_id, table_of, open_file,
}
use cpp_database_engine.Lsm.Table.Lookup.{table_get, new_iterator}
use cpp_database_engine.Lsm.Table.Contents.{Represents, table_get-lookup}
use cpp_database_engine.Lsm.Table.Iterate.{new_iterator-from}
use cpp_database_engine.Lsm.Table.Format.{
  index_read, bloom_read, bloom_of_keys, length-map, drop_append, start_id-first_id,
}

-- The parts of the file.
abbrev data_pages_of : Entries → List Entries
data_pages_of entries = chunks (length entries) 51 entries

abbrev index_of : Entries → List (ℤ × ℕ)
index_of entries = index_from 1 (data_pages_of entries)

abbrev index_pages_of : Entries → List (List (ℤ × ℕ))
index_pages_of entries = chunks (length (index_of entries)) 255 (index_of entries)

abbrev bloom_pages_of : BloomFilter → List SstPage
bloom_pages_of bloom =
    map (λ bytes. bloom_page (padded bytes)) (chunks (length bloom.bits) page_size bloom.bits)

abbrev index_start : Entries → ℕ
index_start entries = 1 + length (data_pages_of entries)

abbrev bloom_start : Entries → ℕ
bloom_start entries = index_start entries + length (index_pages_of entries)

append_nil : (pages : List SstPage) → pages ++ [] ≡ pages
append_nil [] = refl
append_nil (p ∷ pages) = ap (λ l. p ∷ l) (append_nil pages)

drop-suc :
    (n m : ℕ) (p : SstPage) (pages : List SstPage) → n ≡ suc m → drop n (p ∷ pages) ≡ drop m pages
drop-suc n m p pages e = ap (λ k. drop k (p ∷ pages)) e

drop_two :
    (a b : List SstPage) (rest : List SstPage)
    → drop (length a + length b) (a ++ (b ++ rest)) ≡ rest
drop_two [] b rest =
    let l : 0 + length b ≡ length b = omega arith in
    ap (λ k. drop k (b ++ rest)) l ∙ drop_append (length b) b rest refl
drop_two (p ∷ a) b rest =
    drop-suc (length (p ∷ a) + length b) (length a + length b) p (a ++ (b ++ rest)) (omega arith)
    ∙ drop_two a b rest

data_pages_at :
    (bloom : BloomFilter) (entries : Entries)
    → drop 1 (pages_of bloom entries)
      ≡ map data_page (data_pages_of entries)
        ++ (map index_page (index_pages_of entries) ++ bloom_pages_of bloom)
unfolding pages_of
data_pages_at bloom entries = refl

index_pages_at :
    (bloom : BloomFilter) (entries : Entries)
    → drop (index_start entries) (pages_of bloom entries)
      ≡ map index_page (index_pages_of entries) ++ bloom_pages_of bloom
unfolding pages_of
index_pages_at bloom entries =
    let pages = map data_page (data_pages_of entries) in
    drop-suc (index_start entries) (length (data_pages_of entries)) _ _ (omega arith)
    ∙ drop_append (length (data_pages_of entries)) pages _
        (length-map data_page (data_pages_of entries))

bloom_pages_at :
    (bloom : BloomFilter) (entries : Entries)
    → drop (bloom_start entries) (pages_of bloom entries) ≡ bloom_pages_of bloom ++ []
unfolding pages_of
bloom_pages_at bloom entries =
    let dp = map data_page (data_pages_of entries) in
    let ip = map index_page (index_pages_of entries) in
    let dl = length-map data_page (data_pages_of entries) in
    let il = length-map index_page (index_pages_of entries) in
    drop-suc (bloom_start entries) (length dp + length ip) _ _ (omega (arith, dl, il))
    ∙ drop_two dp ip (bloom_pages_of bloom)
    ∙ sym (append_nil (bloom_pages_of bloom))

index_whole : (entries : Entries) → concat (index_pages_of entries) ≡ index_of entries
index_whole entries = concat-chunks (length (index_of entries)) 254 (index_of entries) (omega arith)

index_reopened :
    (bloom : BloomFilter) (entries : Entries)
    → read_index
        (length (index_of entries))
        (pages_of bloom entries)
        (length (index_of entries))
        (start_id (first_id (index_start entries) (index_pages_of entries)))
      ≡ index_of entries
index_reopened bloom entries =
    let n = length (index_of entries) in
    let start = start_id (first_id (index_start entries) (index_pages_of entries)) in
    let whole = index_whole entries in
    let ne = chunks-AllNonempty n 254 (index_of entries) in
    let fits = length_le_concat (index_pages_of entries) ne in
    let l : length (concat (index_pages_of entries)) ≡ n = ap (λ i. length i) whole in
    ap (λ k. read_index n (pages_of bloom entries) k start) (sym l)
    ∙ index_read n (pages_of bloom entries) (bloom_pages_of bloom) (index_start entries)
        (index_pages_of entries) (index_pages_at bloom entries) ne (omega (arith, fits, l))
    ∙ whole

-- The open table holds the entries that were written.
reopened :
    (blank : ℕ → BloomFilter) (entries : Entries)
    → ((n : ℕ) → IsSized (blank n) (blank n).bits)
    → Ascending entries
    → Represents
        (table_of
          (pages_of (bloom_of blank entries) entries)
          (header_of (bloom_of blank entries) entries))
        entries
unfolding table_of header_of
reopened blank entries sized s =
    let bloom = bloom_of blank entries in
    let bits =
      bloom_read (pages_of bloom entries) [] (bloom_start entries) bloom.bits
        (bloom_pages_at bloom entries) in
    record {
      pages = data_pages_of entries;
      suffix = map index_page (index_pages_of entries) ++ bloom_pages_of bloom;
      whole = concat-chunks (length entries) 50 entries (omega arith);
      nonempty = chunks-AllNonempty (length entries) 50 entries;
      ascending = s;
      counted = refl;
      first = refl;
      last = refl;
      data_pages = refl;
      first_page = start_id-first_id 1 (data_pages_of entries);
      index = index_reopened bloom entries;
      stored_pages = data_pages_at bloom entries;
      no_false_negatives = λ k v e.
          ap
            (λ bytes.
              might_contain
                (record { bits = bytes; num_bits = bloom.num_bits; num_hashes = bloom.num_hashes })
                k)
            bits
          ∙ bloom_of_keys blank entries k v sized e;
    }

-- The file that is written, and the table that is opened.
pub open_file-build :
    (blank : ℕ → BloomFilter) (entries : Entries)
    → ((n : ℕ) → IsSized (blank n) (blank n).bits)
    → Ascending entries
    → values_fit entries ≡ true
    → (file : List SstPage) × ((t : SsTable) × ((build blank entries ≡ some file)
          × ((open_file file ≡ some t) × Represents t entries)))
unfolding build open_file pages_of
open_file-build blank entries sized s fits =
    let bloom = bloom_of blank entries in
    (
      pages_of bloom entries,
      (
        table_of (pages_of bloom entries) (header_of bloom entries),
        (rw fits refl, (refl, reopened blank entries sized s)),
      ),
    )

-- A table file answers as the entries that were written to it: for entries in ascending key order,
-- with each value within the maximum size, `Build` writes a file that `Open` accepts; of the open table
-- `Get` finds exactly what the entries have for a key, and the iterator from a key yields exactly the
-- entries from that key on.
pub table_get-build :
    (bits : ℕ → ℕ) (hashes : ℕ → ℕ → ℕ) (entries : Entries) (k : ℤ)
    → Ascending entries
    → values_fit entries ≡ true
    → (file : List SstPage) × ((t : SsTable) × ((build (new_filter bits hashes) entries ≡ some file)
          × ((open_file file ≡ some t)
              × ((table_get t k ≡ lookup k entries) × (new_iterator t k ≡ from k entries)))))
table_get-build bits hashes entries k s fits =
    let (file, (t, (built, (opened, r)))) =
      open_file-build (new_filter bits hashes) entries (new_filter-IsSized bits hashes) s fits in
    (
      file,
      (t, (built, (opened, (table_get-lookup t entries k r, new_iterator-from t entries k r)))),
    )
