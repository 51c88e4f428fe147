-- ===== src/Lsm/Table.antt =====
-- `SSTable::Build` and `SSTable::Open` of lsm/sstable.cpp. A file is the list of its pages; the page
-- id of a page is its place.
pub mod Lookup
pub mod Pages
pub mod Contents
pub mod Iterate
pub mod Format
pub mod Reopen
use cpp_database_engine.Common.{
  ℕ, zero, suc, ◌+◌, ◌-◌, Bool, true, false, not, ◌&&◌, ◌||◌, ◌==◌, ltb, leb, Option, none, some,
  List, [], ◌∷◌, ◌++◌, map, length, take, get_elem?, replicate, if◌then◌else◌,
}
use cpp_database_engine.Common.Chunks.{chunks}
use cpp_database_engine.Common.Int.{ℤ, pos, ltb_ℤ, eqb_ℤ, max_ℤ}
use cpp_database_engine.Common.SortedMap.{from}
use cpp_database_engine.Lsm.Value.{LsmValue, Entries}
use cpp_database_engine.Lsm.Bloom.{BloomFilter, might_contain}
use cpp_database_engine.Lsm.Bloom.NoFalseNegatives.{add_all}

-- `kMaxEntriesPerDataPage`: a `DataEntry` takes 80 bytes of the 4,096 - 8.
abbrev pub max_entries_per_data_page : ℕ
max_entries_per_data_page = 51

-- `kMaxIndexEntriesPerPage`: an `IndexEntry` takes 16 bytes.
abbrev pub max_index_entries_per_page : ℕ
max_index_entries_per_page = 255

abbrev pub page_size : ℕ
page_size = 4096

-- A page id is `none` where the source has `INVALID_PAGE_ID`.
pub record HeaderPage : Type 0 where
  pub num_entries : ℕ
  pub min_key : ℤ
  pub max_key : ℤ
  pub num_data_pages : ℕ
  pub first_data_page_id : Option ℕ
  pub num_index_entries : ℕ
  pub first_index_page_id : Option ℕ
  pub bloom_num_bytes : ℕ
  pub bloom_num_bits : ℕ
  pub bloom_num_hashes : ℕ
  pub first_bloom_page_id : Option ℕ

pub data SstPage : Type 0 where
  header_page : HeaderPage → SstPage
  data_page : Entries → SstPage
  index_page : List (ℤ × ℕ) → SstPage
  bloom_page : List ℕ → SstPage

-- The check that throws `invalid_argument`: `MAX_VALUE_SIZE` is 64.
unfoldable pub values_fit : Entries → Bool
values_fit [] = true
values_fit ((key, v) ∷ entries) = leb (length v.value) 64 && values_fit entries

abbrev pub keys_of : Entries → List ℤ
keys_of [] = []
keys_of ((key, v) ∷ entries) = key ∷ keys_of entries

-- The filter with every key added; `blank` makes an empty one for a number of keys.
unfoldable pub bloom_of : (ℕ → BloomFilter) → Entries → BloomFilter
bloom_of blank entries =
    let expected = length entries in
    add_all (blank (if leb 1 expected then expected else 1)) (keys_of entries)

-- `index`: the first key of each data page with its page id, from `pid` on.
unfoldable pub index_from : ℕ → List Entries → List (ℤ × ℕ)
index_from pid [] = []
index_from pid ([] ∷ pages) = index_from (suc pid) pages
index_from pid (((key, v) ∷ page) ∷ pages) = (key, pid) ∷ index_from (suc pid) pages

-- The id of the first of the pages that are allocated from `pid` on.
unfoldable pub first_id {ℓ} : {A : Type ℓ} → ℕ → List A → Option ℕ
first_id pid [] = none
first_id pid (page ∷ pages) = some pid

-- `entries.front().first` and `entries.back().first`, or 0.
unfoldable pub front_key : Entries → ℤ
front_key [] = pos 0
front_key ((key, v) ∷ entries) = key

unfoldable pub back_key : Entries → ℤ
back_key [] = pos 0
back_key ((key, v) ∷ []) = key
back_key ((key, v) ∷ entry ∷ entries) = back_key (entry ∷ entries)

-- A `char buf[PAGE_SIZE] = {0}` with the bytes at its start.
unfoldable pub padded : List ℕ → List ℕ
padded bytes = bytes ++ replicate (page_size - length bytes) 0

-- The header that `Build` writes last, to page 0.
unfoldable pub header_of : BloomFilter → Entries → HeaderPage
header_of bloom entries =
    let data_pages = chunks (length entries) max_entries_per_data_page entries in
    let index = index_from 1 data_pages in
    let index_pages = chunks (length index) max_index_entries_per_page index in
    let bloom_pages = chunks (length bloom.bits) page_size bloom.bits in
    record {
      num_entries = length entries;
      min_key = front_key entries;
      max_key = back_key entries;
      num_data_pages = length data_pages;
      first_data_page_id = first_id 1 data_pages;
      num_index_entries = length index;
      first_index_page_id = first_id (1 + length data_pages) index_pages;
      bloom_num_bytes = length bloom.bits;
      bloom_num_bits = bloom.num_bits;
      bloom_num_hashes = bloom.num_hashes;
      first_bloom_page_id = first_id (1 + length data_pages + length index_pages) bloom_pages;
    }

-- The pages of the file: the header, then the pages of the data, of the index and of the filter.
unfoldable pub pages_of : BloomFilter → Entries → List SstPage
pages_of bloom entries =
    let data_pages = chunks (length entries) max_entries_per_data_page entries in
    let index = index_from 1 data_pages in
    let index_pages = chunks (length index) max_index_entries_per_page index in
    let bloom_pages = chunks (length bloom.bits) page_size bloom.bits in
    header_page (header_of bloom entries)
    ∷ (map data_page data_pages
        ++ (map index_page index_pages ++ map (λ bytes. bloom_page (padded bytes)) bloom_pages))

-- `SSTable::Build`: the file, or `none` where it throws.
unfoldable pub build : (ℕ → BloomFilter) → Entries → Option (List SstPage)
build blank entries =
    if values_fit entries then some (pages_of (bloom_of blank entries) entries) else none

pub record SsTable : Type 0 where
  pub file : List SstPage
  pub num_entries : ℕ
  pub min_key : ℤ
  pub max_key : ℤ
  pub num_data_pages : ℕ
  pub first_data_page_id : Option ℕ
  pub sparse_index : List (ℤ × ℕ)
  pub bloom : BloomFilter

-- The entries of the index page at `pid`; a page of another kind, which is not read here, has none.
unfoldable pub index_at : List SstPage → ℕ → List (ℤ × ℕ)
index_at file pid = elim (get_elem? file pid) [
  | none ↦ []
  | some page ↦ elim page [
    | header_page h ↦ []
    | data_page entries ↦ []
    | index_page entries ↦ entries
    | bloom_page bytes ↦ []
  ]
]

-- The loop of `Open` that reads the index, at most `fuel` pages of it.
unfoldable pub read_index : ℕ → List SstPage → ℕ → ℕ → List (ℤ × ℕ)
read_index zero file remaining pid = []
read_index (suc fuel) file zero pid = []
read_index (suc fuel) file (suc remaining) pid =
    let entries = index_at file pid in
    entries ++ read_index fuel file (suc remaining - length entries) (suc pid)

-- The bytes of the filter's page at `pid`; a page of another kind, which is not read here, has none.
unfoldable pub bloom_at : List SstPage → ℕ → List ℕ
bloom_at file pid = elim (get_elem? file pid) [
  | none ↦ []
  | some page ↦ elim page [
    | header_page h ↦ []
    | data_page entries ↦ []
    | index_page entries ↦ []
    | bloom_page bytes ↦ bytes
  ]
]

-- The loop of `Open` that reads the bytes of the filter, of which `missing` are left to read.
unfoldable pub read_bloom : ℕ → List SstPage → ℕ → ℕ → List ℕ
read_bloom zero file missing pid = []
read_bloom (suc fuel) file zero pid = []
read_bloom (suc fuel) file (suc missing) pid =
    let chunk = if leb (suc missing) page_size then suc missing else page_size in
    take chunk (bloom_at file pid) ++ read_bloom fuel file (suc missing - chunk) (suc pid)

-- A loop that starts at an invalid page id has nothing to read.
unfoldable pub start_id : Option ℕ → ℕ
start_id none = 0
start_id (some pid) = pid

-- The table that `Open` makes of a file with this header.
unfoldable pub table_of : List SstPage → HeaderPage → SsTable
table_of file h = record {
  file = file;
  num_entries = h.num_entries;
  min_key = h.min_key;
  max_key = h.max_key;
  num_data_pages = h.num_data_pages;
  first_data_page_id = h.first_data_page_id;
  sparse_index =
      read_index h.num_index_entries file h.num_index_entries (start_id h.first_index_page_id);
  bloom = record {
    bits = read_bloom h.bloom_num_bytes file h.bloom_num_bytes (start_id h.first_bloom_page_id);
    num_bits = h.bloom_num_bits;
    num_hashes = h.bloom_num_hashes;
  };
}

-- `SSTable::Open`; a file whose first page is no header is not one that `Build` wrote.
unfoldable pub open_file : List SstPage → Option SsTable
open_file [] = none
open_file (header_page h ∷ pages) = some (table_of (header_page h ∷ pages) h)
open_file (data_page entries ∷ pages) = none
open_file (index_page entries ∷ pages) = none
open_file (bloom_page bytes ∷ pages) = none
