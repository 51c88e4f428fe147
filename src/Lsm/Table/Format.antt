-- ===== src/Lsm/Table/Format.antt =====
-- `SSTable::Open` reads back what `SSTable::Build` wrote (lsm/sstable.cpp).
use cpp_database_engine.Common.{
  ℕ, zero, suc, ◌-◌, ◌≤◌, ◌≡◌, refl, sym, ap, ◌∙◌, inl, inr, true, Option, none, some, List, [],
  ◌∷◌, ◌++◌, map, arith, Bool-cases, length, take, drop, get_elem?, replicate, leb, length-append,
  take-length-append, drop-length-append, if◌then◌else◌,
}
use cpp_database_engine.Common.Chunks.{
  chunks, concat, AllNonempty, get_elem?_of_drop, drop-suc_of_drop, take_append_drop,
  length-drop_le,
}
use cpp_database_engine.Common.Int.{ℤ, eqb_ℤ, eqb_ℤ_iff}
use cpp_database_engine.Common.SortedMap.{lookup}
use cpp_database_engine.Lsm.Value.{LsmValue, Entries}
use cpp_database_engine.Lsm.Bloom.{BloomFilter, might_contain}
use cpp_database_engine.Lsm.Bloom.NoFalseNegatives.{IsSized, add_all, add_all-might_contain}
use cpp_database_engine.Lsm.Table.{
  SstPage, header_page, data_page, index_page, bloom_page, page_size, keys_of, bloom_of, first_id,
  padded, index_at, read_index, bloom_at, read_bloom, start_id,
}

index_at_page :
    (file : List SstPage) (pid : ℕ) (c : List (ℤ × ℕ))
    → get_elem? file pid ≡ some (index_page c)
    → index_at file pid ≡ c
unfolding index_at
index_at_page file pid c e =
    let entries : SstPage → List (ℤ × ℕ) = λ page. elim page [
      | header_page h ↦ []
      | data_page entries ↦ []
      | index_page entries ↦ entries
      | bloom_page bytes ↦ []
    ] in
    let read : Option SstPage → List (ℤ × ℕ) =
      λ o. elim o [ none ↦ [] | some page ↦ entries page ] in
    ap read e

bloom_at_page :
    (file : List SstPage) (pid : ℕ) (c : List ℕ)
    → get_elem? file pid ≡ some (bloom_page c)
    → bloom_at file pid ≡ c
unfolding bloom_at
bloom_at_page file pid c e =
    let bytes_of : SstPage → List ℕ = λ page. elim page [
      | header_page h ↦ []
      | data_page entries ↦ []
      | index_page entries ↦ []
      | bloom_page bytes ↦ bytes
    ] in
    let read : Option SstPage → List ℕ = λ o. elim o [ none ↦ [] | some page ↦ bytes_of page ] in
    ap read e

-- The index pages are read back.
read_index-concat :
    (fuel : ℕ) (file suffix : List SstPage) (pid : ℕ) (cs : List (List (ℤ × ℕ)))
    → drop pid file ≡ map index_page cs ++ suffix
    → AllNonempty cs
    → length cs ≤ fuel
    → read_index fuel file (length (concat cs)) pid ≡ concat cs
unfolding read_index
read_index-concat zero file suffix pid [] e ne h = refl
read_index-concat (suc fuel) file suffix pid [] e ne h = refl
read_index-concat zero file suffix pid (c ∷ cs) e ne h = absurd (omega arith)
read_index-concat (suc fuel) file suffix pid ([] ∷ cs) e ne h = absurd (omega (arith, ne.0))
read_index-concat (suc fuel) file suffix pid ((x ∷ c) ∷ cs) e ne h =
    let rest = map index_page cs ++ suffix in
    let page =
      index_at_page file pid (x ∷ c) (get_elem?_of_drop pid file rest (index_page (x ∷ c)) e) in
    let l = length-append c (concat cs) in
    let left : suc (length (c ++ concat cs)) - length (x ∷ c) ≡ length (concat cs) =
      omega (arith, l) in
    ap (λ p. p ++ read_index fuel file (suc (length (c ++ concat cs)) - length p) (suc pid)) page
    ∙ ap (λ n. (x ∷ c) ++ read_index fuel file n (suc pid)) left
    ∙ ap (λ later. (x ∷ c) ++ later)
        (read_index-concat fuel file suffix (suc pid) cs
          (drop-suc_of_drop pid file rest (index_page (x ∷ c)) e) ne.1 (omega arith))

chunk_length :
    (n : ℕ) (xs : List ℕ) → (if leb (length xs) n then length xs else n) ≡ length (take n xs)
chunk_length zero [] = refl
chunk_length zero (x ∷ xs) = ground arith
chunk_length (suc n) [] = ground arith
chunk_length (suc n) (x ∷ xs) = let ih = chunk_length n xs in ground arith

length-drop : (n : ℕ) (xs : List ℕ) → length xs - length (take n xs) ≡ length (drop n xs)
length-drop zero xs = omega arith
length-drop (suc n) [] = omega arith
length-drop (suc n) (x ∷ xs) = let ih = length-drop n xs in omega arith

take-padded : (c : List ℕ) → take (length c) (padded c) ≡ c
unfolding padded
take-padded c = take-length-append c (replicate (page_size - length c) 0)

starts :
    (pid x : ℕ) (bits : List ℕ)
    → start_id (first_id pid (chunks (length (x ∷ bits)) page_size (x ∷ bits))) ≡ pid
unfolding start_id first_id chunks
starts pid x bits = refl

-- The filter's bytes are read back.
read_bloom-chunks :
    (fuel : ℕ) (file suffix : List SstPage) (pid : ℕ) (bits : List ℕ)
    → drop pid file
      ≡ map (λ bytes. bloom_page (padded bytes)) (chunks fuel page_size bits) ++ suffix
    → length bits ≤ fuel
    → read_bloom fuel file (length bits) pid ≡ bits
unfolding read_bloom chunks
read_bloom-chunks zero file suffix pid [] e h = refl
read_bloom-chunks (suc fuel) file suffix pid [] e h = refl
read_bloom-chunks zero file suffix pid (x ∷ bits) e h = absurd (omega arith)
read_bloom-chunks (suc fuel) file suffix pid (x ∷ bits) e h =
    let all = x ∷ bits in
    let c = take page_size all in
    let later =
      map (λ bytes. bloom_page (padded bytes)) (chunks fuel page_size (drop page_size all))
      ++ suffix in
    let page : bloom_at file pid ≡ padded c =
      bloom_at_page file pid (padded c)
        (get_elem?_of_drop pid file later (bloom_page (padded c)) e) in
    let l = length-drop_le 4095 bits in
    ap (λ k. take k (bloom_at file pid) ++ read_bloom fuel file (length all - k) (suc pid))
      (chunk_length page_size all)
    ∙ ap (λ bytes. take (length c) bytes ++ read_bloom fuel file (length all - length c) (suc pid))
        page
    ∙ ap (λ bytes. bytes ++ read_bloom fuel file (length all - length c) (suc pid)) (take-padded c)
    ∙ ap (λ n. c ++ read_bloom fuel file n (suc pid)) (length-drop page_size all)
    ∙ ap (λ bytes. c ++ bytes)
        (read_bloom-chunks fuel file suffix (suc pid) (drop page_size all)
          (drop-suc_of_drop pid file later (bloom_page (padded c)) e) (omega (arith, l, h)))
    ∙ take_append_drop page_size all

pub drop_append :
    (n : ℕ) (pages rest : List SstPage) → length pages ≡ n → drop n (pages ++ rest) ≡ rest
drop_append n pages rest e =
    ap (λ k. drop k (pages ++ rest)) (sym e) ∙ drop-length-append pages rest

pub length-map {ℓ} : {A : Type ℓ} (f : A → SstPage) (xs : List A) → length (map f xs) ≡ length xs
length-map f [] = refl
length-map f (x ∷ xs) = ap suc (length-map f xs)

pub start_id-first_id :
    {A : Type 0} (pid : ℕ) (xs : List A) → 1 ≤ length xs → start_id (first_id pid xs) ≡ pid
unfolding start_id first_id
start_id-first_id pid [] h = absurd (omega arith)
start_id-first_id pid (x ∷ xs) h = refl

-- The loop over the index pages, from the page id that the header has for them.
pub index_read :
    (fuel : ℕ) (file suffix : List SstPage) (pid : ℕ) (cs : List (List (ℤ × ℕ)))
    → drop pid file ≡ map index_page cs ++ suffix
    → AllNonempty cs
    → length cs ≤ fuel
    → read_index fuel file (length (concat cs)) (start_id (first_id pid cs)) ≡ concat cs
unfolding read_index
index_read zero file suffix pid [] e ne h = refl
index_read (suc fuel) file suffix pid [] e ne h = refl
index_read fuel file suffix pid (c ∷ cs) e ne h =
    ap (λ i. read_index fuel file (length (concat (c ∷ cs))) i)
      (start_id-first_id pid (c ∷ cs) (omega arith))
    ∙ read_index-concat fuel file suffix pid (c ∷ cs) e ne h

pub bloom_read :
    (file suffix : List SstPage) (pid : ℕ) (bits : List ℕ)
    → drop pid file
      ≡ map (λ bytes. bloom_page (padded bytes)) (chunks (length bits) page_size bits) ++ suffix
    → read_bloom
        (length bits)
        file
        (length bits)
        (start_id (first_id pid (chunks (length bits) page_size bits)))
      ≡ bits
unfolding read_bloom
bloom_read file suffix pid [] e = refl
bloom_read file suffix pid (x ∷ bits) e =
    ap (λ i. read_bloom (length (x ∷ bits)) file (length (x ∷ bits)) i) (starts pid x bits)
    ∙ read_bloom-chunks (length (x ∷ bits)) file suffix pid (x ∷ bits) e (omega arith)

-- A key of the list stands somewhere in the list of the keys.
split_at_key :
    (k : ℤ) (v : LsmValue) (m : Entries)
    → lookup k m ≡ some v
    → (earlier : List ℤ) × ((later : List ℤ) × (keys_of m ≡ earlier ++ k ∷ later))
split_at_key k v [] e = cc
split_at_key k v ((j, w) ∷ m) e = elim (Bool-cases (eqb_ℤ j k)) [
  | inl same ↦ ([], (keys_of m, ap (λ i. i ∷ keys_of m) ((eqb_ℤ_iff j k).0 same)))
  | inr apart ↦
      let (earlier, (later, split)) = split_at_key k v m (rw apart at e) in
      (j ∷ earlier, (later, ap (λ l. j ∷ l) split))
]

pub bloom_of_keys :
    (blank : ℕ → BloomFilter) (entries : Entries) (k : ℤ) (v : LsmValue)
    → ((n : ℕ) → IsSized (blank n) (blank n).bits)
    → lookup k entries ≡ some v
    → might_contain (bloom_of blank entries) k ≡ true
unfolding bloom_of
bloom_of_keys blank entries k v sized e =
    let (earlier, (later, split)) = split_at_key k v entries e in
    let expected = length entries in
    let f = blank (if leb 1 expected then expected else 1) in
    ap (λ keys. might_contain (add_all f keys) k) split
    ∙ add_all-might_contain f earlier later k (sized (if leb 1 expected then expected else 1))
