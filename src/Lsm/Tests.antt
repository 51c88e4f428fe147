-- ===== src/Lsm/Tests.antt =====
-- A concrete Bloom filter, a skip list, two cursors, and a table file.
use cpp_database_engine.Common.{◌*◌, ◌≡◌, refl, true, none, some, List, [], ◌∷◌, arith, map}
use cpp_database_engine.Common.Int.{ℤ, pos, negsuc}
use cpp_database_engine.Common.SortedMap.{Ascending, lookup, insert, from}
use cpp_database_engine.Lsm.Bloom.{BloomFilter, new_filter, might_contain}
use cpp_database_engine.Lsm.Bloom.NoFalseNegatives.{add_all, add_all-might_contain}
use cpp_database_engine.Lsm.Value.{Entries, stored, tombstone}
use cpp_database_engine.Lsm.Merge.{merge}
use cpp_database_engine.Lsm.Merge.Heap.{resolve}
use cpp_database_engine.Lsm.Merge.Resolve.{merge-resolve}
use cpp_database_engine.Lsm.SkipList.{
  SkipList, empty_list, put_at, walk_level, descend, seek, lower_bound, find, fill_head,
  set_forward, splice_level, splice, link, overwrite, insert_at, insert_node, entries_from,
  entries_of,
}
use cpp_database_engine.Lsm.SkipList.Valid.{IsValid, empty_list-IsValid}
use cpp_database_engine.Lsm.SkipList.Sorted.{insert_node-insert}
use cpp_database_engine.Lsm.Table.{SsTable, SstPage, values_fit, build, open_file}
use cpp_database_engine.Lsm.Table.Lookup.{table_get, new_iterator}
use cpp_database_engine.Lsm.Table.Reopen.{table_get-build}

abbrev small_filter : BloomFilter
small_filter = record { bits = 0 ∷ 0 ∷ []; num_bits = 10; num_hashes = 7 }

add_all-might_contain_example :
    might_contain (add_all small_filter (pos 1 ∷ negsuc 4 ∷ pos 9 ∷ [])) (negsuc 4) ≡ true
add_all-might_contain_example =
    add_all-might_contain small_filter (pos 1 ∷ []) (pos 9 ∷ []) (negsuc 4)
      (omega arith, omega arith)

abbrev newer : Entries
newer = (negsuc 2, stored (7 ∷ [])) ∷ (pos 4, tombstone) ∷ []

abbrev older : Entries
older = (pos 4, stored (1 ∷ [])) ∷ (pos 6, stored []) ∷ []

newer-Ascending : Ascending newer
newer-Ascending = ((omega arith, tt), (tt, tt))

older-Ascending : Ascending older
older-Ascending = ((omega arith, tt), (tt, tt))

merge-resolve_example :
    Ascending (merge (newer ∷ older ∷ []))
    × ((j : ℤ) → lookup j (merge (newer ∷ older ∷ [])) ≡ resolve j (newer ∷ older ∷ []))
merge-resolve_example = merge-resolve (newer ∷ older ∷ []) (newer-Ascending, (older-Ascending, tt))

newer-values_fit : values_fit newer ≡ true
unfolding values_fit stored tombstone
newer-values_fit = refl

table_get-build_example :
    (file : List SstPage) × ((t : SsTable) × ((build
            (new_filter (λ keys. 10 * keys) (λ bits keys. 7))
            newer
          ≡ some file)
        × ((open_file file ≡ some t)
            × ((table_get t (pos 4) ≡ lookup (pos 4) newer)
                × (new_iterator t (pos 4) ≡ from (pos 4) newer)))))
table_get-build_example =
    table_get-build (λ keys. 10 * keys) (λ bits keys. 7) newer (pos 4) newer-Ascending
      newer-values_fit

-- Towers of the heights 3, 1 and 2.
abbrev one_node : SkipList
one_node = insert_node empty_list (pos 6) tombstone 3

abbrev two_nodes : SkipList
two_nodes = insert_node one_node (negsuc 2) (stored (7 ∷ [])) 1

two_nodes-IsValid : IsValid two_nodes
two_nodes-IsValid =
    (insert_node-insert one_node (negsuc 2) (pos 0) (stored (7 ∷ [])) 1
      (insert_node-insert empty_list (pos 6) (pos 0) tombstone 3 empty_list-IsValid (omega arith)).0
      (omega arith)).0

skip_list_program : Unit {0}
unfolding put_at walk_level descend seek lower_bound find fill_head set_forward splice_level splice
    link overwrite insert_at insert_node entries_from entries_of stored tombstone
skip_list_program = tt

insert_node_computes :
    entries_of (insert_node two_nodes (pos 4) (stored []) 2)
    ≡ (negsuc 2, stored (7 ∷ [])) ∷ (pos 4, stored []) ∷ (pos 6, tombstone) ∷ []
unfolding skip_list_program
insert_node_computes = refl

level_1_computes :
    map
      (λ node. ((insert_node two_nodes (pos 4) (stored []) 2).memory node).forward 1)
      (0 ∷ 1 ∷ 2 ∷ 3 ∷ [])
    ≡ some 3 ∷ none ∷ none ∷ some 1 ∷ []
unfolding skip_list_program
level_1_computes = refl

insert_node-insert_example :
    IsValid (insert_node two_nodes (pos 4) (stored []) 2)
    × ((entries_of (insert_node two_nodes (pos 4) (stored []) 2)
          ≡ insert (pos 4) (stored []) (entries_of two_nodes))
        × ((find (insert_node two_nodes (pos 4) (stored []) 2) (pos 6)
              ≡ lookup (pos 6) (insert (pos 4) (stored []) (entries_of two_nodes)))
            × (entries_from
                  (insert_node two_nodes (pos 4) (stored []) 2).memory
                  (insert_node two_nodes (pos 4) (stored []) 2).allocated
                  (lower_bound (insert_node two_nodes (pos 4) (stored []) 2) (pos 6))
                ≡ from (pos 6) (insert (pos 4) (stored []) (entries_of two_nodes)))))
insert_node-insert_example =
    insert_node-insert two_nodes (pos 4) (pos 6) (stored []) 2 two_nodes-IsValid (omega arith)
