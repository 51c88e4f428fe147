-- ===== src/Lsm/Engine/Tests.antt =====
-- A small LSM tree: three puts and a delete, which flush and compact.
use cpp_database_engine.Common.{
  ◌*◌, ◌≡◌, refl, true, false, none, some, List, [], ◌∷◌, arith, map, length, ◌≤◌, ◌≢◌, ◌⊎◌,
}
use cpp_database_engine.Common.Int.{pos, negsuc}
use cpp_database_engine.Lsm.Value.{stored, tombstone, put_mem, delete_mem, get_mem}
use cpp_database_engine.Lsm.Merge.{
  precedes, push, cursor_at, next, next_at, push_valid, push_all, start, pull, entries_left,
  discard, value_at, advance, collect, merge,
}
use cpp_database_engine.Lsm.Bloom.{
  new_filter, mix, bit_index, set_bit, test_bit, add_from, add, contain_from, might_contain,
}
use cpp_database_engine.Lsm.Table.{
  values_fit, bloom_of, index_from, first_id, front_key, back_key, padded, header_of, pages_of,
  build, index_at, read_index, bloom_at, read_bloom, start_id, table_of, open_file,
}
use cpp_database_engine.Lsm.Table.Lookup.{
  table_might_contain, upper_bound, page_before, find_page_pos, indexed_id, fetch, found_at,
  table_get, pages_from, walk, new_iterator,
}
use cpp_database_engine.Lsm.Engine.{
  LsmConfig, LsmTree, invalid_argument, runtime_error, live_value, skip_tombstones, get_in_tier,
  get_in_tiers, get, tier_cursors, tiers_cursors, scan,
}
use cpp_database_engine.Lsm.Engine.Writes.{
  tiers_fit, persist_manifest, write_table, find_tier, all_empty, tier_at, keep_entries,
  merged_tier, write_merged, insert_front, replace_tier, compact_due, compact_one_tier,
  finish_flush, flush, log_update, flush_if_full, put, delete, replay_update, replay,
  replay_generations, copied_log, start_with_wal,
}
use cpp_database_engine.Common.Chunks.{chunks}
use cpp_database_engine.Sql.Keys.{word_of}
use cpp_database_engine.Lsm.Engine.Steps.{
  Step, put_step, delete_step, compact_step, crash_step, AllReturn, AllLegal, empty_tree, get-run,
  run-Updated, empty_tree-IsLogged, empty_tree-view, step, run,
}
use cpp_database_engine.Lsm.Engine.Compaction.{compact_one_tier-view}
use cpp_database_engine.Lsm.Engine.View.{IsValid, view}
use cpp_database_engine.Lsm.Engine.Reads.{get-view, scan-view}
use cpp_database_engine.Lsm.Engine.Updates.{put-view, delete-view}
use cpp_database_engine.Lsm.Engine.Stall.{newest_tier, put-newest_tier}
use cpp_database_engine.Common.SortedMap.{lookup, insert, erase, from}

program : Unit {0}
unfolding new_filter stored tombstone put_mem delete_mem get_mem precedes push cursor_at next
    next_at push_valid push_all start pull entries_left discard value_at advance collect merge mix
    bit_index set_bit test_bit add_from add contain_from might_contain values_fit bloom_of
    index_from first_id front_key back_key padded header_of pages_of build index_at read_index
    bloom_at read_bloom start_id table_of open_file table_might_contain upper_bound page_before
    find_page_pos indexed_id fetch found_at table_get pages_from walk new_iterator live_value
    skip_tombstones get_in_tier get_in_tiers get tier_cursors tiers_cursors scan tiers_fit
    persist_manifest write_table find_tier all_empty tier_at keep_entries merged_tier write_merged
    insert_front replace_tier compact_due compact_one_tier finish_flush flush log_update
    flush_if_full put delete replay_update replay replay_generations copied_log start_with_wal
    chunks word_of step run
program = tt

abbrev small_config : LsmConfig
small_config = record {
  flush_threshold_bytes = 10;
  tier_threshold = 2;
  wal_enabled = true;
  filter_bits = λ keys. 10 * keys;
  filter_hashes = λ bits keys. 7;
}

abbrev small_steps : List Step
small_steps =
    put_step (pos 5) (1 ∷ [])
    ∷ put_step (negsuc 2) (2 ∷ 3 ∷ [])
    ∷ put_step (pos 5) (4 ∷ [])
    ∷ crash_step
    ∷ delete_step (negsuc 2)
    ∷ put_step (pos 9) []
    ∷ compact_step
    ∷ []

small_steps-AllReturn : AllReturn small_config empty_tree small_steps
unfolding program
small_steps-AllReturn = (refl, (refl, (refl, (refl, (refl, (refl, (refl, tt)))))))

small_steps-AllLegal : AllLegal small_steps
small_steps-AllLegal = (
  ((omega arith, omega arith), refl),
  (
    ((omega arith, omega arith), refl),
    (
      ((omega arith, omega arith), refl),
      (tt, ((omega arith, omega arith), (((omega arith, omega arith), refl), (tt, tt)))),
    ),
  ),
)

get-run_example : get (run small_config empty_tree small_steps) (pos 5) ≡ some (4 ∷ [])
get-run_example =
    get-run small_config small_steps (pos 5) refl small_steps-AllLegal small_steps-AllReturn

-- The steps leave one table, in tier 1, and an entry in the memtable.
abbrev busy_tree : LsmTree
busy_tree = run small_config empty_tree small_steps

busy_tree-scan : scan busy_tree (negsuc 9) ≡ (pos 5, 4 ∷ []) ∷ (pos 9, []) ∷ []
unfolding program
busy_tree-scan = refl

busy_tree-tables : map length busy_tree.tiers ≡ 0 ∷ 1 ∷ []
unfolding program
busy_tree-tables = refl

busy_tree-IsValid : IsValid busy_tree
busy_tree-IsValid =
    (run-Updated small_config empty_tree [] small_steps refl
      (record { ascending = tt; fit = tt; tables = tt }) empty_tree-IsLogged refl empty_tree-view
      small_steps-AllLegal small_steps-AllReturn).0

get-view_example : get busy_tree (negsuc 2) ≡ lookup (negsuc 2) (view busy_tree)
get-view_example = get-view busy_tree (negsuc 2) busy_tree-IsValid

scan-view_example : scan busy_tree (pos 6) ≡ from (pos 6) (view busy_tree)
scan-view_example = scan-view busy_tree (pos 6) busy_tree-IsValid

compact_one_tier-view_example :
    IsValid (compact_one_tier small_config busy_tree).0
    × ((view (compact_one_tier small_config busy_tree).0 ≡ view busy_tree)
        × ((compact_one_tier small_config busy_tree).1 ≢ invalid_argument))
compact_one_tier-view_example = compact_one_tier-view small_config busy_tree busy_tree-IsValid

put-view_example :
    IsValid (put small_config busy_tree (pos 7) (8 ∷ [])).0
    × ((view (put small_config busy_tree (pos 7) (8 ∷ [])).0
          ≡ insert (pos 7) (8 ∷ []) (view busy_tree))
        × ((put small_config busy_tree (pos 7) (8 ∷ [])).1 ≢ invalid_argument))
put-view_example =
    put-view small_config busy_tree (pos 7) (8 ∷ []) busy_tree-IsValid (omega arith, omega arith)
      refl

delete-view_example :
    IsValid (delete small_config busy_tree (pos 5)).0.0
    × ((view (delete small_config busy_tree (pos 5)).0.0 ≡ erase (pos 5) (view busy_tree))
        × ((delete small_config busy_tree (pos 5)).1
            ≡ elim (lookup (pos 5) (view busy_tree)) [ none ↦ false | some v ↦ true ]))
delete-view_example =
    delete-view small_config busy_tree (pos 5) busy_tree-IsValid (omega arith, omega arith)

busy_tree-newest_tier : newest_tier busy_tree ≡ 0
unfolding program
busy_tree-newest_tier = refl

busy_tree-free : busy_tree.compaction_running ≡ false
unfolding program
busy_tree-free = refl

put-newest_tier_example :
    (newest_tier (put small_config busy_tree (pos 7) (8 ∷ [])).0 ≤ 7)
    ⊎ (((put small_config busy_tree (pos 7) (8 ∷ [])).1 ≡ runtime_error)
        × (newest_tier (put small_config busy_tree (pos 7) (8 ∷ [])).0 ≤ 8))
put-newest_tier_example =
    put-newest_tier small_config busy_tree (pos 7) (8 ∷ []) busy_tree-IsValid
      (omega arith, omega arith) busy_tree-free (omega arith) (omega (arith, busy_tree-newest_tier))
