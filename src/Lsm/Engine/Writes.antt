-- ===== src/Lsm/Engine/Writes.antt =====
-- The operations of `LSMTreeEngine` (lsm/lsm_tree_engine.cpp) that change the tree.
use cpp_database_engine.Common.{
  ℕ, zero, suc, Bool, true, false, ◌&&◌, Option, none, some, List, [], ◌∷◌, ◌++◌, map, length, drop,
  leb, ltb, if◌then◌else◌,
}
use cpp_database_engine.Common.Int.{ℤ, int64_min}
use cpp_database_engine.Common.Bytes.{Bytes}
use cpp_database_engine.Lsm.Value.{Entries, MemTable, empty_memtable, put_mem, delete_mem}
use cpp_database_engine.Lsm.Bloom.{new_filter}
use cpp_database_engine.Lsm.Merge.{merge}
use cpp_database_engine.Lsm.Table.{SsTable, build, open_file}
use cpp_database_engine.Lsm.Table.Lookup.{new_iterator}
use cpp_database_engine.Lsm.Engine.{
  LsmConfig, LsmTree, LogUpdate, log_put, log_delete, Ending, returned, invalid_argument,
  runtime_error, get,
}

abbrev pub max_value_size : ℕ
max_value_size = 64

abbrev pub max_manifest_tiers : ℕ
max_manifest_tiers = 8

abbrev pub max_sstables_per_manifest_tier : ℕ
max_sstables_per_manifest_tier = 16

abbrev pub write_stall_tier_size : ℕ
write_stall_tier_size = 8

-- The capacity tests of `PersistManifestLocked`.
unfoldable pub tiers_fit : List (List SsTable) → Bool
tiers_fit [] = true
tiers_fit (tier ∷ tiers) = leb (length tier) max_sstables_per_manifest_tier && tiers_fit tiers

unfoldable pub persist_manifest : List (List SsTable) → Ending
persist_manifest tiers =
    if ltb max_manifest_tiers (length tiers)
    then runtime_error
    else if tiers_fit tiers
    then returned
    else runtime_error

-- `SSTable::Build` and `SSTable::Open` of the file that it wrote; `none` where they throw.
unfoldable pub write_table : LsmConfig → Entries → Option SsTable
write_table config entries =
    elim (build (new_filter config.filter_bits config.filter_hashes) entries) [
      | none ↦ none
      | some file ↦ open_file file
    ]

-- `FindTierNeedingCompactionLocked`, counting from `t`.
unfoldable pub find_tier : LsmConfig → ℕ → List (List SsTable) → Option ℕ
find_tier config t [] = none
find_tier config t (tier ∷ tiers) =
    let later = find_tier config (suc t) tiers in
    if leb config.tier_threshold (length tier) then some t else later

unfoldable pub all_empty : List (List SsTable) → Bool
all_empty [] = true
all_empty ([] ∷ tiers) = all_empty tiers
all_empty ((sst ∷ tier) ∷ tiers) = false

unfoldable pub tier_at : List (List SsTable) → ℕ → List SsTable
tier_at [] t = []
tier_at (tier ∷ tiers) zero = tier
tier_at (tier ∷ tiers) (suc t) = tier_at tiers t

-- The loop that collects `merged`; the bottommost tier's tombstones are dropped.
unfoldable pub keep_entries : Bool → Entries → Entries
keep_entries bottommost [] = []
keep_entries bottommost ((key, v) ∷ entries) =
    let later = keep_entries bottommost entries in
    if v.deleted && bottommost then later else (key, v) ∷ later

unfoldable pub merged_tier : List (List SsTable) → ℕ → Entries
merged_tier tiers t =
    keep_entries (all_empty (drop (suc t) tiers))
      (merge (map (λ sst. new_iterator sst int64_min) (tier_at tiers t)))

-- The table that compaction writes, where there is an entry to write: `some []` is a null `new_sst`.
unfoldable pub write_merged : LsmConfig → Entries → Option (List SsTable)
write_merged config [] = some []
write_merged config (entry ∷ entries) = elim (write_table config (entry ∷ entries)) [
  | none ↦ none
  | some sst ↦ some (sst ∷ [])
]

-- `tiers_[next_tier].insert(begin, new_sst)`, with the resize before it.
unfoldable pub insert_front : List SsTable → List (List SsTable) → List (List SsTable)
insert_front new [] = new ∷ []
insert_front new (tier ∷ tiers) = (new ++ tier) ∷ tiers

-- The tiers with the tables of tier `t` replaced by the new one in the next tier. No table has joined
-- the tier since compaction read it, so none remains.
unfoldable pub replace_tier : List (List SsTable) → ℕ → List SsTable → List (List SsTable)
replace_tier [] t new = []
replace_tier (tier ∷ tiers) zero new = [] ∷ insert_front new tiers
replace_tier (tier ∷ tiers) (suc t) new = tier ∷ replace_tier tiers t new

-- The body of `CompactOneTierIfNeeded` behind the test of `compaction_running_`, which it sets and
-- the guard resets when it ends.
unfoldable pub compact_due : LsmConfig → LsmTree → LsmTree × Ending
compact_due config s = elim (find_tier config 0 s.tiers) [
  | none ↦ (s, returned)
  | some t ↦ elim (write_merged config (merged_tier s.tiers t)) [
    | none ↦ (s, invalid_argument)
    | some new ↦
        let tiers = replace_tier s.tiers t new in
        (record s { tiers = tiers }, persist_manifest tiers)
  ]
]

-- `CompactOneTierIfNeeded`: where another thread is compacting, it returns at once.
unfoldable pub compact_one_tier : LsmConfig → LsmTree → LsmTree × Ending
compact_one_tier config s = if s.compaction_running then (s, returned) else compact_due config s

-- The end of `FlushActiveMemtable`, from the second lock on.
unfoldable pub finish_flush : LsmConfig → LsmTree → LsmTree × Ending
finish_flush config s = elim (persist_manifest s.tiers) [
  | returned ↦
      if leb write_stall_tier_size (length (tier_at s.tiers 0))
      then compact_one_tier config s
      else (s, returned)
  | invalid_argument ↦ (s, invalid_argument)
  | runtime_error ↦ (s, runtime_error)
]

-- `FlushActiveMemtable`: the memtable and its log are replaced before the table is written.
unfoldable pub flush : LsmConfig → LsmTree → LsmTree × Ending
flush config s =
    let empty : LsmTree = record {
      active_memtable = empty_memtable;
      tiers = s.tiers;
      memtable_wal = [];
      compaction_running = s.compaction_running;
    } in
    elim s.active_memtable.list [
      | [] ↦ (empty, returned)
      | entry ∷ entries ↦ elim (write_table config (entry ∷ entries)) [
        | none ↦ (empty, invalid_argument)
        | some sst ↦ finish_flush config (record empty { tiers = insert_front (sst ∷ []) s.tiers })
      ]
    ]

unfoldable pub log_update : LsmConfig → LsmTree → LogUpdate → List LogUpdate
log_update config s update =
    if config.wal_enabled then s.memtable_wal ++ (update ∷ []) else s.memtable_wal

unfoldable pub flush_if_full : LsmConfig → LsmTree → LsmTree × Ending
flush_if_full config s =
    if leb config.flush_threshold_bytes s.active_memtable.approximate_size_bytes
    then flush config s
    else (s, returned)

-- `LSMTreeEngine::Put`
unfoldable pub put : LsmConfig → LsmTree → ℤ → Bytes → LsmTree × Ending
put config s key v =
    if ltb max_value_size (length v)
    then (s, invalid_argument)
    else flush_if_full config (record {
      active_memtable = put_mem s.active_memtable key v;
      tiers = s.tiers;
      memtable_wal = log_update config s (log_put key v);
      compaction_running = s.compaction_running;
    })

-- `LSMTreeEngine::Delete`: the state, how the call ends, and what it returns.
unfoldable pub delete : LsmConfig → LsmTree → ℤ → (LsmTree × Ending) × Bool
delete config s key =
    let existed : Bool = elim (get s key) [ none ↦ false | some v ↦ true ] in
    (
      flush_if_full config (record {
        active_memtable = delete_mem s.active_memtable key;
        tiers = s.tiers;
        memtable_wal = log_update config s (log_delete key);
        compaction_running = s.compaction_running;
      }),
      existed,
    )

-- The replay of one record in `RecoverMemWALOnStartup`.
unfoldable pub replay_update : MemTable → LogUpdate → MemTable
replay_update mt (log_put key v) = put_mem mt key v
replay_update mt (log_delete key) = delete_mem mt key

unfoldable pub replay : MemTable → List LogUpdate → MemTable
replay mt [] = mt
replay mt (update ∷ log) = replay (replay_update mt update) log

-- The loop over the generations that were found, oldest first, and the log that they are copied to.
unfoldable pub replay_generations : MemTable → List (List LogUpdate) → MemTable
replay_generations mt [] = mt
replay_generations mt (log ∷ generations) = replay_generations (replay mt log) generations

unfoldable pub copied_log : List (List LogUpdate) → List LogUpdate
copied_log [] = []
copied_log (log ∷ generations) = log ++ copied_log generations

-- The constructor with the log, on the tiers of the manifest and the generations that were found.
unfoldable pub start_with_wal : List (List SsTable) → List (List LogUpdate) → LsmTree
start_with_wal tiers generations = record {
  active_memtable = replay_generations empty_memtable generations;
  tiers = tiers;
  memtable_wal = copied_log generations;
  compaction_running = false;
}
