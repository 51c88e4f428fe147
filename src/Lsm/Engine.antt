-- ===== src/Lsm/Engine.antt =====
-- class `LSMTreeEngine` of lsm/lsm_tree_engine.h and lsm/lsm_tree_engine.cpp, one call after the other.
-- The tables of a tier stand newest first. The ids of the tables and the bytes of the manifest page
-- are left out; that the manifest has room is tested where the source tests it.
pub mod Writes
pub mod Visible
pub mod View
pub mod Reads
pub mod Written
pub mod Compaction
pub mod Flush
pub mod Updates
pub mod Steps
pub mod Stall
mod Tests
use cpp_database_engine.Common.{ℕ, Bool, Option, none, some, List, [], ◌∷◌, ◌++◌, if◌then◌else◌}
use cpp_database_engine.Common.Int.{ℤ, ltb_ℤ}
use cpp_database_engine.Common.Bytes.{Bytes}
use cpp_database_engine.Common.SortedMap.{from}
use cpp_database_engine.Lsm.Value.{LsmValue, Entries, MemTable, get_mem}
use cpp_database_engine.Lsm.Bloom.{BloomFilter}
use cpp_database_engine.Lsm.Merge.{merge}
use cpp_database_engine.Lsm.Table.{SsTable}
use cpp_database_engine.Lsm.Table.Lookup.{table_might_contain, table_get, new_iterator}

-- The arguments of the constructor, the compaction threshold not being negative, and the sizes that
-- the Bloom filters of the tables take.
pub record LsmConfig : Type 0 where
  pub flush_threshold_bytes : ℕ
  pub tier_threshold : ℕ
  pub wal_enabled : Bool
  pub filter_bits : ℕ → ℕ
  pub filter_hashes : ℕ → ℕ → ℕ

-- An UPDATE record of the memtable's log: its `op`, its key and its new value.
pub data LogUpdate : Type 0 where
  log_put : ℤ → Bytes → LogUpdate
  log_delete : ℤ → LogUpdate

-- `memtable_wal`: the records of the current generation, oldest first. `compaction_running` is true while
-- another thread is inside `CompactOneTierIfNeeded`.
pub record LsmTree : Type 0 where
  pub active_memtable : MemTable
  pub tiers : List (List SsTable)
  pub memtable_wal : List LogUpdate
  pub compaction_running : Bool

-- How a call ends: it returns, or it throws one of the two exceptions.
pub data Ending : Type 0 where
  returned : Ending
  invalid_argument : Ending
  runtime_error : Ending

-- What `Get` gives for an entry, and what `SkipTombstones` leaves of a scan.
unfoldable pub live_value : LsmValue → Option Bytes
live_value v = if v.deleted then none else some v.value

unfoldable pub skip_tombstones : Entries → List (ℤ × Bytes)
skip_tombstones [] = []
skip_tombstones ((key, v) ∷ entries) =
    let later = skip_tombstones entries in if v.deleted then later else (key, v.value) ∷ later

-- The loop of `Get` over the tables of a tier, and the one over the tiers.
unfoldable pub get_in_tier : ℤ → List SsTable → Option LsmValue
get_in_tier key [] = none
get_in_tier key (sst ∷ tier) =
    let later = get_in_tier key tier in
    if table_might_contain sst key
    then elim (table_get sst key) [ none ↦ later | some v ↦ some v ]
    else later

unfoldable pub get_in_tiers : ℤ → List (List SsTable) → Option LsmValue
get_in_tiers key [] = none
get_in_tiers key (tier ∷ tiers) = elim (get_in_tier key tier) [
  | none ↦ get_in_tiers key tiers
  | some v ↦ some v
]

-- `LSMTreeEngine::Get`
unfoldable pub get : LsmTree → ℤ → Option Bytes
get s key = elim (get_mem s.active_memtable key) [
  | none ↦ elim (get_in_tiers key s.tiers) [ none ↦ none | some v ↦ live_value v ]
  | some v ↦ live_value v
]

-- The cursors of `Scan` behind that of the memtable.
unfoldable pub tier_cursors : ℤ → List SsTable → List Entries
tier_cursors start_key [] = []
tier_cursors start_key (sst ∷ tier) =
    let later = tier_cursors start_key tier in
    if ltb_ℤ sst.max_key start_key then later else new_iterator sst start_key ∷ later

unfoldable pub tiers_cursors : ℤ → List (List SsTable) → List Entries
tiers_cursors start_key [] = []
tiers_cursors start_key (tier ∷ tiers) =
    tier_cursors start_key tier ++ tiers_cursors start_key tiers

-- `LSMTreeEngine::Scan`, as the list of the entries that the iterator yields.
unfoldable pub scan : LsmTree → ℤ → List (ℤ × Bytes)
scan s start_key =
    skip_tombstones
      (merge (from start_key s.active_memtable.list ∷ tiers_cursors start_key s.tiers))
