-- ===== src/Lsm/Engine/Stall.antt =====
-- The write stall of `FlushActiveMemtable` (lsm/lsm_tree_engine.cpp) against the capacity of the manifest.
use cpp_database_engine.Common.{
  ℕ, suc, ◌≤◌, ◌≡◌, ◌⊎◌, refl, sym, subst, inl, inr, true, false, some, List, [], ◌∷◌, arith,
  Bool-cases, List-cases, leb, ltb, length,
}
use cpp_database_engine.Common.Int.{ℤ, IsInt64}
use cpp_database_engine.Common.Bytes.{Bytes}
use cpp_database_engine.Common.SortedMap.{Ascending}
use cpp_database_engine.Lsm.Table.{SsTable}
use cpp_database_engine.Lsm.Engine.{LsmConfig, LsmTree, Ending, runtime_error}
use cpp_database_engine.Lsm.Engine.Writes.{
  merged_tier, find_tier, tier_at, insert_front, replace_tier, compact_due, compact_one_tier,
  finish_flush, flush, flush_if_full, put, write_stall_tier_size,
}
use cpp_database_engine.Lsm.Engine.Visible.{AllEntries}
use cpp_database_engine.Lsm.Engine.View.{Fits, IsValid}
use cpp_database_engine.Lsm.Engine.Compaction.{insert_front-AllTiers, compact_free}
use cpp_database_engine.Lsm.Engine.Written.{
  write_table-IsTable, merged_tier-fit, write_merged-tables,
}
use cpp_database_engine.Lsm.Engine.Flush.{
  persist_manifest-cases, flushed, flush_entries, flush-entries,
}
use cpp_database_engine.Lsm.Engine.Updates.{with_put, with_put-IsValid}

-- The number of tables of tier 0.
abbrev pub newest_tier : LsmTree → ℕ
newest_tier s = length (tier_at s.tiers 0)

-- Compaction takes the first tier that is due.
due_first :
    (config : LsmConfig) (tiers : List (List SsTable))
    → leb config.tier_threshold (length (tier_at tiers 0)) ≡ true
    → 1 ≤ length (tier_at tiers 0)
    → find_tier config 0 tiers ≡ some 0
unfolding find_tier tier_at
due_first config [] due some_table = absurd (omega arith)
due_first config (tier ∷ tiers) due some_table = rw due refl

-- Tier 0 stays below the write stall, or the call ends because the manifest has no room and tier 0 has
-- reached the stall at most.
abbrev pub IsStalled : LsmTree × Ending → Type 0
IsStalled r = (newest_tier r.0 ≤ 7) ⊎ ((r.1 ≡ runtime_error) × (newest_tier r.0 ≤ 8))

emptied :
    (tiers : List (List SsTable)) (new : List SsTable)
    → length (tier_at (replace_tier tiers 0 new) 0) ≤ 7
unfolding replace_tier tier_at
emptied [] new = omega arith
emptied (tier ∷ tiers) new = omega arith

compact_newest :
    (config : LsmConfig) (s : LsmTree)
    → IsValid s
    → s.compaction_running ≡ false
    → config.tier_threshold ≤ 8
    → 8 ≤ newest_tier s
    → newest_tier (compact_one_tier config s).0 ≤ 7
unfolding compact_due
compact_newest config s h free small full =
    let found = due_first config s.tiers (ground arith) (omega arith) in
    let m = merged_tier-fit s.tiers 0 h.tables in
    let (new, (written, _)) = write_merged-tables config (merged_tier s.tiers 0) m.0 m.1 in
    subst (λ r. newest_tier r.0 ≤ 7) (sym (compact_free config s free))
      (rw (found, compact_due, written) (emptied s.tiers new))

finish_flush-stall :
    (config : LsmConfig) (s : LsmTree)
    → IsValid s
    → s.compaction_running ≡ false
    → config.tier_threshold ≤ 8
    → newest_tier s ≤ 8
    → IsStalled (finish_flush config s)
unfolding finish_flush
finish_flush-stall config s h free small fits = elim (persist_manifest-cases s.tiers) [
  | inl e ↦ elim (Bool-cases (leb write_stall_tier_size (newest_tier s))) [
    | inl full ↦
        rw (e, finish_flush, full) (inl (compact_newest config s h free small (ground arith)))
    | inr room ↦
        let below : newest_tier s ≤ 7 = ground arith in rw (e, finish_flush, room) (inl below)
  ]
  | inr e ↦ rw (e, finish_flush) (inr (refl, fits))
]

length-insert_front :
    (t : SsTable) (tiers : List (List SsTable))
    → length (tier_at (insert_front (t ∷ []) tiers) 0) ≡ suc (length (tier_at tiers 0))
unfolding insert_front tier_at
length-insert_front t [] = refl
length-insert_front t (tier ∷ tiers) = refl

flush-stall :
    (config : LsmConfig) (s : LsmTree)
    → IsValid s
    → s.compaction_running ≡ false
    → config.tier_threshold ≤ 8
    → newest_tier s ≤ 7
    → IsStalled (flush config s)
flush-stall config s h free small fits = elim (List-cases s.active_memtable.list) [
  | inl e ↦ subst (λ r. IsStalled r) (sym (flush-entries config s [] e)) (inl fits)
  | inr (entry, (entries, e)) ↦
      let (t, (written, (table, same))) =
        write_table-IsTable config (entry ∷ entries) (subst (λ m. Ascending m) e h.ascending)
          (subst (λ m. AllEntries Fits m) e h.fit) in
      let tiers = insert_front (t ∷ []) s.tiers in
      let l = length-insert_front t s.tiers in
      let h' : IsValid (flushed s tiers) = record {
        ascending = tt;
        fit = tt;
        tables = insert_front-AllTiers (t ∷ []) s.tiers (table, tt) h.tables;
      } in
      subst (λ r. IsStalled r) (sym (flush-entries config s (entry ∷ entries) e))
        (rw (written, flush_entries)
          (finish_flush-stall config (flushed s tiers) h' free small (omega (arith, l, fits))))
]

-- Where no other thread is compacting, a `Put` keeps tier 0 below the write stall: for a valid tree whose
-- `compaction_running` is false and a compaction threshold of at most 8, a `Put` of a 64-bit key that
-- finds at most 7 tables in tier 0 leaves at most 7, or ends in a `runtime_error` and leaves at most 8.
pub put-newest_tier :
    (config : LsmConfig) (s : LsmTree) (k : ℤ) (v : Bytes)
    → IsValid s
    → IsInt64 k
    → s.compaction_running ≡ false
    → config.tier_threshold ≤ 8
    → newest_tier s ≤ 7
    → (newest_tier (put config s k v).0 ≤ 7)
      ⊎ (((put config s k v).1 ≡ runtime_error) × (newest_tier (put config s k v).0 ≤ 8))
unfolding put flush_if_full
put-newest_tier config s k v h key free small fits = elim (Bool-cases (ltb 64 (length v))) [
  | inl large ↦ rw large (inl fits)
  | inr within ↦
      let s' = with_put config s k v in
      let h' = with_put-IsValid config s k v h key (ground arith) in
      elim (Bool-cases
        (leb config.flush_threshold_bytes s'.active_memtable.approximate_size_bytes)) [
          | inl full ↦ rw (within, full) (flush-stall config s' h' free small fits)
          | inr room ↦ rw (within, room) (inl fits)
        ]
]
