-- ===== src/Lsm/Engine/Flush.antt =====
-- `FlushActiveMemtable` (lsm/lsm_tree_engine.cpp) changes nothing that a reader sees.
use cpp_database_engine.Common.{
  ◌≡◌, ◌⊎◌, refl, sym, ap, subst, ◌∙◌, inl, inr, none, some, List, [], ◌∷◌, Bool-cases, List-cases,
  leb, ltb, length,
}
use cpp_database_engine.Common.SortedMap.{lookup, Ascending}
use cpp_database_engine.Lsm.Value.{Entries, empty_memtable}
use cpp_database_engine.Lsm.Merge.Heap.{first_of, resolve}
use cpp_database_engine.Lsm.Table.{SsTable}
use cpp_database_engine.Lsm.Engine.{
  LsmConfig, LsmTree, Ending, returned, invalid_argument, runtime_error,
}
use cpp_database_engine.Lsm.Engine.Writes.{
  write_table, tier_at, insert_front, persist_manifest, tiers_fit, finish_flush, flush,
  flush_if_full, write_stall_tier_size, replay,
}
use cpp_database_engine.Lsm.Engine.Visible.{visible, AllEntries}
use cpp_database_engine.Lsm.Engine.View.{
  Fits, IsTable, IsValid, contents_of, view, contents-entries, view_of_visible,
}
use cpp_database_engine.Lsm.Engine.Compaction.{
  Kept, unchanged, resolve-insert_front, insert_front-AllTiers, compact_one_tier-Kept,
}
use cpp_database_engine.Lsm.Engine.Written.{write_table-IsTable, first_of-none}

pub persist_manifest-cases :
    (tiers : List (List SsTable))
    → (persist_manifest tiers ≡ returned) ⊎ (persist_manifest tiers ≡ runtime_error)
unfolding persist_manifest
persist_manifest-cases tiers = elim (Bool-cases (ltb 8 (length tiers))) [
  | inl e ↦ rw e (inr refl)
  | inr e ↦
      rw e
        (elim (Bool-cases (tiers_fit tiers)) [ inl f ↦ rw f (inl refl) | inr f ↦ rw f (inr refl) ])
]

finish_flush-Kept : (config : LsmConfig) (s : LsmTree) → IsValid s → Kept s (finish_flush config s)
unfolding finish_flush
finish_flush-Kept config s h = elim (persist_manifest-cases s.tiers) [
  | inl e ↦ elim (Bool-cases (leb write_stall_tier_size (length (tier_at s.tiers 0)))) [
    | inl full ↦ rw (e, finish_flush, full) (compact_one_tier-Kept config s h)
    | inr room ↦ rw (e, finish_flush, room) (unchanged s h)
  ]
  | inr e ↦
      rw (e, finish_flush)
        (record { valid = h; same = refl; ending = λ e. cc; logged = λ l. l; same_flag = refl })
]

-- The tree between the two locks of the flush.
abbrev pub flushed : LsmTree → List (List SsTable) → LsmTree
flushed s tiers = record {
  active_memtable = empty_memtable;
  tiers = tiers;
  memtable_wal = [];
  compaction_running = s.compaction_running;
}

flush_table :
    (config : LsmConfig) (s : LsmTree) (t : SsTable) (h : IsTable t)
    → IsValid s
    → h.entries ≡ s.active_memtable.list
    → Kept s (finish_flush config (flushed s (insert_front (t ∷ []) s.tiers)))
unfolding resolve first_of replay
flush_table config s t table h e =
    let s' = flushed s (insert_front (t ∷ []) s.tiers) in
    let h' : IsValid s' = record {
      ascending = tt;
      fit = tt;
      tables = insert_front-AllTiers (t ∷ []) s.tiers (table, tt) h.tables;
    } in
    let kept = finish_flush-Kept config s' h' in
    let same : view s' ≡ view s = view_of_visible s s' h h' (λ k.
      ap (λ o. visible o) (resolve-insert_front k (t ∷ []) s.tiers)
      ∙ ap (λ m. visible (first_of (first_of (lookup k m) none) (resolve k (contents_of s.tiers))))
          (contents-entries t table ∙ e)
      ∙ ap (λ o. visible (first_of o (resolve k (contents_of s.tiers))))
          (first_of-none (lookup k s.active_memtable.list))) in
    record {
      valid = kept.valid;
      same = kept.same ∙ same;
      ending = kept.ending;
      logged = λ l. kept.logged refl;
      same_flag = kept.same_flag;
    }

-- The flush as a function of the memtable's entries.
abbrev pub flush_entries : LsmConfig → LsmTree → Entries → LsmTree × Ending
flush_entries config s m = elim m [
  | [] ↦ (flushed s s.tiers, returned)
  | entry ∷ entries ↦ elim (write_table config (entry ∷ entries)) [
    | none ↦ (flushed s s.tiers, invalid_argument)
    | some sst ↦ finish_flush config (flushed s (insert_front (sst ∷ []) s.tiers))
  ]
]

pub flush-entries :
    (config : LsmConfig) (s : LsmTree) (m : Entries)
    → s.active_memtable.list ≡ m
    → flush config s ≡ flush_entries config s m
unfolding flush
flush-entries config s m e = ap (λ l. flush_entries config s l) e

-- Flushing the memtable keeps the map that a reader sees, whether or not it compacts a tier, and
-- whether or not the manifest has room.
pub flush-Kept : (config : LsmConfig) (s : LsmTree) → IsValid s → Kept s (flush config s)
unfolding flush resolve first_of replay
flush-Kept config s h = elim (List-cases s.active_memtable.list) [
  | inl e ↦
      let s' = flushed s s.tiers in
      let h' : IsValid s' = record { ascending = tt; fit = tt; tables = h.tables } in
      subst (λ r. Kept s r) (sym (flush-entries config s [] e))
        (record {
          valid = h';
          same = view_of_visible s s' h h' (λ k.
              ap (λ m. visible (first_of (lookup k m) (resolve k (contents_of s.tiers)))) (sym e));
          ending = λ e. cc;
          logged = λ l. refl;
          same_flag = refl;
        })
  | inr (entry, (entries, e)) ↦
      let (t, (written, (table, same))) =
        write_table-IsTable config (entry ∷ entries) (subst (λ m. Ascending m) e h.ascending)
          (subst (λ m. AllEntries Fits m) e h.fit) in
      subst (λ r. Kept s r) (sym (flush-entries config s (entry ∷ entries) e))
        (rw (written, flush_entries) (flush_table config s t table h (same ∙ sym e)))
]

pub flush_if_full-Kept :
    (config : LsmConfig) (s : LsmTree) → IsValid s → Kept s (flush_if_full config s)
unfolding flush_if_full
flush_if_full-Kept config s h =
    elim (Bool-cases (leb config.flush_threshold_bytes s.active_memtable.approximate_size_bytes)) [
      | inl e ↦ rw e (flush-Kept config s h)
      | inr e ↦ rw e (unchanged s h)
    ]
