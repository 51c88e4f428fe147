-- ===== src/Lsm/Engine/Updates.antt =====
-- `Put` and `Delete` (lsm/lsm_tree_engine.cpp) on the map that a reader sees.
use cpp_database_engine.Common.{
  ◌≡◌, ◌≢◌, refl, sym, ap, subst, ◌∙◌, Bool, true, false, Option, none, some, List, [], ◌∷◌, ◌++◌,
  arith, leb, ltb, length, if◌then◌else◌,
}
use cpp_database_engine.Common.Int.{ℤ, eqb_ℤ, IsInt64}
use cpp_database_engine.Common.Bytes.{Bytes}
use cpp_database_engine.Common.SortedMap.{
  lookup, insert, erase, lookup-insert, lookup-erase, insert-Ascending, erase-Ascending,
  eq_of_lookup,
}
use cpp_database_engine.Lsm.Value.{MemTable, empty_memtable, stored, tombstone, put_mem, delete_mem}
use cpp_database_engine.Lsm.Merge.Heap.{first_of, resolve}
use cpp_database_engine.Lsm.Engine.{
  LsmConfig, LsmTree, LogUpdate, log_put, log_delete, Ending, invalid_argument, live_value,
}
use cpp_database_engine.Lsm.Engine.Writes.{
  log_update, flush_if_full, put, delete, replay_update, replay, max_value_size,
}
use cpp_database_engine.Lsm.Engine.Visible.{visible, AllEntries-insert}
use cpp_database_engine.Lsm.Engine.View.{
  Fits, IsValid, contents_of, sources, view, lookup-view, view-Ascending,
}
use cpp_database_engine.Lsm.Engine.Reads.{get-view}
use cpp_database_engine.Lsm.Engine.Compaction.{IsLogged}
use cpp_database_engine.Lsm.Engine.Flush.{flush_if_full-Kept}

-- The tree with the entry in its memtable, before the flush.
abbrev pub with_put : LsmConfig → LsmTree → ℤ → Bytes → LsmTree
with_put config s key v = record {
  active_memtable = put_mem s.active_memtable key v;
  tiers = s.tiers;
  memtable_wal = log_update config s (log_put key v);
  compaction_running = s.compaction_running;
}

abbrev pub with_delete : LsmConfig → LsmTree → ℤ → LsmTree
with_delete config s key = record {
  active_memtable = delete_mem s.active_memtable key;
  tiers = s.tiers;
  memtable_wal = log_update config s (log_delete key);
  compaction_running = s.compaction_running;
}

pub with_put-IsValid :
    (config : LsmConfig) (s : LsmTree) (k : ℤ) (v : Bytes)
    → IsValid s
    → IsInt64 k
    → leb (length v) 64 ≡ true
    → IsValid (with_put config s k v)
unfolding put_mem stored
with_put-IsValid config s k v h key fits = record {
  ascending = insert-Ascending k (stored v) s.active_memtable.list h.ascending;
  fit = AllEntries-insert Fits k (stored v) s.active_memtable.list (key, fits) h.fit;
  tables = h.tables;
}

pub with_delete-IsValid :
    (config : LsmConfig) (s : LsmTree) (k : ℤ)
    → IsValid s
    → IsInt64 k
    → IsValid (with_delete config s k)
unfolding delete_mem tombstone
with_delete-IsValid config s k h key = record {
  ascending = insert-Ascending k tombstone s.active_memtable.list h.ascending;
  fit = AllEntries-insert Fits k tombstone s.active_memtable.list (key, refl) h.fit;
  tables = h.tables;
}

with_put-view :
    (config : LsmConfig) (s : LsmTree) (k : ℤ) (v : Bytes)
    → IsValid s
    → IsValid (with_put config s k v)
    → view (with_put config s k v) ≡ insert k v (view s)
unfolding put_mem stored resolve first_of live_value
with_put-view config s k v h h' =
    let s' = with_put config s k v in
    let mem = s.active_memtable.list in
    eq_of_lookup (view s') (insert k v (view s)) (view-Ascending s' h')
      (insert-Ascending k v (view s) (view-Ascending s h))
      (λ j.
        lookup-view s' j h'
        ∙ ap (λ o. visible (first_of o (resolve j (contents_of s.tiers))))
            (lookup-insert k j (stored v) mem)
        ∙ picks j (eqb_ℤ k j)
        ∙ ap (λ o. if eqb_ℤ k j then some v else o) (sym (lookup-view s j h))
        ∙ sym (lookup-insert k j v (view s)))
  where
    picks :
        (j : ℤ) (b : Bool)
        → visible (
            first_of
              (if b then some (stored v) else lookup j s.active_memtable.list)
              (resolve j (contents_of s.tiers)))
          ≡ (if b then some v else visible (resolve j (sources s)))
    picks j true = refl
    picks j false = refl

with_delete-view :
    (config : LsmConfig) (s : LsmTree) (k : ℤ)
    → IsValid s
    → IsValid (with_delete config s k)
    → view (with_delete config s k) ≡ erase k (view s)
unfolding delete_mem tombstone resolve first_of live_value
with_delete-view config s k h h' =
    let s' = with_delete config s k in
    let mem = s.active_memtable.list in
    eq_of_lookup (view s') (erase k (view s)) (view-Ascending s' h')
      (erase-Ascending k (view s) (view-Ascending s h))
      (λ j.
        lookup-view s' j h'
        ∙ ap (λ o. visible (first_of o (resolve j (contents_of s.tiers))))
            (lookup-insert k j tombstone mem)
        ∙ picks j (eqb_ℤ k j)
        ∙ ap (λ o. if eqb_ℤ k j then none else o) (sym (lookup-view s j h))
        ∙ sym (lookup-erase k j (view s) (view-Ascending s h)))
  where
    picks :
        (j : ℤ) (b : Bool)
        → visible (
            first_of
              (if b then some tombstone else lookup j s.active_memtable.list)
              (resolve j (contents_of s.tiers)))
          ≡ (if b then none else visible (resolve j (sources s)))
    picks j true = refl
    picks j false = refl

replay-snoc :
    (mt : MemTable) (log : List LogUpdate) (update : LogUpdate)
    → replay mt (log ++ (update ∷ [])) ≡ replay_update (replay mt log) update
unfolding replay
replay-snoc mt [] update = refl
replay-snoc mt (first ∷ log) update = replay-snoc (replay_update mt first) log update

-- The log of the tree with one more update.
log_update-replay :
    (config : LsmConfig) (s : LsmTree) (update : LogUpdate)
    → config.wal_enabled ≡ true
    → IsLogged s
    → replay empty_memtable (log_update config s update) ≡ replay_update s.active_memtable update
unfolding log_update
log_update-replay config s update enabled logged =
    rw enabled
      (replay-snoc empty_memtable s.memtable_wal update ∙ ap (λ mt. replay_update mt update) logged)

-- An update: the tree that it leaves is valid and has the map, the call does not end in
-- `invalid_argument`, where the log is on it still rebuilds the memtable, and whether another thread is
-- compacting stays the same.
pub record Updated (config : LsmConfig) (s : LsmTree) (r : LsmTree × Ending) (m : List (ℤ × Bytes))
    : Type 0 where
  pub valid : IsValid r.0
  pub map : view r.0 ≡ m
  pub ending : r.1 ≢ invalid_argument
  pub logged : config.wal_enabled ≡ true → IsLogged s → IsLogged r.0
  pub same_flag : r.0.compaction_running ≡ s.compaction_running

put-fits :
    (config : LsmConfig) (s : LsmTree) (k : ℤ) (v : Bytes)
    → leb (length v) 64 ≡ true
    → put config s k v ≡ flush_if_full config (with_put config s k v)
unfolding put
put-fits config s k v fits =
    let small : ltb max_value_size (length v) ≡ false = ground arith in rw small refl

-- `Put`, with the flush and the compaction that it may start.
pub put-Updated :
    (config : LsmConfig) (s : LsmTree) (k : ℤ) (v : Bytes)
    → IsValid s
    → IsInt64 k
    → leb (length v) 64 ≡ true
    → Updated config s (put config s k v) (insert k v (view s))
unfolding replay_update
put-Updated config s k v h key fits =
    let s' = with_put config s k v in
    let h' = with_put-IsValid config s k v h key fits in
    let kept = flush_if_full-Kept config s' h' in
    subst (λ r. Updated config s r (insert k v (view s))) (sym (put-fits config s k v fits))
      (record {
        valid = kept.valid;
        map = kept.same ∙ with_put-view config s k v h h';
        ending = kept.ending;
        logged = λ on l. kept.logged (log_update-replay config s (log_put k v) on l);
        same_flag = kept.same_flag;
      })

-- A value beyond the maximum size is refused, and nothing changes.
pub put-large :
    (config : LsmConfig) (s : LsmTree) (k : ℤ) (v : Bytes)
    → leb (length v) 64 ≡ false
    → put config s k v ≡ (s, invalid_argument)
unfolding put
put-large config s k v large =
    let big : ltb max_value_size (length v) ≡ true = ground arith in rw big refl

-- `Delete`, and what it returns.
pub delete-Updated :
    (config : LsmConfig) (s : LsmTree) (k : ℤ)
    → IsValid s
    → IsInt64 k
    → Updated config s (delete config s k).0 (erase k (view s))
      × ((delete config s k).1 ≡ elim (lookup k (view s)) [ none ↦ false | some v ↦ true ])
unfolding replay_update delete
delete-Updated config s k h key =
    let s' = with_delete config s k in
    let h' = with_delete-IsValid config s k h key in
    let kept = flush_if_full-Kept config s' h' in
    let found : Option Bytes → Bool = λ o. elim o [ none ↦ false | some v ↦ true ] in
    (
      record {
        valid = kept.valid;
        map = kept.same ∙ with_delete-view config s k h h';
        ending = kept.ending;
        logged = λ on l. kept.logged (log_update-replay config s (log_delete k) on l);
        same_flag = kept.same_flag;
      },
      ap found (get-view s k h),
    )

-- `Put` upserts in the map that a reader sees, whether or not it flushes the memtable and compacts a
-- tier, and also where it ends in a `runtime_error` because the manifest has no room; it does not end
-- in `invalid_argument`: for a valid tree, a 64-bit key and a value within the maximum size.
pub put-view :
    (config : LsmConfig) (s : LsmTree) (k : ℤ) (v : Bytes)
    → IsValid s
    → IsInt64 k
    → leb (length v) 64 ≡ true
    → IsValid (put config s k v).0
      × ((view (put config s k v).0 ≡ insert k v (view s))
          × ((put config s k v).1 ≢ invalid_argument))
put-view config s k v h key fits =
    let u = put-Updated config s k v h key fits in (u.valid, (u.map, u.ending))

-- `Delete` erases the key from the map that a reader sees, also where a flush that it starts ends in a
-- `runtime_error`, and returns whether the key was there: for a valid tree and a 64-bit key.
pub delete-view :
    (config : LsmConfig) (s : LsmTree) (k : ℤ)
    → IsValid s
    → IsInt64 k
    → IsValid (delete config s k).0.0
      × ((view (delete config s k).0.0 ≡ erase k (view s))
          × ((delete config s k).1 ≡ elim (lookup k (view s)) [ none ↦ false | some v ↦ true ]))
delete-view config s k h key =
    let u = delete-Updated config s k h key in (u.0.valid, (u.0.map, u.1))
