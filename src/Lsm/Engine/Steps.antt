-- ===== src/Lsm/Engine/Steps.antt =====
-- Any sequence of the calls of `LSMTreeEngine` (lsm/lsm_tree_engine.h), of rounds of its compaction
-- thread, and of crashes with a restart from the log.
use cpp_database_engine.Common.{
  ◌≡◌, refl, sym, ap, subst, ◌∙◌, Bool, true, false, List, [], ◌∷◌, leb, length, ◌++◌,
}
use cpp_database_engine.Common.Int.{ℤ, IsInt64}
use cpp_database_engine.Common.Bytes.{Bytes}
use cpp_database_engine.Common.SortedMap.{lookup, insert, erase}
use cpp_database_engine.Lsm.Value.{MemTable, empty_memtable}
use cpp_database_engine.Lsm.Merge.{entries_left, push_all, push_valid, start, collect, merge}
use cpp_database_engine.Lsm.Engine.{
  LsmConfig, LsmTree, LogUpdate, Ending, returned, skip_tombstones, get,
}
use cpp_database_engine.Lsm.Engine.Writes.{
  put, delete, compact_one_tier, replay_generations, copied_log, start_with_wal, replay,
}
use cpp_database_engine.Lsm.Engine.View.{IsValid, view}
use cpp_database_engine.Lsm.Engine.Reads.{get-view}
use cpp_database_engine.Lsm.Engine.Compaction.{IsLogged, compact_one_tier-Kept}
use cpp_database_engine.Lsm.Engine.Updates.{put-Updated, delete-Updated}

-- A crash loses the memtable. The manifest names the tiers, where its last write returned.
pub data Step : Type 0 where
  put_step : ℤ → Bytes → Step
  delete_step : ℤ → Step
  compact_step : Step
  crash_step : Step

unfoldable pub step : LsmConfig → LsmTree → Step → LsmTree × Ending
step config s (put_step key v) = put config s key v
step config s (delete_step key) = (delete config s key).0
step config s compact_step = compact_one_tier config s
step config s crash_step = (start_with_wal s.tiers (s.memtable_wal ∷ []), returned)

unfoldable pub run : LsmConfig → LsmTree → List Step → LsmTree
run config s [] = s
run config s (first ∷ steps) = run config (step config s first).0 steps

-- Every call returns.
abbrev pub AllReturn : LsmConfig → LsmTree → List Step → Type 0
AllReturn config s [] = Unit
AllReturn config s (first ∷ steps) =
    ((step config s first).1 ≡ returned) × AllReturn config (step config s first).0 steps

-- The keys are 64-bit integers, and the values within the maximum size.
abbrev pub IsLegal : Step → Type 0
IsLegal (put_step key v) = IsInt64 key × (leb (length v) 64 ≡ true)
IsLegal (delete_step key) = IsInt64 key
IsLegal compact_step = Unit
IsLegal crash_step = Unit

abbrev pub AllLegal : List Step → Type 0
AllLegal [] = Unit
AllLegal (first ∷ steps) = IsLegal first × AllLegal steps

-- What the steps do to a map.
abbrev pub map_after : List (ℤ × Bytes) → List Step → List (ℤ × Bytes)
map_after m [] = m
map_after m (put_step key v ∷ steps) = map_after (insert key v m) steps
map_after m (delete_step key ∷ steps) = map_after (erase key m) steps
map_after m (compact_step ∷ steps) = map_after m steps
map_after m (crash_step ∷ steps) = map_after m steps

append_nil : (log : List LogUpdate) → log ++ [] ≡ log
append_nil [] = refl
append_nil (update ∷ log) = ap (λ l. update ∷ l) (append_nil log)

-- A restart from the log that rebuilds the memtable gives the tree back, where no thread was compacting.
pub restart-tree :
    (s : LsmTree)
    → IsLogged s
    → s.compaction_running ≡ false
    → start_with_wal s.tiers (s.memtable_wal ∷ []) ≡ s
unfolding start_with_wal replay_generations copied_log
restart-tree s logged free =
    ap (λ mt. tree mt (s.memtable_wal ++ []) false) logged
    ∙ ap (λ log. tree s.active_memtable log false) (append_nil s.memtable_wal)
    ∙ ap (λ b. tree s.active_memtable s.memtable_wal b) (sym free)
  where
    tree : MemTable → List LogUpdate → Bool → LsmTree
    tree mt log b = record {
      active_memtable = mt;
      tiers = s.tiers;
      memtable_wal = log;
      compaction_running = b;
    }

pub run-Updated :
    (config : LsmConfig) (s : LsmTree) (m : List (ℤ × Bytes)) (steps : List Step)
    → config.wal_enabled ≡ true
    → IsValid s
    → IsLogged s
    → s.compaction_running ≡ false
    → view s ≡ m
    → AllLegal steps
    → AllReturn config s steps
    → IsValid (run config s steps) × (view (run config s steps) ≡ map_after m steps)
unfolding run step start_with_wal
run-Updated config s m [] on h logged free e legal returns = (h, e)
run-Updated config s m (put_step k v ∷ steps) on h logged free e legal returns =
    let u = put-Updated config s k v h legal.0.0 legal.0.1 in
    run-Updated config (put config s k v).0 (insert k v m) steps on u.valid (u.logged on logged)
      (u.same_flag ∙ free) (u.map ∙ ap (λ l. insert k v l) e) legal.1 returns.1
run-Updated config s m (delete_step k ∷ steps) on h logged free e legal returns =
    let u = (delete-Updated config s k h legal.0).0 in
    run-Updated config (delete config s k).0.0 (erase k m) steps on u.valid (u.logged on logged)
      (u.same_flag ∙ free) (u.map ∙ ap (λ l. erase k l) e) legal.1 returns.1
run-Updated config s m (compact_step ∷ steps) on h logged free e legal returns =
    let kept = compact_one_tier-Kept config s h in
    run-Updated config (compact_one_tier config s).0 m steps on kept.valid (kept.logged logged)
      (kept.same_flag ∙ free) (kept.same ∙ e) legal.1 returns.1
run-Updated config s m (crash_step ∷ steps) on h logged free e legal returns =
    let same = sym (restart-tree s logged free) in
    run-Updated config (start_with_wal s.tiers (s.memtable_wal ∷ [])) m steps on
      (subst (λ t. IsValid t) same h) (subst (λ t. IsLogged t) same logged) refl
      (subst (λ t. view t ≡ m) same e) legal.1 returns.1

-- The tree that the constructor makes of an empty directory.
abbrev pub empty_tree : LsmTree
empty_tree = record {
  active_memtable = empty_memtable;
  tiers = [];
  memtable_wal = [];
  compaction_running = false;
}

pub empty_tree-IsLogged : IsLogged empty_tree
unfolding replay
empty_tree-IsLogged = refl

pub empty_tree-view : view empty_tree ≡ []
unfolding view merge entries_left start push_all push_valid collect skip_tombstones
empty_tree-view = refl

-- With the log on, the tree is a map that survives crashes: from an empty directory, after any sequence
-- of puts and deletes of 64-bit keys with values within the maximum size, with rounds of compaction and
-- crashes with a restart anywhere between them, `Get` finds what the puts and deletes alone make of an
-- empty map, provided that every call has returned.
pub get-run :
    (config : LsmConfig) (steps : List Step) (k : ℤ)
    → config.wal_enabled ≡ true
    → AllLegal steps
    → AllReturn config empty_tree steps
    → get (run config empty_tree steps) k ≡ lookup k (map_after [] steps)
get-run config steps k on legal returns =
    let r =
      run-Updated config empty_tree [] steps on (record { ascending = tt; fit = tt; tables = tt })
        empty_tree-IsLogged refl empty_tree-view legal returns in
    get-view (run config empty_tree steps) k r.0 ∙ ap (λ m. lookup k m) r.1
