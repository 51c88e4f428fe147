-- ===== src/Lsm/Engine/Compaction.antt =====
-- `CompactOneTierIfNeeded` (lsm/lsm_tree_engine.cpp) changes nothing that a reader sees.
use cpp_database_engine.Common.{
  ℕ, zero, suc, ◌≡◌, ◌≢◌, refl, sym, ap, ◌∙◌, inl, inr, true, false, none, List, [], ◌∷◌, ◌++◌,
  arith, Bool-cases, Option-cases, subst, if◌then◌else◌,
}
use cpp_database_engine.Common.Chunks.{append_assoc}
use cpp_database_engine.Common.Int.{ℤ, int64_min}
use cpp_database_engine.Common.SortedMap.{lookup}
use cpp_database_engine.Lsm.Value.{empty_memtable}
use cpp_database_engine.Lsm.Merge.{merge}
use cpp_database_engine.Lsm.Merge.Heap.{first_of, resolve}
use cpp_database_engine.Lsm.Merge.Resolve.{merge-resolve}
use cpp_database_engine.Lsm.Table.{SsTable}
use cpp_database_engine.Lsm.Table.Lookup.{new_iterator}
use cpp_database_engine.Lsm.Engine.{LsmConfig, LsmTree, Ending, returned, invalid_argument}
use cpp_database_engine.Lsm.Engine.Writes.{
  find_tier, all_empty, tier_at, keep_entries, merged_tier, insert_front, replace_tier, compact_due,
  compact_one_tier, persist_manifest, replay,
}
use cpp_database_engine.Lsm.Engine.Visible.{
  visible, keep_entries-false, visible-keep_entries, visible-first_of, resolve-append,
}
use cpp_database_engine.Lsm.Engine.View.{
  AllTables, AllTiers, IsValid, tier_contents, contents_of, view, tier_contents-AllAscending,
  view_of_visible,
}
use cpp_database_engine.Lsm.Engine.Written.{merged_tier-fit, first_of-none, write_merged-tables}

contents_of_empty : (tiers : List (List SsTable)) → all_empty tiers ≡ true → contents_of tiers ≡ []
unfolding all_empty
contents_of_empty [] e = refl
contents_of_empty ([] ∷ tiers) e = contents_of_empty tiers e
contents_of_empty ((sst ∷ tier) ∷ tiers) e = absurd (cc)

tier_contents-append :
    (new tier : List SsTable)
    → tier_contents (new ++ tier) ≡ tier_contents new ++ tier_contents tier
tier_contents-append [] tier = refl
tier_contents-append (sst ∷ new) tier =
    ap (λ l. new_iterator sst int64_min ∷ l) (tier_contents-append new tier)

-- The tables that are put in front are asked first.
pub resolve-insert_front :
    (k : ℤ) (new : List SsTable) (tiers : List (List SsTable))
    → resolve k (contents_of (insert_front new tiers))
      ≡ first_of (resolve k (tier_contents new)) (resolve k (contents_of tiers))
unfolding insert_front
resolve-insert_front k new [] = resolve-append k (tier_contents new) []
resolve-insert_front k new (tier ∷ tiers) =
    ap (λ l. resolve k (l ++ contents_of tiers)) (tier_contents-append new tier)
    ∙ ap (λ l. resolve k l)
        (append_assoc (tier_contents new) (tier_contents tier) (contents_of tiers))
    ∙ resolve-append k (tier_contents new) (tier_contents tier ++ contents_of tiers)

resolve_nil : (k : ℤ) → resolve k [] ≡ none
unfolding resolve
resolve_nil k = refl

merged_visible :
    (k : ℤ) (tier : List SsTable) (tiers : List (List SsTable))
    → AllTables tier
    → visible (
        first_of
          (lookup k (keep_entries (all_empty tiers) (merge (tier_contents tier))))
          (resolve k (contents_of tiers)))
      ≡ visible (first_of (resolve k (tier_contents tier)) (resolve k (contents_of tiers)))
merged_visible k tier tiers h =
    let all = merge (tier_contents tier) in
    let m = merge-resolve (tier_contents tier) (tier_contents-AllAscending tier h) in
    elim (Bool-cases (all_empty tiers)) [
      | inl empty ↦
          let below : resolve k (contents_of tiers) ≡ none =
            ap (λ cs. resolve k cs) (contents_of_empty tiers empty) ∙ resolve_nil k in
          ap (λ o. visible (first_of (lookup k (keep_entries (all_empty tiers) all)) o)) below
          ∙ ap (λ o. visible o) (first_of-none (lookup k (keep_entries (all_empty tiers) all)))
          ∙ visible-keep_entries k (all_empty tiers) all m.0
          ∙ ap (λ o. visible o) (m.1 k)
          ∙ sym (ap (λ o. visible o) (first_of-none (resolve k (tier_contents tier))))
          ∙ sym (ap (λ o. visible (first_of (resolve k (tier_contents tier)) o)) below)
      | inr filled ↦
          ap
            (λ b.
              visible (first_of (lookup k (keep_entries b all)) (resolve k (contents_of tiers))))
            filled
          ∙ ap (λ l. visible (first_of (lookup k l) (resolve k (contents_of tiers))))
              (keep_entries-false all)
          ∙ ap (λ o. visible (first_of o (resolve k (contents_of tiers)))) (m.1 k)
    ]

-- Moving a merged tier down shows a reader the same.
replace_tier-visible :
    (k : ℤ) (tiers : List (List SsTable)) (t : ℕ) (new : List SsTable)
    → AllTiers tiers
    → resolve k (tier_contents new) ≡ lookup k (merged_tier tiers t)
    → visible (resolve k (contents_of (replace_tier tiers t new)))
      ≡ visible (resolve k (contents_of tiers))
unfolding replace_tier merged_tier tier_at
replace_tier-visible k [] t new h e = refl
replace_tier-visible k (tier ∷ tiers) zero new h e =
    ap (λ o. visible o) (resolve-insert_front k new tiers)
    ∙ ap (λ o. visible (first_of o (resolve k (contents_of tiers)))) e
    ∙ merged_visible k tier tiers h.0
    ∙ sym (ap (λ o. visible o) (resolve-append k (tier_contents tier) (contents_of tiers)))
replace_tier-visible k (tier ∷ tiers) (suc t) new h e =
    ap (λ o. visible o)
      (resolve-append k (tier_contents tier) (contents_of (replace_tier tiers t new)))
    ∙ visible-first_of (resolve k (tier_contents tier)) _ _
        (replace_tier-visible k tiers t new h.1 e)
    ∙ sym (ap (λ o. visible o) (resolve-append k (tier_contents tier) (contents_of tiers)))

AllTables-append :
    (new tier : List SsTable) → AllTables new → AllTables tier → AllTables (new ++ tier)
AllTables-append [] tier hn ht = ht
AllTables-append (sst ∷ new) tier hn ht = (hn.0, AllTables-append new tier hn.1 ht)

pub insert_front-AllTiers :
    (new : List SsTable) (tiers : List (List SsTable))
    → AllTables new
    → AllTiers tiers
    → AllTiers (insert_front new tiers)
unfolding insert_front
insert_front-AllTiers new [] hn h = (hn, tt)
insert_front-AllTiers new (tier ∷ tiers) hn h = (AllTables-append new tier hn h.0, h.1)

replace_tier-AllTiers :
    (tiers : List (List SsTable)) (t : ℕ) (new : List SsTable)
    → AllTiers tiers
    → AllTables new
    → AllTiers (replace_tier tiers t new)
unfolding replace_tier
replace_tier-AllTiers [] t new h hn = tt
replace_tier-AllTiers (tier ∷ tiers) zero new h hn = (tt, insert_front-AllTiers new tiers hn h.1)
replace_tier-AllTiers (tier ∷ tiers) (suc t) new h hn =
    (h.0, replace_tier-AllTiers tiers t new h.1 hn)

-- The log of the memtable rebuilds it.
abbrev pub IsLogged : LsmTree → Type 0
IsLogged s = replay empty_memtable s.memtable_wal ≡ s.active_memtable

-- What a reader sees is kept, and the log still rebuilds the memtable; the call does not end in
-- `invalid_argument`, and whether another thread is compacting stays the same.
pub record Kept (s : LsmTree) (r : LsmTree × Ending) : Type 0 where
  pub valid : IsValid r.0
  pub same : view r.0 ≡ view s
  pub ending : r.1 ≢ invalid_argument
  pub logged : IsLogged s → IsLogged r.0
  pub same_flag : r.0.compaction_running ≡ s.compaction_running

-- A call that returns the tree as it is.
pub unchanged : (s : LsmTree) → IsValid s → Kept s (s, returned)
unchanged s h = record {
  valid = h;
  same = refl;
  ending = λ e. cc;
  logged = λ l. l;
  same_flag = refl;
}

pub persist_manifest-ending :
    (tiers : List (List SsTable)) → persist_manifest tiers ≢ invalid_argument
unfolding persist_manifest
persist_manifest-ending tiers e = ground arith

compact_due-Kept : (config : LsmConfig) (s : LsmTree) → IsValid s → Kept s (compact_due config s)
unfolding compact_due resolve
compact_due-Kept config s h = elim (Option-cases (find_tier config 0 s.tiers)) [
  | inl idle ↦ rw (idle, compact_due) (unchanged s h)
  | inr (t, found) ↦
      let m = merged_tier-fit s.tiers t h.tables in
      let (new, (written, (tables, hold))) =
        write_merged-tables config (merged_tier s.tiers t) m.0 m.1 in
      let tiers = replace_tier s.tiers t new in
      let s' : LsmTree = record s { tiers = tiers } in
      let h' : IsValid s' = record {
        ascending = h.ascending;
        fit = h.fit;
        tables = replace_tier-AllTiers s.tiers t new h.tables tables;
      } in
      rw (found, compact_due, written)
        (record {
          valid = h';
          same = view_of_visible s s' h h' (λ k.
              visible-first_of (lookup k s.active_memtable.list) _ _
                (replace_tier-visible k s.tiers t new h.tables (hold k)));
          ending = persist_manifest-ending tiers;
          logged = λ l. l;
          same_flag = refl;
        })
]

compact_busy :
    (config : LsmConfig) (s : LsmTree)
    → s.compaction_running ≡ true
    → compact_one_tier config s ≡ (s, returned)
unfolding compact_one_tier
compact_busy config s busy = ap (λ b. if b then (s, returned) else compact_due config s) busy

pub compact_free :
    (config : LsmConfig) (s : LsmTree)
    → s.compaction_running ≡ false
    → compact_one_tier config s ≡ compact_due config s
unfolding compact_one_tier
compact_free config s free = ap (λ b. if b then (s, returned) else compact_due config s) free

-- One round of compaction.
pub compact_one_tier-Kept :
    (config : LsmConfig) (s : LsmTree) → IsValid s → Kept s (compact_one_tier config s)
compact_one_tier-Kept config s h = elim (Bool-cases s.compaction_running) [
  | inl busy ↦ subst (λ r. Kept s r) (sym (compact_busy config s busy)) (unchanged s h)
  | inr free ↦
      subst (λ r. Kept s r) (sym (compact_free config s free)) (compact_due-Kept config s h)
]

-- Compaction keeps the map that a reader sees: for a valid tree and any tier that is due, the tree
-- stays valid with the same map, whether tombstones are dropped or not, and also where it ends in a
-- `runtime_error` because the manifest has no room; it does not end in `invalid_argument`.
pub compact_one_tier-view :
    (config : LsmConfig) (s : LsmTree)
    → IsValid s
    → IsValid (compact_one_tier config s).0
      × ((view (compact_one_tier config s).0 ≡ view s)
          × ((compact_one_tier config s).1 ≢ invalid_argument))
compact_one_tier-view config s h =
    let kept = compact_one_tier-Kept config s h in (kept.valid, (kept.same, kept.ending))
