-- ===== src/Lsm/Engine/Written.antt =====
-- The tables that a flush or a compaction writes (lsm/lsm_tree_engine.cpp).
use cpp_database_engine.Common.{
  ℕ, zero, suc, ◌≡◌, ◌⊎◌, refl, sym, ap, ◌∙◌, inl, inr, true, Option, none, some, List, [], ◌∷◌,
  drop,
}
use cpp_database_engine.Common.Int.{ℤ, int64_min}
use cpp_database_engine.Common.SortedMap.{lookup, Ascending}
use cpp_database_engine.Lsm.Value.{LsmValue, Entries}
use cpp_database_engine.Lsm.Bloom.{new_filter}
use cpp_database_engine.Lsm.Bloom.NoFalseNegatives.{new_filter-IsSized}
use cpp_database_engine.Lsm.Merge.{merge}
use cpp_database_engine.Lsm.Merge.Heap.{first_of, resolve}
use cpp_database_engine.Lsm.Merge.Resolve.{merge-resolve}
use cpp_database_engine.Lsm.Table.{SsTable, SstPage, values_fit, open_file}
use cpp_database_engine.Lsm.Table.Lookup.{new_iterator}
use cpp_database_engine.Lsm.Table.Reopen.{open_file-build}
use cpp_database_engine.Lsm.Engine.{LsmConfig}
use cpp_database_engine.Lsm.Engine.Writes.{
  write_table, all_empty, tier_at, merged_tier, write_merged,
}
use cpp_database_engine.Lsm.Engine.Visible.{
  AllEntries, AllEntries-lookup, AllEntries-of_lookup, AllEntries-keep_entries,
  keep_entries-Ascending,
}
use cpp_database_engine.Lsm.Engine.View.{
  Fits, IsTable, AllTables, AllTiers, tier_contents, contents-entries, tier_contents-AllAscending,
}

fit-values_fit : (m : Entries) → AllEntries Fits m → values_fit m ≡ true
unfolding values_fit
fit-values_fit [] a = refl
fit-values_fit ((k, v) ∷ m) a = rw (a.0.1, fit-values_fit m a.1) refl

-- Writing a table succeeds, and the open table holds the entries.
pub write_table-IsTable :
    (config : LsmConfig) (m : Entries)
    → Ascending m
    → AllEntries Fits m
    → (t : SsTable) × ((write_table config m ≡ some t) × ((h : IsTable t) × (h.entries ≡ m)))
unfolding write_table
write_table-IsTable config m s fit =
    let (file, (t, (built, (opened, r)))) =
      open_file-build (new_filter config.filter_bits config.filter_hashes) m
        (new_filter-IsSized config.filter_bits config.filter_hashes) s (fit-values_fit m fit) in
    let opens : Option (List SstPage) → Option SsTable =
      λ o. elim o [ none ↦ none | some file ↦ open_file file ] in
    (t, (ap opens built ∙ opened, (record { entries = m; represents = r; fit = fit }, refl)))

first_of-some :
    (o other : Option LsmValue) (v : LsmValue)
    → first_of o other ≡ some v
    → (o ≡ some v) ⊎ (other ≡ some v)
unfolding first_of
first_of-some none other v e = inr e
first_of-some (some w) other v e = inl e

tier-fit :
    (tier : List SsTable) (k : ℤ) (v : LsmValue)
    → AllTables tier
    → resolve k (tier_contents tier) ≡ some v
    → Fits k v
unfolding resolve
tier-fit [] k v h e = absurd (cc)
tier-fit (sst ∷ tier) k v h e =
    elim (first_of-some (lookup k (new_iterator sst int64_min)) (resolve k (tier_contents tier)) v
      e) [
        | inl here ↦
            AllEntries-lookup Fits k v h.0.entries h.0.fit
              (ap (λ m. lookup k m) (sym (contents-entries sst h.0)) ∙ here)
        | inr later ↦ tier-fit tier k v h.1 later
      ]

pub tier_at-AllTables :
    (tiers : List (List SsTable)) (t : ℕ) → AllTiers tiers → AllTables (tier_at tiers t)
unfolding tier_at
tier_at-AllTables [] t h = tt
tier_at-AllTables (tier ∷ tiers) zero h = h.0
tier_at-AllTables (tier ∷ tiers) (suc t) h = tier_at-AllTables tiers t h.1

-- What compaction collects.
pub merged_tier-fit :
    (tiers : List (List SsTable)) (t : ℕ)
    → AllTiers tiers
    → Ascending (merged_tier tiers t) × AllEntries Fits (merged_tier tiers t)
unfolding merged_tier
merged_tier-fit tiers t h =
    let tier = tier_at tiers t in
    let tables = tier_at-AllTables tiers t h in
    let b = all_empty (drop (suc t) tiers) in
    let m = merge-resolve (tier_contents tier) (tier_contents-AllAscending tier tables) in
    let fit =
      AllEntries-of_lookup Fits (merge (tier_contents tier)) m.0
        (λ k v e. tier-fit tier k v tables (sym (m.1 k) ∙ e)) in
    (
      keep_entries-Ascending b (merge (tier_contents tier)) m.0,
      AllEntries-keep_entries Fits b (merge (tier_contents tier)) fit,
    )

pub first_of-none : (o : Option LsmValue) → first_of o none ≡ o
unfolding first_of
first_of-none none = refl
first_of-none (some v) = refl

-- The table that is written holds what was merged; none is written where nothing is left.
pub write_merged-tables :
    (config : LsmConfig) (m : Entries)
    → Ascending m
    → AllEntries Fits m
    → (new : List SsTable) × ((write_merged config m ≡ some new)
        × (AllTables new × ((k : ℤ) → resolve k (tier_contents new) ≡ lookup k m)))
unfolding write_merged resolve first_of
write_merged-tables config [] s fit = ([], (refl, (tt, λ k. refl)))
write_merged-tables config (entry ∷ m) s fit =
    let (t, (written, (h, same))) = write_table-IsTable config (entry ∷ m) s fit in
    let tables : Option SsTable → Option (List SsTable) =
      λ o. elim o [ none ↦ none | some sst ↦ some (sst ∷ []) ] in
    (
      t ∷ [],
      (
        ap tables written,
        (
          (h, tt),
          λ k.
              first_of-none (lookup k (new_iterator t int64_min))
              ∙ ap (λ l. lookup k l) (contents-entries t h ∙ same),
        ),
      ),
    )
