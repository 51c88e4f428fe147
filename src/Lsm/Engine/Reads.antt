-- ===== src/Lsm/Engine/Reads.antt =====
-- `Get` and `Scan` (lsm/lsm_tree_engine.cpp) on the map that a reader sees.
use cpp_database_engine.Common.{
  ◌≡◌, refl, sym, ap, subst, ◌∙◌, inl, inr, Bool, true, false, Option, none, some, List, [], ◌∷◌,
  arith, Bool-cases, if◌then◌else◌,
}
use cpp_database_engine.Common.Int.{ℤ, ltb_ℤ, int64_min}
use cpp_database_engine.Common.SortedMap.{lookup, from, Ascending, from-Ascending, eq_of_lookup}
use cpp_database_engine.Common.Ranges.{lookup-from}
use cpp_database_engine.Lsm.Value.{LsmValue, get_mem}
use cpp_database_engine.Lsm.Merge.{merge}
use cpp_database_engine.Lsm.Merge.Heap.{first_of, resolve, AllAscending}
use cpp_database_engine.Lsm.Merge.Resolve.{merge-resolve}
use cpp_database_engine.Lsm.Table.{SsTable}
use cpp_database_engine.Lsm.Table.Lookup.{table_might_contain, table_get, new_iterator}
use cpp_database_engine.Lsm.Table.Contents.{table_get-lookup}
use cpp_database_engine.Lsm.Table.Iterate.{new_iterator-from, from_past_back}
use cpp_database_engine.Lsm.Engine.{
  LsmTree, live_value, get_in_tier, get_in_tiers, get, tier_cursors, tiers_cursors, scan,
}
use cpp_database_engine.Lsm.Engine.Visible.{
  visible, skip_tombstones-Ascending, lookup-skip_tombstones, resolve-append,
}
use cpp_database_engine.Lsm.Engine.View.{
  IsTable, AllTables, AllTiers, IsValid, tier_contents, contents_of, sources, view,
  contents-entries, AllAscending-append, lookup-view, view-Ascending,
}

-- A first hit, as the loops take it.
first_hit :
    (o later : Option LsmValue) → elim o [ none ↦ later | some v ↦ some v ] ≡ first_of o later
unfolding first_of
first_hit none later = refl
first_hit (some v) later = refl

lookup-contents :
    (k : ℤ) (sst : SsTable) (h : IsTable sst)
    → lookup k (new_iterator sst int64_min) ≡ table_get sst k
lookup-contents k sst h =
    ap (λ m. lookup k m) (contents-entries sst h)
    ∙ sym (table_get-lookup sst h.entries k h.represents)

turned_away_get :
    (k : ℤ) (sst : SsTable) → table_might_contain sst k ≡ false → table_get sst k ≡ none
unfolding table_get
turned_away_get k sst e = rw e refl

get_in_tier-resolve :
    (k : ℤ) (tier : List SsTable)
    → AllTables tier
    → get_in_tier k tier ≡ resolve k (tier_contents tier)
unfolding get_in_tier resolve first_of
get_in_tier-resolve k [] h = refl
get_in_tier-resolve k (sst ∷ tier) h =
    let ih = get_in_tier-resolve k tier h.1 in
    let found = lookup-contents k sst h.0 in
    let all : first_of (table_get sst k) (get_in_tier k tier)
        ≡ first_of (lookup k (new_iterator sst int64_min)) (resolve k (tier_contents tier)) =
      ap (λ o. first_of o (get_in_tier k tier)) (sym found)
      ∙ ap (λ o. first_of (lookup k (new_iterator sst int64_min)) o) ih in
    elim (Bool-cases (table_might_contain sst k)) [
      | inl e ↦ rw e (first_hit (table_get sst k) (get_in_tier k tier) ∙ all)
      | inr e ↦
          rw e (sym (ap (λ o. first_of o (get_in_tier k tier)) (turned_away_get k sst e)) ∙ all)
    ]

get_in_tiers-resolve :
    (k : ℤ) (tiers : List (List SsTable))
    → AllTiers tiers
    → get_in_tiers k tiers ≡ resolve k (contents_of tiers)
unfolding get_in_tiers resolve
get_in_tiers-resolve k [] h = refl
get_in_tiers-resolve k (tier ∷ tiers) h =
    first_hit (get_in_tier k tier) (get_in_tiers k tiers)
    ∙ ap (λ o. first_of o (get_in_tiers k tiers)) (get_in_tier-resolve k tier h.0)
    ∙ ap (λ o. first_of (resolve k (tier_contents tier)) o) (get_in_tiers-resolve k tiers h.1)
    ∙ sym (resolve-append k (tier_contents tier) (contents_of tiers))

seen :
    (o later : Option LsmValue)
    → elim o [ none ↦ elim later [ none ↦ none | some v ↦ live_value v ] | some v ↦ live_value v ]
      ≡ visible (first_of o later)
unfolding first_of
seen none none = refl
seen none (some v) = refl
seen (some v) later = refl

-- `Get` is the lookup in the abstract map: in every valid tree it finds a key exactly where the newest
-- entry for it is no tombstone, and gives that entry's value.
pub get-view : (s : LsmTree) (k : ℤ) → IsValid s → get s k ≡ lookup k (view s)
unfolding get get_mem resolve
get-view s k h =
    seen (lookup k s.active_memtable.list) (get_in_tiers k s.tiers)
    ∙ ap (λ o. visible (first_of (lookup k s.active_memtable.list) o))
        (get_in_tiers-resolve k s.tiers h.tables)
    ∙ sym (lookup-view s k h)

table_cursor :
    (j k : ℤ) (sst : SsTable)
    → IsTable sst
    → lookup j (new_iterator sst k)
      ≡ (if ltb_ℤ j k then none else lookup j (new_iterator sst int64_min))
table_cursor j k sst h =
    ap (λ m. lookup j m) (new_iterator-from sst h.entries k h.represents)
    ∙ lookup-from j k h.entries h.represents.ascending
    ∙ ap (λ m. if ltb_ℤ j k then none else lookup j m) (sym (contents-entries sst h))

-- A table whose last key is before the start key has nothing to add.
skipped_table :
    (j k : ℤ) (sst : SsTable)
    → IsTable sst
    → ltb_ℤ sst.max_key k ≡ true
    → lookup j (new_iterator sst k) ≡ none
skipped_table j k sst h e =
    ap (λ m. lookup j m)
      (new_iterator-from sst h.entries k h.represents
        ∙ from_past_back k h.entries h.represents.ascending
            (subst (λ i. ltb_ℤ i k ≡ true) h.represents.last e))

first_of-if :
    (b : Bool) (x y : Option LsmValue)
    → first_of (if b then none else x) (if b then none else y) ≡ (if b then none else first_of x y)
unfolding first_of
first_of-if true x y = refl
first_of-if false x y = refl

-- The cursors of a scan resolve a key from the start key on as the tables do, and no key before it.
tier_cursors-resolve :
    (j k : ℤ) (tier : List SsTable)
    → AllTables tier
    → resolve j (tier_cursors k tier) ≡ (if ltb_ℤ j k then none else resolve j (tier_contents tier))
unfolding tier_cursors resolve first_of
tier_cursors-resolve j k [] h = ground arith
tier_cursors-resolve j k (sst ∷ tier) h =
    let ih = tier_cursors-resolve j k tier h.1 in
    let all : first_of (lookup j (new_iterator sst k)) (resolve j (tier_cursors k tier))
        ≡ (if ltb_ℤ j k then none else resolve j (tier_contents (sst ∷ tier))) =
      ap (λ o. first_of o (resolve j (tier_cursors k tier))) (table_cursor j k sst h.0)
      ∙ ap (λ o. first_of (if ltb_ℤ j k then none else lookup j (new_iterator sst int64_min)) o) ih
      ∙ first_of-if (ltb_ℤ j k) (lookup j (new_iterator sst int64_min))
          (resolve j (tier_contents tier)) in
    elim (Bool-cases (ltb_ℤ sst.max_key k)) [
      | inl e ↦ rw e (
          sym (ap (λ o. first_of o (resolve j (tier_cursors k tier))) (skipped_table j k sst h.0 e))
          ∙ all)
      | inr e ↦ rw e all
    ]

tiers_cursors-resolve :
    (j k : ℤ) (tiers : List (List SsTable))
    → AllTiers tiers
    → resolve j (tiers_cursors k tiers)
      ≡ (if ltb_ℤ j k then none else resolve j (contents_of tiers))
unfolding tiers_cursors resolve
tiers_cursors-resolve j k [] h = ground arith
tiers_cursors-resolve j k (tier ∷ tiers) h =
    resolve-append j (tier_cursors k tier) (tiers_cursors k tiers)
    ∙ ap (λ o. first_of o (resolve j (tiers_cursors k tiers))) (tier_cursors-resolve j k tier h.0)
    ∙ ap (λ o. first_of (if ltb_ℤ j k then none else resolve j (tier_contents tier)) o)
        (tiers_cursors-resolve j k tiers h.1)
    ∙ first_of-if (ltb_ℤ j k) (resolve j (tier_contents tier)) (resolve j (contents_of tiers))
    ∙ ap (λ o. if ltb_ℤ j k then none else o)
        (sym (resolve-append j (tier_contents tier) (contents_of tiers)))

tier_cursors-AllAscending :
    (k : ℤ) (tier : List SsTable) → AllTables tier → AllAscending (tier_cursors k tier)
unfolding tier_cursors
tier_cursors-AllAscending k [] h = tt
tier_cursors-AllAscending k (sst ∷ tier) h =
    let ih = tier_cursors-AllAscending k tier h.1 in
    elim (Bool-cases (ltb_ℤ sst.max_key k)) [
      | inl e ↦ rw e ih
      | inr e ↦ rw e (
        subst (λ m. Ascending m) (sym (new_iterator-from sst h.0.entries k h.0.represents))
            (from-Ascending k h.0.entries h.0.represents.ascending),
        ih,
      )
    ]

tiers_cursors-AllAscending :
    (k : ℤ) (tiers : List (List SsTable)) → AllTiers tiers → AllAscending (tiers_cursors k tiers)
unfolding tiers_cursors
tiers_cursors-AllAscending k [] h = tt
tiers_cursors-AllAscending k (tier ∷ tiers) h =
    AllAscending-append (tier_cursors k tier) (tiers_cursors k tiers)
      (tier_cursors-AllAscending k tier h.0) (tiers_cursors-AllAscending k tiers h.1)

visible-if :
    (b : Bool) (o : Option LsmValue)
    → visible (if b then none else o) ≡ (if b then none else visible o)
visible-if true o = refl
visible-if false o = refl

-- `Scan` yields the entries of the abstract map from the start key on, in key order.
pub scan-view : (s : LsmTree) (k : ℤ) → IsValid s → scan s k ≡ from k (view s)
unfolding scan resolve
scan-view s k h =
    let mem = s.active_memtable.list in
    let cursors = from k mem ∷ tiers_cursors k s.tiers in
    let m =
      merge-resolve cursors
        (from-Ascending k mem h.ascending, tiers_cursors-AllAscending k s.tiers h.tables) in
    eq_of_lookup (scan s k) (from k (view s)) (skip_tombstones-Ascending (merge cursors) m.0)
      (from-Ascending k (view s) (view-Ascending s h))
      (λ j.
        lookup-skip_tombstones j (merge cursors) m.0
        ∙ ap (λ o. visible o) (m.1 j)
        ∙ ap (λ o. visible (first_of o (resolve j (tiers_cursors k s.tiers))))
            (lookup-from j k mem h.ascending)
        ∙ ap (λ o. visible (first_of (if ltb_ℤ j k then none else lookup j mem) o))
            (tiers_cursors-resolve j k s.tiers h.tables)
        ∙ ap (λ o. visible o)
            (first_of-if (ltb_ℤ j k) (lookup j mem) (resolve j (contents_of s.tiers)))
        ∙ visible-if (ltb_ℤ j k) (resolve j (sources s))
        ∙ ap (λ o. if ltb_ℤ j k then none else o) (sym (lookup-view s j h))
        ∙ sym (lookup-from j k (view s) (view-Ascending s h)))
