-- ===== src/Lsm/Engine/View.antt =====
-- What the LSM tree (lsm/lsm_tree_engine.cpp) holds: the map of a reader, and the states that the
-- operations reach.
use cpp_database_engine.Common.{
  ◌≡◌, refl, sym, ap, subst, ◌∙◌, true, false, List, [], ◌∷◌, ◌++◌, map, arith, length, leb,
}
use cpp_database_engine.Common.Int.{ℤ, ltb_ℤ, int64_min, IsInt64}
use cpp_database_engine.Common.Bytes.{Bytes}
use cpp_database_engine.Common.SortedMap.{lookup, from, Ascending, eq_of_lookup}
use cpp_database_engine.Lsm.Value.{LsmValue, Entries}
use cpp_database_engine.Lsm.Merge.{merge}
use cpp_database_engine.Lsm.Merge.Heap.{resolve, AllAscending}
use cpp_database_engine.Lsm.Merge.Resolve.{merge-resolve}
use cpp_database_engine.Lsm.Table.{SsTable}
use cpp_database_engine.Lsm.Table.Lookup.{new_iterator}
use cpp_database_engine.Lsm.Table.Contents.{Represents}
use cpp_database_engine.Lsm.Table.Iterate.{new_iterator-from}
use cpp_database_engine.Lsm.Engine.{LsmTree, skip_tombstones}
use cpp_database_engine.Lsm.Engine.Visible.{
  visible, AllEntries, skip_tombstones-Ascending, lookup-skip_tombstones,
}

-- A 64-bit key, and a value within the maximum size.
abbrev pub Fits : ℤ → LsmValue → Type 0
Fits k v = IsInt64 k × (leb (length v.value) 64 ≡ true)

-- A table that an open file gives.
pub record IsTable (t : SsTable) : Type 0 where
  pub entries : Entries
  pub represents : Represents t entries
  pub fit : AllEntries Fits entries

abbrev pub AllTables : List SsTable → Type 0
AllTables [] = Unit
AllTables (sst ∷ tier) = IsTable sst × AllTables tier

abbrev pub AllTiers : List (List SsTable) → Type 0
AllTiers [] = Unit
AllTiers (tier ∷ tiers) = AllTables tier × AllTiers tiers

pub record IsValid (s : LsmTree) : Type 0 where
  pub ascending : Ascending s.active_memtable.list
  pub fit : AllEntries Fits s.active_memtable.list
  pub tables : AllTiers s.tiers

abbrev pub tier_contents : List SsTable → List Entries
tier_contents tier = map (λ sst. new_iterator sst int64_min) tier

abbrev pub contents_of : List (List SsTable) → List Entries
contents_of [] = []
contents_of (tier ∷ tiers) = tier_contents tier ++ contents_of tiers

abbrev pub sources : LsmTree → List Entries
sources s = s.active_memtable.list ∷ contents_of s.tiers

-- The abstract map: every key with its newest value, without the deleted ones.
unfoldable pub view : LsmTree → List (ℤ × Bytes)
view s = skip_tombstones (merge (sources s))

from_min : (m : Entries) → AllEntries Fits m → from int64_min m ≡ m
from_min [] a = refl
from_min ((k, v) ∷ m) a =
    let low = a.0.0.0 in let stop : ltb_ℤ k int64_min ≡ false = ground arith in rw stop refl

-- A table's iterator from the least key yields all of it.
pub contents-entries : (t : SsTable) (h : IsTable t) → new_iterator t int64_min ≡ h.entries
contents-entries t h =
    new_iterator-from t h.entries int64_min h.represents ∙ from_min h.entries h.fit

pub tier_contents-AllAscending :
    (tier : List SsTable) → AllTables tier → AllAscending (tier_contents tier)
tier_contents-AllAscending [] h = tt
tier_contents-AllAscending (sst ∷ tier) h = (
  subst (λ m. Ascending m) (sym (contents-entries sst h.0)) h.0.represents.ascending,
  tier_contents-AllAscending tier h.1,
)

pub AllAscending-append :
    (xs ys : List Entries) → AllAscending xs → AllAscending ys → AllAscending (xs ++ ys)
AllAscending-append [] ys hx hy = hy
AllAscending-append (x ∷ xs) ys hx hy = (hx.0, AllAscending-append xs ys hx.1 hy)

pub contents_of-AllAscending :
    (tiers : List (List SsTable)) → AllTiers tiers → AllAscending (contents_of tiers)
contents_of-AllAscending [] h = tt
contents_of-AllAscending (tier ∷ tiers) h =
    AllAscending-append (tier_contents tier) (contents_of tiers)
      (tier_contents-AllAscending tier h.0) (contents_of-AllAscending tiers h.1)

pub sources-AllAscending : (s : LsmTree) → IsValid s → AllAscending (sources s)
sources-AllAscending s h = (h.ascending, contents_of-AllAscending s.tiers h.tables)

-- The map at a key.
pub lookup-view :
    (s : LsmTree) (k : ℤ) → IsValid s → lookup k (view s) ≡ visible (resolve k (sources s))
unfolding view
lookup-view s k h =
    let m = merge-resolve (sources s) (sources-AllAscending s h) in
    lookup-skip_tombstones k (merge (sources s)) m.0 ∙ ap (λ o. visible o) (m.1 k)

pub view-Ascending : (s : LsmTree) → IsValid s → Ascending (view s)
unfolding view
view-Ascending s h =
    skip_tombstones-Ascending (merge (sources s))
      (merge-resolve (sources s) (sources-AllAscending s h)).0

-- Two valid trees that show a reader the same at every key have the same map.
pub view_of_visible :
    (s s' : LsmTree)
    → IsValid s
    → IsValid s'
    → ((k : ℤ) → visible (resolve k (sources s')) ≡ visible (resolve k (sources s)))
    → view s' ≡ view s
view_of_visible s s' h h' same =
    eq_of_lookup (view s') (view s) (view-Ascending s' h') (view-Ascending s h)
      (λ k. lookup-view s' k h' ∙ same k ∙ sym (lookup-view s k h))
