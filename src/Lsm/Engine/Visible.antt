-- ===== src/Lsm/Engine/Visible.antt =====
-- Hiding tombstones, and predicates on entries, for lsm/lsm_tree_engine.cpp.
use cpp_database_engine.Common.{
  ◌≡◌, refl, sym, ap, subst, ◌∙◌, inl, inr, Bool, true, false, ◌&&◌, Option, none, some, List, [],
  ◌∷◌, ◌++◌, arith, Bool-cases,
}
use cpp_database_engine.Common.Int.{ℤ, ltb_ℤ, eqb_ℤ, eqb_ℤ_iff}
use cpp_database_engine.Common.Bytes.{Bytes}
use cpp_database_engine.Common.SortedMap.{
  lookup, insert, Above, Ascending, lookup_of_Above, lookup_head,
}
use cpp_database_engine.Lsm.Value.{LsmValue, Entries}
use cpp_database_engine.Lsm.Merge.Heap.{first_of, resolve}
use cpp_database_engine.Lsm.Engine.{live_value, skip_tombstones}
use cpp_database_engine.Lsm.Engine.Writes.{keep_entries}

-- What a reader sees of an entry.
abbrev pub visible : Option LsmValue → Option Bytes
visible none = none
visible (some v) = live_value v

pub Above-skip_tombstones : (k : ℤ) (m : Entries) → Above k m → Above k (skip_tombstones m)
unfolding skip_tombstones
Above-skip_tombstones k [] a = tt
Above-skip_tombstones k ((j, w) ∷ m) a = elim (Bool-cases w.deleted) [
  | inl e ↦ rw e (Above-skip_tombstones k m a.1)
  | inr e ↦ rw e (a.0, Above-skip_tombstones k m a.1)
]

pub skip_tombstones-Ascending : (m : Entries) → Ascending m → Ascending (skip_tombstones m)
unfolding skip_tombstones
skip_tombstones-Ascending [] s = tt
skip_tombstones-Ascending ((j, w) ∷ m) s = elim (Bool-cases w.deleted) [
  | inl e ↦ rw e (skip_tombstones-Ascending m s.1)
  | inr e ↦ rw e (Above-skip_tombstones j m s.0, skip_tombstones-Ascending m s.1)
]

pub lookup-skip_tombstones :
    (k : ℤ) (m : Entries) → Ascending m → lookup k (skip_tombstones m) ≡ visible (lookup k m)
unfolding skip_tombstones live_value
lookup-skip_tombstones k [] s = refl
lookup-skip_tombstones k ((j, w) ∷ m) s =
    let ih = lookup-skip_tombstones k m s.1 in
    elim (Bool-cases (eqb_ℤ j k)) [
      | inl same ↦
          let at = (eqb_ℤ_iff j k).0 same in
          let absent : lookup k (skip_tombstones m) ≡ none =
            subst (λ i. lookup i (skip_tombstones m) ≡ none) at
              (lookup_of_Above j (skip_tombstones m) (Above-skip_tombstones j m s.0)) in
          elim (Bool-cases w.deleted) [ inl e ↦ rw (e, same) absent | inr e ↦ rw (e, same) refl ]
      | inr apart ↦ elim (Bool-cases w.deleted) [
        | inl e ↦ rw (e, apart) ih
        | inr e ↦ rw (e, apart) ih
      ]
    ]

pub Above-keep_entries : (k : ℤ) (b : Bool) (m : Entries) → Above k m → Above k (keep_entries b m)
unfolding keep_entries
Above-keep_entries k b [] a = tt
Above-keep_entries k b ((j, w) ∷ m) a = elim (Bool-cases (w.deleted && b)) [
  | inl e ↦ rw e (Above-keep_entries k b m a.1)
  | inr e ↦ rw e (a.0, Above-keep_entries k b m a.1)
]

pub keep_entries-Ascending : (b : Bool) (m : Entries) → Ascending m → Ascending (keep_entries b m)
unfolding keep_entries
keep_entries-Ascending b [] s = tt
keep_entries-Ascending b ((j, w) ∷ m) s = elim (Bool-cases (w.deleted && b)) [
  | inl e ↦ rw e (keep_entries-Ascending b m s.1)
  | inr e ↦ rw e (Above-keep_entries j b m s.0, keep_entries-Ascending b m s.1)
]

-- Nothing is dropped above the bottommost tier.
pub keep_entries-false : (m : Entries) → keep_entries false m ≡ m
unfolding keep_entries
keep_entries-false [] = refl
keep_entries-false ((j, w) ∷ m) =
    let none_dropped : (w.deleted && false) ≡ false = ground arith in
    rw none_dropped (ap (λ l. (j, w) ∷ l) (keep_entries-false m))

-- Dropping tombstones changes nothing that a reader sees.
pub visible-keep_entries :
    (k : ℤ) (b : Bool) (m : Entries)
    → Ascending m
    → visible (lookup k (keep_entries b m)) ≡ visible (lookup k m)
unfolding keep_entries live_value
visible-keep_entries k b [] s = refl
visible-keep_entries k b ((j, w) ∷ m) s =
    let ih = visible-keep_entries k b m s.1 in
    elim (Bool-cases (eqb_ℤ j k)) [
      | inl same ↦
          let absent : lookup k (keep_entries b m) ≡ none =
            subst (λ i. lookup i (keep_entries b m) ≡ none) ((eqb_ℤ_iff j k).0 same)
              (lookup_of_Above j (keep_entries b m) (Above-keep_entries j b m s.0)) in
          elim (Bool-cases (w.deleted && b)) [
            | inl e ↦ let gone : w.deleted ≡ true = ground arith in rw (e, same, absent, gone) refl
            | inr e ↦ rw (e, same) refl
          ]
      | inr apart ↦ elim (Bool-cases (w.deleted && b)) [
        | inl e ↦ rw (e, apart) ih
        | inr e ↦ rw (e, apart) ih
      ]
    ]

-- Every entry satisfies the predicate.
abbrev pub AllEntries : (ℤ → LsmValue → Type 0) → Entries → Type 0
AllEntries P [] = Unit
AllEntries P ((j, w) ∷ m) = P j w × AllEntries P m

pub AllEntries-lookup :
    (P : ℤ → LsmValue → Type 0) (k : ℤ) (v : LsmValue) (m : Entries)
    → AllEntries P m
    → lookup k m ≡ some v
    → P k v
AllEntries-lookup P k v [] a e = absurd (cc)
AllEntries-lookup P k v ((j, w) ∷ m) a e = elim (Bool-cases (eqb_ℤ j k)) [
  | inl same ↦
      let found : some w ≡ some v = rw same at e in
      let value : w ≡ v = cc in
      subst (λ i. P i v) ((eqb_ℤ_iff j k).0 same) (subst (λ x. P j x) value a.0)
  | inr apart ↦ AllEntries-lookup P k v m a.1 (rw apart at e)
]

pub AllEntries-of_lookup :
    (P : ℤ → LsmValue → Type 0) (m : Entries)
    → Ascending m
    → ((k : ℤ) (v : LsmValue) → lookup k m ≡ some v → P k v)
    → AllEntries P m
AllEntries-of_lookup P [] s h = tt
AllEntries-of_lookup P ((j, w) ∷ m) s h =
    (h j w (lookup_head j w m), AllEntries-of_lookup P m s.1 (λ k v e. h k v (later k v e)))
  where
    later : (k : ℤ) (v : LsmValue) → lookup k m ≡ some v → lookup k ((j, w) ∷ m) ≡ some v
    later k v e = elim (Bool-cases (eqb_ℤ j k)) [
      | inl same ↦
          let absent =
            subst (λ i. lookup i m ≡ none) ((eqb_ℤ_iff j k).0 same) (lookup_of_Above j m s.0) in
          let clash : none ≡ some v = sym absent ∙ e in absurd (cc)
      | inr apart ↦ rw apart e
    ]

pub AllEntries-insert :
    (P : ℤ → LsmValue → Type 0) (k : ℤ) (v : LsmValue) (m : Entries)
    → P k v
    → AllEntries P m
    → AllEntries P (insert k v m)
AllEntries-insert P k v [] p a = (p, tt)
AllEntries-insert P k v ((j, w) ∷ m) p a = elim (Bool-cases (ltb_ℤ j k)) [
  | inl e ↦ rw e (a.0, AllEntries-insert P k v m p a.1)
  | inr e ↦ rw e (elim (Bool-cases (eqb_ℤ j k)) [
    | inl same ↦ rw same (p, a.1)
    | inr apart ↦ rw apart (p, (a.0, a.1))
  ])
]

pub AllEntries-keep_entries :
    (P : ℤ → LsmValue → Type 0) (b : Bool) (m : Entries)
    → AllEntries P m
    → AllEntries P (keep_entries b m)
unfolding keep_entries
AllEntries-keep_entries P b [] a = tt
AllEntries-keep_entries P b ((j, w) ∷ m) a = elim (Bool-cases (w.deleted && b)) [
  | inl e ↦ rw e (AllEntries-keep_entries P b m a.1)
  | inr e ↦ rw e (a.0, AllEntries-keep_entries P b m a.1)
]

-- Where two lists of cursors show a reader the same, so do they behind any other cursor.
pub visible-first_of :
    (o a b : Option LsmValue)
    → visible a ≡ visible b
    → visible (first_of o a) ≡ visible (first_of o b)
unfolding first_of
visible-first_of none a b e = e
visible-first_of (some v) a b e = refl

pub resolve-append :
    (k : ℤ) (xs ys : List Entries) → resolve k (xs ++ ys) ≡ first_of (resolve k xs) (resolve k ys)
unfolding resolve first_of
resolve-append k [] ys = refl
resolve-append k (x ∷ xs) ys =
    ap (λ o. first_of (lookup k x) o) (resolve-append k xs ys)
    ∙ sym (first_of-assoc (lookup k x) (resolve k xs) (resolve k ys))
  where
    first_of-assoc :
        (a b c : Option LsmValue) → first_of (first_of a b) c ≡ first_of a (first_of b c)
    first_of-assoc none b c = refl
    first_of-assoc (some v) b c = refl
