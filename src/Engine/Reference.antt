-- ===== src/Engine/Reference.antt =====
-- The sorted association list as a storage engine: the interface of engine/storage_engine.h can be
-- kept.
use cpp_database_engine.Common.{
  ◌≡◌, refl, ◌⊎◌, inl, inr, Bool, false, true, Option, none, some, List, [], ◌∷◌, leb, length, ◌&&◌,
  arith, Bool-cases,
}
use cpp_database_engine.Common.Int.{ℤ, leb_ℤ, ltb_ℤ, eqb_ℤ, int64_max, int64_min, IsInt64}
use cpp_database_engine.Common.Bytes.{Bytes}
use cpp_database_engine.Common.SortedMap.{
  lookup, insert, erase, from, Ascending, AllKeys, insert-Ascending, erase-Ascending,
}
use cpp_database_engine.Engine.{StorageEngine}

pub AllKeys-insert :
    (k : ℤ) (v : Bytes) (m : List (ℤ × Bytes))
    → IsInt64 k
    → AllKeys IsInt64 m
    → AllKeys IsInt64 (insert k v m)
AllKeys-insert k v [] h all = (h, tt)
AllKeys-insert k v ((j, w) ∷ m) h all = elim (Bool-cases (ltb_ℤ j k)) [
  | inl e ↦ rw e (all.0, AllKeys-insert k v m h all.1)
  | inr e ↦ rw e (elim (Bool-cases (eqb_ℤ j k)) [
    | inl same ↦ rw same (h, all.1)
    | inr ne ↦ rw ne (h, (all.0, all.1))
  ])
]

pub AllKeys-erase : (k : ℤ) (m : List (ℤ × Bytes)) → AllKeys IsInt64 m → AllKeys IsInt64 (erase k m)
AllKeys-erase k [] all = tt
AllKeys-erase k ((j, w) ∷ m) all = elim (Bool-cases (eqb_ℤ j k)) [
  | inl e ↦ rw e all.1
  | inr e ↦ rw e (all.0, AllKeys-erase k m all.1)
]

pub record Content : Type 0 where
  pub entries : List (ℤ × Bytes)
  pub ascending : Ascending entries
  pub keys : AllKeys IsInt64 entries

abbrev pub accepts : ℤ → Bytes → Bool
accepts k v = (leb_ℤ int64_min k && leb_ℤ k int64_max) && leb (length v) 64

pub accepts-IsInt64 : (k : ℤ) (v : Bytes) → accepts k v ≡ true → IsInt64 k
accepts-IsInt64 k v h = ground arith

IsInt64-accepts : (k : ℤ) (v : Bytes) → IsInt64 k → leb (length v) 64 ≡ true → accepts k v ≡ true
IsInt64-accepts k v h fits = ground arith

abbrev pub put_if :
    (s : Content) (k : ℤ) (v : Bytes)
    → (accepts k v ≡ true) ⊎ (accepts k v ≡ false)
    → Option Content
put_if s k v (inl yes') = some (record {
  entries = insert k v s.entries;
  ascending = insert-Ascending k v s.entries s.ascending;
  keys = AllKeys-insert k v s.entries (accepts-IsInt64 k v yes') s.keys;
})
put_if s k v (inr no') = none

pub put_if-view :
    (s : Content) (k : ℤ) (v : Bytes) (c : (accepts k v ≡ true) ⊎ (accepts k v ≡ false))
    → IsInt64 k
    → leb (length v) 64 ≡ true
    → (s' : Content) × (put_if s k v c ≡ some s') × (s'.entries ≡ insert k v s.entries)
put_if-view s k v (inl yes') h fits = (_, refl, refl)
put_if-view s k v (inr no') h fits = let yes' = IsInt64-accepts k v h fits in absurd (ground arith)

pub put_if-large :
    (s : Content) (k : ℤ) (v : Bytes) (c : (accepts k v ≡ true) ⊎ (accepts k v ≡ false))
    → leb (length v) 64 ≡ false
    → put_if s k v c ≡ none
put_if-large s k v (inl yes') large = absurd (ground arith)
put_if-large s k v (inr no') large = refl

abbrev pub test : (b : Bool) → (b ≡ true) ⊎ (b ≡ false)
test true = inl refl
test false = inr refl

abbrev pub reference_engine : StorageEngine
reference_engine = record {
  State = Content;
  get = λ s k. lookup k s.entries;
  put = λ s k v. put_if s k v (test (accepts k v));
  delete = λ s k. (
    record {
      entries = erase k s.entries;
      ascending = erase-Ascending k s.entries s.ascending;
      keys = AllKeys-erase k s.entries s.keys;
    },
    elim (lookup k s.entries) [ none ↦ false | some _ ↦ true ],
  );
  scan = λ s k. from k s.entries;
  view = λ s. s.entries;
  view_ascending = λ s. s.ascending;
  view_keys = λ s. s.keys;
  get-view = λ s k. refl;
  scan-view = λ s k. refl;
  put-view = λ s k v h fits. put_if-view s k v (test (accepts k v)) h fits;
  put-large = λ s k v large. put_if-large s k v (test (accepts k v)) large;
  delete-view = λ s k. refl;
  delete-found = λ s k. refl;
}
