-- ===== src/Sql/Database/Valid.antt =====
-- What holds of a `Database` (sql/database.cpp) between statements.
use cpp_database_engine.Common.{
  ℕ, ◌<◌, ◌≡◌, refl, sym, subst, ◌∙◌, ◌⊎◌, inl, inr, Option, none, some, List, [], ◌∷◌, arith,
  Bool-cases,
}
use cpp_database_engine.Common.Int.{ℤ, ltb_ℤ, eqb_ℤ}
use cpp_database_engine.Common.Bytes.{Bytes, eqb_bytes}
use cpp_database_engine.Common.SortedMap.{insert, erase}
use cpp_database_engine.Engine.{StorageEngine}
use cpp_database_engine.Sql.Error.{Result, ok, err, no_such_table}
use cpp_database_engine.Sql.Keys.{decode_row_key, decode_table_id}
use cpp_database_engine.Sql.Schema.{TableSchema, HasKey}
use cpp_database_engine.Sql.Rows.{decode_row}
use cpp_database_engine.Sql.Catalog.{Catalog, find_table, get_table}
use cpp_database_engine.Sql.Catalog.Ids.{IdsBelow, DistinctIds}
use cpp_database_engine.Sql.Executor.{Row}
use cpp_database_engine.Sql.Executor.Select.{Readable}
use cpp_database_engine.Sql.Executor.Delete.Collected.{erase_all}
use cpp_database_engine.Sql.Database.{Database}

-- The schema is in the catalog.
abbrev pub IsTable : TableSchema → List (Bytes × TableSchema) → Type 0
IsTable schema [] = ⊥
IsTable schema ((name, s) ∷ tables) = (s ≡ schema) ⊎ IsTable schema tables

-- Every entry belongs to a table id that is given out.
abbrev pub Owned : ℕ → List (ℤ × Bytes) → Type 0
Owned next [] = Unit
Owned next ((k, v) ∷ m) = (decode_table_id k < next) × Owned next m

-- The catalog gives every table an id of its own, every table has its INTEGER key, and every entry
-- in the engine is a row of a table, which can be read.
pub record IsValid {engine : StorageEngine} (db : Database engine) : Type 0 where
  pub ids : cpp_database_engine.Sql.Catalog.Ids.IsValid db.catalog
  pub keyed : (schema : TableSchema) → IsTable schema db.catalog.tables → HasKey schema
  pub owned : Owned db.catalog.next_table_id (engine.view db.content)
  pub readable :
      (schema : TableSchema)
      → IsTable schema db.catalog.tables
      → Readable schema (engine.view db.content)

IsTable-find :
    (name : Bytes) (tables : List (Bytes × TableSchema)) (schema : TableSchema)
    → find_table name tables ≡ some schema
    → IsTable schema tables
unfolding find_table
IsTable-find name [] schema h = cc
IsTable-find name ((n, s) ∷ tables) schema h = elim (Bool-cases (eqb_bytes n name)) [
  | inl this ↦ inl (of_some s schema (rw this at h))
  | inr other ↦ inr (IsTable-find name tables schema (rw other at h))
]
  where
    of_some : (a b : TableSchema) → some a ≡ some b → a ≡ b
    of_some a b e = cc

pub get_table-IsTable :
    (catalog : Catalog) (name : Bytes) (schema : TableSchema)
    → get_table catalog name ≡ ok schema
    → IsTable schema catalog.tables
unfolding get_table
get_table-IsTable catalog name schema h =
    IsTable-find name catalog.tables schema (looked_up (find_table name catalog.tables) h)
  where
    looked_up :
        (found : Option TableSchema)
        → elim found as (λ o. Result TableSchema) [ none ↦ err no_such_table | some s ↦ ok s ]
          ≡ ok schema
        → found ≡ some schema
    looked_up none e = cc
    looked_up (some s) e = cc

pub below_of_IsTable :
    (next : ℕ) (tables : List (Bytes × TableSchema)) (schema : TableSchema)
    → IdsBelow next tables
    → IsTable schema tables
    → schema.table_id < next
below_of_IsTable next [] schema below h = absurd h
below_of_IsTable next ((n, s) ∷ tables) schema (lt, below) (inl e) =
    subst (λ (x : TableSchema). x.table_id < next) e lt
below_of_IsTable next ((n, s) ∷ tables) schema (lt, below) (inr h) =
    below_of_IsTable next tables schema below h

-- No two tables of the catalog have the same id.
pub same_table :
    (tables : List (Bytes × TableSchema)) (a b : TableSchema)
    → DistinctIds tables
    → IsTable a tables
    → IsTable b tables
    → a.table_id ≡ b.table_id
    → a ≡ b
same_table [] a b d ha hb e = absurd ha
same_table ((n, s) ∷ tables) a b (named, below, d) (inl ea) (inl eb) e = sym ea ∙ eb
same_table ((n, s) ∷ tables) a b (named, below, d) (inl ea) (inr hb) e =
    let lt : b.table_id < s.table_id = below_of_IsTable s.table_id tables b below hb in
    let same : s.table_id ≡ a.table_id = rw ea refl in absurd (omega arith)
same_table ((n, s) ∷ tables) a b (named, below, d) (inr ha) (inl eb) e =
    let lt : a.table_id < s.table_id = below_of_IsTable s.table_id tables a below ha in
    let same : s.table_id ≡ b.table_id = rw eb refl in absurd (omega arith)
same_table ((n, s) ∷ tables) a b (named, below, d) (inr ha) (inr hb) e =
    same_table tables a b d ha hb e

-- Entries come and go.
pub Owned-insert :
    (next : ℕ) (k : ℤ) (v : Bytes) (m : List (ℤ × Bytes))
    → decode_table_id k < next
    → Owned next m
    → Owned next (insert k v m)
Owned-insert next k v [] h o = (h, tt)
Owned-insert next k v ((j, w) ∷ m) h (lt, o) = elim (Bool-cases (ltb_ℤ j k)) [
  | inl before ↦ rw before (lt, Owned-insert next k v m h o)
  | inr after ↦
      rw after
        (elim (Bool-cases (eqb_ℤ j k)) [ inl same ↦ rw same (h, o) | inr ne ↦ rw ne (h, (lt, o)) ])
]

Owned-erase : (next : ℕ) (k : ℤ) (m : List (ℤ × Bytes)) → Owned next m → Owned next (erase k m)
Owned-erase next k [] o = tt
Owned-erase next k ((j, w) ∷ m) (lt, o) = elim (Bool-cases (eqb_ℤ j k)) [
  | inl same ↦ rw same o
  | inr ne ↦ rw ne (lt, Owned-erase next k m o)
]

pub Owned-erase_all :
    (next : ℕ) (ks : List ℤ) (m : List (ℤ × Bytes)) → Owned next m → Owned next (erase_all ks m)
Owned-erase_all next [] m o = o
Owned-erase_all next (k ∷ ks) m o = Owned-erase_all next ks (erase k m) (Owned-erase next k m o)

pub Owned-mono : (a b : ℕ) (m : List (ℤ × Bytes)) → a < b → Owned a m → Owned b m
Owned-mono a b [] h o = tt
Owned-mono a b ((j, w) ∷ m) h (lt, o) = (omega arith, Owned-mono a b m h o)

module _ (schema : TableSchema) where
  abbrev pub ReadsAt : ℤ → Bytes → Type 0
  ReadsAt key payload =
      decode_table_id key ≡ schema.table_id
      → (row : Row) × (decode_row schema (decode_row_key key) payload ≡ ok row)

  pub Readable-insert :
      (k : ℤ) (v : Bytes) (m : List (ℤ × Bytes))
      → ReadsAt k v
      → Readable schema m
      → Readable schema (insert k v m)
  Readable-insert k v [] h r = (h, tt)
  Readable-insert k v ((j, w) ∷ m) h (this, r) = elim (Bool-cases (ltb_ℤ j k)) [
    | inl before ↦ rw before (this, Readable-insert k v m h r)
    | inr after ↦ rw after (elim (Bool-cases (eqb_ℤ j k)) [
      | inl same ↦ rw same (h, r)
      | inr ne ↦ rw ne (h, (this, r))
    ])
  ]

  Readable-erase : (k : ℤ) (m : List (ℤ × Bytes)) → Readable schema m → Readable schema (erase k m)
  Readable-erase k [] r = tt
  Readable-erase k ((j, w) ∷ m) (this, r) = elim (Bool-cases (eqb_ℤ j k)) [
    | inl same ↦ rw same r
    | inr ne ↦ rw ne (this, Readable-erase k m r)
  ]

  pub Readable-erase_all :
      (ks : List ℤ) (m : List (ℤ × Bytes)) → Readable schema m → Readable schema (erase_all ks m)
  Readable-erase_all [] m r = r
  Readable-erase_all (k ∷ ks) m r = Readable-erase_all ks (erase k m) (Readable-erase k m r)

  -- A new table's id owns no entry.
  pub Readable-new : (m : List (ℤ × Bytes)) → Owned schema.table_id m → Readable schema m
  Readable-new [] o = tt
  Readable-new ((j, w) ∷ m) (lt, o) = ((λ e. absurd (omega arith)), Readable-new m o)
