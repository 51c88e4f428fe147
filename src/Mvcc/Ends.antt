-- ===== src/Mvcc/Ends.antt =====
-- What the end of a transaction (`Commit`, `AbortInternal` of mvcc/mvcc_store.cpp) does to the
-- versions of a table: predicates on versions that stamping and erasing keep.
use cpp_database_engine.Common.{
  ◌≡◌, sym, subst, inl, inr, ℕ, true, List, [], ◌∷◌, ◌==◌, arith, Bool-cases, All,
}
use cpp_database_engine.Common.Int.{ℤ, pos, eqb_ℤ, eqb_ℤ_iff}
use cpp_database_engine.Mvcc.{Version, WriteRecord, chain_of, put_chain}
use cpp_database_engine.Mvcc.Tables.{chain_of-put_chain}
use cpp_database_engine.Mvcc.Commit.{erase_node, abort_internal, stamp_node, stamp}

-- The version after `Commit` has stamped it.
abbrev pub stamped : ℕ → Version → Version
stamped commit_ts v = record v { committed = true; commit_ts = pos commit_ts }

-- Every version that a write record points to satisfies the predicate.
abbrev pub Hits : (Version → Type 0) → List WriteRecord → List (ℤ × List Version) → Type 0
Hits H records table = All (λ wr. All (λ v. v.node ≡ wr.it → H v) (chain_of wr.key table)) records

pub All-imp {ℓ κ} :
    {A : Type ℓ} (P Q : A → Type κ) (xs : List A) → ((x : A) → P x → Q x) → All P xs → All Q xs
All-imp P Q [] f h = tt
All-imp P Q (x ∷ xs) f h = (f x h.0, All-imp P Q xs f h.1)

-- A predicate on the versions under one key, after a change of one chain that keeps it.
pub All-chain-put_chain :
    (P : Version → Type 0) (k k' : ℤ) (c : List Version) (table : List (ℤ × List Version))
    → (All P (chain_of k table) → All P c)
    → All P (chain_of k' table)
    → All P (chain_of k' (put_chain k c table))
All-chain-put_chain P k k' c table f h =
    rw (chain_of-put_chain k k' c table) (elim (Bool-cases (eqb_ℤ k k')) [
      | inl e ↦ rw e (f (subst (λ j. All P (chain_of j table)) (sym ((eqb_ℤ_iff k k').0 e)) h))
      | inr e ↦ rw e h
    ])

module _ (commit_ts : ℕ) (H : Version → Type 0) (P : Version → Type 0)
    (keep : (v : Version) → H v → P v → P (stamped commit_ts v)) where
  All-stamp_node :
      (node : ℕ) (versions : List Version)
      → All (λ v. v.node ≡ node → H v) versions
      → All P versions
      → All P (stamp_node commit_ts node versions)
  unfolding stamp_node
  All-stamp_node node [] hits h = tt
  All-stamp_node node (v ∷ versions) hits h = (
    elim (Bool-cases (v.node == node)) [
      | inl e ↦ rw e (keep v (hits.0 (ground arith)) h.0)
      | inr e ↦ rw e h.0
    ],
    All-stamp_node node versions hits.1 h.1,
  )

module _ (commit_ts : ℕ) (H : Version → Type 0)
    (stays : (v : Version) → H v → H (stamped commit_ts v)) where
  pub Hits-stamp_node :
      (key : ℤ) (node : ℕ) (records : List WriteRecord) (table : List (ℤ × List Version))
      → All (λ v. v.node ≡ node → H v) (chain_of key table)
      → Hits H records table
      → Hits H records (put_chain key (stamp_node commit_ts node (chain_of key table)) table)
  Hits-stamp_node key node [] table hit hits = tt
  Hits-stamp_node key node (wr ∷ records) table hit hits = (
    All-chain-put_chain (λ v. v.node ≡ wr.it → H v) key wr.key _ table
        (All-stamp_node commit_ts H (λ v. v.node ≡ wr.it → H v) (λ v h p same. stays v h) node
          (chain_of key table) hit)
        hits.0,
    Hits-stamp_node key node records table hit hits.1,
  )

  pub All-stamp :
      (P : Version → Type 0)
      → ((v : Version) → H v → P v → P (stamped commit_ts v))
      → (records : List WriteRecord) (table : List (ℤ × List Version)) → Hits H records table
      → (k : ℤ) → All P (chain_of k table)
      → All P (chain_of k (stamp commit_ts records table))
  unfolding stamp
  All-stamp P keep [] table hits k h = h
  All-stamp P keep (wr ∷ records) table hits k h =
      All-stamp P keep records
        (put_chain wr.key (stamp_node commit_ts wr.it (chain_of wr.key table)) table)
        (Hits-stamp_node wr.key wr.it records table hits.0 hits.1) k
        (All-chain-put_chain P wr.key k _ table
          (All-stamp_node commit_ts H P keep wr.it (chain_of wr.key table) hits.0) h)

pub All-erase_node :
    (P : Version → Type 0) (node : ℕ) (versions : List Version)
    → All P versions
    → All P (erase_node node versions)
unfolding erase_node
All-erase_node P node [] h = tt
All-erase_node P node (v ∷ versions) h = elim (Bool-cases (v.node == node)) [
  | inl e ↦ rw e (All-erase_node P node versions h.1)
  | inr e ↦ rw e (h.0, All-erase_node P node versions h.1)
]

pub All-abort_internal :
    (P : Version → Type 0) (records : List WriteRecord) (table : List (ℤ × List Version))
    → (k : ℤ) → All P (chain_of k table)
    → All P (chain_of k (abort_internal records table))
unfolding abort_internal
All-abort_internal P [] table k h = h
All-abort_internal P (wr ∷ records) table k h =
    All-abort_internal P records (put_chain wr.key (erase_node wr.it (chain_of wr.key table)) table)
      k (All-chain-put_chain P wr.key k _ table (All-erase_node P wr.it (chain_of wr.key table)) h)
