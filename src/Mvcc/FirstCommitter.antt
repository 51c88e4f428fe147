-- ===== src/Mvcc/FirstCommitter.antt =====
-- The conflict check of `MVCCStore::Commit` (mvcc/mvcc_store.cpp) against its description by
-- quantifiers over the sets of the transaction.
use cpp_database_engine.Common.{
  ◌≡◌, sym, ◌∙◌, ◌≢◌, ◌↔◌, inl, inr, ℕ, Bool, true, false, Option, none, some, List, [], ◌∷◌, ◌++◌,
  arith, Bool-cases, All, subst,
}
use cpp_database_engine.Common.Int.{ℤ, pos, eqb_ℤ, eqb_ℤ_iff, ltb_ℤ, ◌≤ℤ◌}
use cpp_database_engine.Mvcc.{
  serializable_snapshot, Version, Transaction, Store, find_txn, chain_of,
}
use cpp_database_engine.Mvcc.Commit.{
  insert_key, sort_unique, check_keys, chain_conflict, conflict, commit,
}

-- No other transaction has committed a version after `start_ts`.
abbrev pub Unchanged : ℕ → ℕ → List Version → Type 0
Unchanged txn_id start_ts versions =
    All (λ v. v.committed ≡ true → v.txn_id ≢ txn_id → v.commit_ts ≤ℤ pos start_ts) versions

-- What the transaction must find to commit.
abbrev pub Validated : Store → ℕ → Transaction → Type 0
Validated s txn_id txn =
    All (λ k. Unchanged txn_id txn.start_ts (chain_of k s.table)) txn.write_set
    × (txn.isolation ≡ serializable_snapshot
        → All (λ k. Unchanged txn_id txn.start_ts (chain_of k s.table)) txn.read_set)

chain_conflict_iff :
    (txn_id start_ts : ℕ) (versions : List Version)
    → (chain_conflict txn_id start_ts versions ≡ false) ↔ Unchanged txn_id start_ts versions
unfolding chain_conflict
chain_conflict_iff txn_id start_ts [] = ground arith
chain_conflict_iff txn_id start_ts (v ∷ versions) =
    ground (arith, chain_conflict_iff txn_id start_ts versions)

module _ (P : ℤ → Type 0) where
  insert_key-All : (k : ℤ) (ks : List ℤ) → All P (insert_key k ks) ↔ (P k × All P ks)
  unfolding insert_key
  insert_key-All k [] = ground arith
  insert_key-All k (j ∷ ks) = elim (Bool-cases (ltb_ℤ j k)) [
    | inl lt ↦ rw lt (ground (arith, insert_key-All k ks))
    | inr ge ↦ rw ge (elim (Bool-cases (eqb_ℤ j k)) [
      | inl eq ↦ rw eq ((λ h. (subst P ((eqb_ℤ_iff j k).0 eq) h.0, h)), λ h. h.1)
      | inr ne ↦ rw ne ((λ h. h), λ h. h)
    ])
  ]

  sort_unique-All : (ks : List ℤ) → All P (sort_unique ks) ↔ All P ks
  unfolding sort_unique
  sort_unique-All [] = ((λ h. h), λ h. h)
  sort_unique-All (k ∷ ks) = ground (arith, insert_key-All k (sort_unique ks), sort_unique-All ks)

conflict_iff :
    (txn_id start_ts : ℕ) (table : List (ℤ × List Version)) (keys : List ℤ)
    → (conflict txn_id start_ts table keys ≡ false)
      ↔ All (λ k. Unchanged txn_id start_ts (chain_of k table)) keys
unfolding conflict
conflict_iff txn_id start_ts table [] = ground arith
conflict_iff txn_id start_ts table (k ∷ keys) = ground (
  arith,
  conflict_iff txn_id start_ts table keys,
  chain_conflict_iff txn_id start_ts (chain_of k table),
)

All-append_iff : (P : ℤ → Type 0) (ks js : List ℤ) → All P (ks ++ js) ↔ (All P ks × All P js)
All-append_iff P [] js = ground arith
All-append_iff P (k ∷ ks) js = ground (arith, All-append_iff P ks js)

check_keys-All :
    (P : ℤ → Type 0) (txn : Transaction)
    → All P (check_keys txn)
      ↔ (All P txn.write_set × (txn.isolation ≡ serializable_snapshot → All P txn.read_set))
unfolding check_keys
check_keys-All P txn = ground (
  arith,
  sort_unique-All P txn.write_set,
  sort_unique-All P (txn.write_set ++ txn.read_set),
  All-append_iff P txn.write_set txn.read_set,
)

no_conflict_iff :
    (s : Store) (txn_id : ℕ) (txn : Transaction)
    → (conflict txn_id txn.start_ts s.table (check_keys txn) ≡ false) ↔ Validated s txn_id txn
no_conflict_iff s txn_id txn =
    let start = conflict_iff txn_id txn.start_ts s.table (check_keys txn) in
    let sets = check_keys-All (λ k. Unchanged txn_id txn.start_ts (chain_of k s.table)) txn in
    ((λ h. sets.0 (start.0 h)), λ h. start.1 (sets.1 h))

true≢false : true ≢ false
true≢false h = ground arith

-- The answer of `Commit`, without the store it leaves.
abbrev pub commits : Store → ℕ → Option Bool
commits s txn_id = elim (commit s txn_id) [ none ↦ none | some (s', ok) ↦ some ok ]

-- First committer wins: a running transaction commits exactly when no other transaction has
-- committed, after its start, a version of a key it has written or, at SERIALIZABLE_SNAPSHOT, read;
-- and `Commit` answers one of the two.
pub commit-Validated :
    (s : Store) (txn_id : ℕ) (txn : Transaction)
    → find_txn txn_id s.txns ≡ some txn
    → ((commits s txn_id ≡ some true) ↔ Validated s txn_id txn)
      × ((commits s txn_id ≡ some false) ↔ (¬ Validated s txn_id txn))
unfolding commit
commit-Validated s txn_id txn found =
    let checked = no_conflict_iff s txn_id txn in
    elim (Bool-cases (conflict txn_id txn.start_ts s.table (check_keys txn))) [
      | inl e ↦
          let refused : commits s txn_id ≡ some false = ground arith in
          let no : ¬ Validated s txn_id txn = λ v. true≢false (sym e ∙ checked.1 v) in
          ((λ h. absurd (ground arith), λ v. absurd (no v)), (λ h. no, λ h. refused))
      | inr e ↦
          let accepted : commits s txn_id ≡ some true = ground arith in
          (
            (λ h. checked.0 e, λ h. accepted),
            (λ h. absurd (ground arith), λ h. absurd (h (checked.0 e))),
          )
    ]
