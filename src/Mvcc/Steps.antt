-- ===== src/Mvcc/Steps.antt =====
-- The calls of mvcc/mvcc_store.h as a step relation, in any interleaving of the transactions.
use cpp_database_engine.Common.{
  ◌≡◌, refl, sym, ◌∙◌, subst, ◌⊎◌, inl, inr, ℕ, ◌+◌, Bool, true, false, Option, some, [], arith,
  Bool-cases, Option-cases,
}
use cpp_database_engine.Common.Int.{ℤ}
use cpp_database_engine.Common.Bytes.{Bytes}
use cpp_database_engine.Mvcc.{
  IsolationLevel, Transaction, Store, find_txn, erase_txn, chain_of, begin, read, write, delete,
  write_internal,
}
use cpp_database_engine.Mvcc.Commit.{abort_internal, abort, stamp, commit, conflict, check_keys}
use cpp_database_engine.Mvcc.Ends.{Hits, All-imp, All-stamp, All-abort_internal}
use cpp_database_engine.Mvcc.Valid.{
  Pending, VersionOk, IsValid, begin-IsValid, read-IsValid, finish_write-IsValid, TxnOk-mono,
  VersionOk-mono, find_txn-erase_txn_cases,
}

-- The state after a transaction is withdrawn: its versions and its entry are gone.
abbrev pub withdrawn : Store → ℕ → Transaction → Store
withdrawn s txn_id txn = record s {
  table = abort_internal txn.write_records s.table;
  txns = erase_txn txn_id s.txns;
}

-- The state after a transaction's versions are stamped with a new time and its entry is gone.
abbrev pub committed : Store → ℕ → Transaction → Store
committed s txn_id txn = record s {
  global_ts = s.global_ts + 1;
  table = stamp s.global_ts txn.write_records s.table;
  txns = erase_txn txn_id s.txns;
}

withdrawn-IsValid :
    (s : Store) (txn_id : ℕ) (txn : Transaction) → IsValid s → IsValid (withdrawn s txn_id txn)
withdrawn-IsValid s txn_id txn ok = record {
  versions = λ k. All-abort_internal (VersionOk s) txn.write_records s.table k (ok.versions k);
  txns = λ i t running.
      let old = ok.txns i t (find_txn-erase_txn_cases txn_id i t s.txns running).1 in
      TxnOk-mono s (withdrawn s txn_id txn) i t (omega arith) (omega arith) (omega arith)
        (All-imp _ _ t.write_records
          (λ wr.
            All-abort_internal (λ v. v.node ≡ wr.it → Pending i v) txn.write_records s.table wr.key)
          old.1.1.1)
        old;
}

committed-IsValid :
    (s : Store) (txn_id : ℕ) (txn : Transaction)
    → find_txn txn_id s.txns ≡ some txn
    → IsValid s
    → IsValid (committed s txn_id txn)
committed-IsValid s txn_id txn found ok =
    let s' = committed s txn_id txn in
    let hits : Hits (λ v. v.txn_id ≡ txn_id) txn.write_records s.table =
      All-imp _ _ txn.write_records
        (λ wr. All-imp _ _ (chain_of wr.key s.table) (λ v own same. (own same).0))
        (ok.txns txn_id txn found).1.1.1 in
    record {
      versions = λ k.
          All-stamp s.global_ts (λ v. v.txn_id ≡ txn_id) (λ v h. h) (VersionOk s')
            (λ v h p. (p.0, λ c. omega arith)) txn.write_records s.table hits k
            (All-imp _ _ (chain_of k s.table)
              (λ v. VersionOk-mono s s' v (omega arith) (omega arith)) (ok.versions k));
      txns = λ i t running.
          let other = find_txn-erase_txn_cases txn_id i t s.txns running in
          let old = ok.txns i t other.1 in
          TxnOk-mono s s' i t (omega arith) (omega arith) (omega arith)
            (All-imp _ _ t.write_records
              (λ wr.
                All-stamp s.global_ts (λ v. v.txn_id ≡ txn_id) (λ v h. h)
                  (λ v. v.node ≡ wr.it → Pending i v)
                  (λ v h p same. absurd (other.0 (sym h ∙ (p same).0))) txn.write_records s.table
                  hits wr.key)
              old.1.1.1)
            old;
    }

-- The two ends of `Abort`.
pub abort_cases :
    (s : Store) (txn_id : ℕ)
    → (abort s txn_id ≡ s)
      ⊎ ((txn : Transaction) × ((find_txn txn_id s.txns ≡ some txn)
            × (abort s txn_id ≡ withdrawn s txn_id txn)))
unfolding abort
abort_cases s txn_id = elim (Option-cases (find_txn txn_id s.txns)) [
  | inl e ↦ inl (ground arith)
  | inr (txn, e) ↦ inr (txn, (e, ground arith))
]

abort-IsValid : (s : Store) (txn_id : ℕ) → IsValid s → IsValid (abort s txn_id)
abort-IsValid s txn_id ok = elim (abort_cases s txn_id) [
  | inl e ↦ subst IsValid (sym e) ok
  | inr (txn, (found, e)) ↦ subst IsValid (sym e) (withdrawn-IsValid s txn_id txn ok)
]

-- The two ends of `Commit`.
pub commit_cases :
    (s s' : Store) (txn_id : ℕ) (ok : Bool)
    → commit s txn_id ≡ some (s', ok)
    → (txn : Transaction) × ((find_txn txn_id s.txns ≡ some txn)
        × ((s' ≡ withdrawn s txn_id txn) ⊎ (s' ≡ committed s txn_id txn)))
unfolding commit
commit_cases s s' txn_id ok h = elim (Option-cases (find_txn txn_id s.txns)) [
  | inl e ↦ absurd (ground arith)
  | inr (txn, e) ↦ (
    txn,
    (
      e,
      elim (Bool-cases (conflict txn_id txn.start_ts s.table (check_keys txn))) [
        | inl c ↦ inl (ground arith)
        | inr c ↦ inr (ground arith)
      ],
    ),
  )
]

commit-IsValid :
    (s s' : Store) (txn_id : ℕ) (ok : Bool)
    → commit s txn_id ≡ some (s', ok)
    → IsValid s
    → IsValid s'
commit-IsValid s s' txn_id ok h valid =
    let (txn, (found, ends)) = commit_cases s s' txn_id ok h in
    elim ends [
      | inl e ↦ subst IsValid (sym e) (withdrawn-IsValid s txn_id txn valid)
      | inr e ↦ subst IsValid (sym e) (committed-IsValid s txn_id txn found valid)
    ]

-- The two forms of a write.
write_internal-IsValid :
    (s : Store) (txn : Transaction) (txn_id : ℕ) (key : ℤ) (deleted : Bool) (value : Bytes)
    → find_txn txn_id s.txns ≡ some txn
    → IsValid s
    → IsValid (write_internal s txn txn_id key deleted value)
unfolding write_internal
write_internal-IsValid s txn txn_id key deleted value =
    finish_write-IsValid s txn txn_id key deleted value _ refl

pub write_inv :
    (s s' : Store) (txn_id : ℕ) (key : ℤ) (value : Bytes)
    → write s txn_id key value ≡ some s'
    → (txn : Transaction) × ((find_txn txn_id s.txns ≡ some txn)
        × (s' ≡ write_internal s txn txn_id key false value))
unfolding write
write_inv s s' txn_id key value h = elim (Option-cases (find_txn txn_id s.txns)) [
  | inl e ↦ absurd (ground arith)
  | inr (txn, e) ↦ (txn, (e, ground arith))
]

pub delete_inv :
    (s s' : Store) (txn_id : ℕ) (key : ℤ) (existed : Bool)
    → delete s txn_id key ≡ some (s', existed)
    → (s1 : Store) × ((found : Option Bytes) × ((read s txn_id key ≡ some (s1, found))
          × ((txn : Transaction) × ((find_txn txn_id s1.txns ≡ some txn)
                × (s' ≡ write_internal s1 txn txn_id key true [])))))
unfolding delete
delete_inv s s' txn_id key existed h = elim (Option-cases (read s txn_id key)) [
  | inl e ↦ absurd (ground arith)
  | inr ((s1, found), e) ↦ elim (Option-cases (find_txn txn_id s1.txns)) [
    | inl e1 ↦ absurd (ground arith)
    | inr (txn, e1) ↦ (s1, (found, (e, (txn, (e1, ground arith)))))
  ]
]

-- A call that a transaction makes, or a transaction that begins.
pub data Step : ℕ → Store → Store → Type 0 where
  begins : (s : Store) (level : IsolationLevel) → Step s.next_txn_id s (begin s level).0
  reads :
      (s s' : Store) (txn_id : ℕ) (key : ℤ) (found : Option Bytes)
      → read s txn_id key ≡ some (s', found)
      → Step txn_id s s'
  writes :
      (s s' : Store) (txn_id : ℕ) (key : ℤ) (value : Bytes)
      → write s txn_id key value ≡ some s'
      → Step txn_id s s'
  deletes :
      (s s' : Store) (txn_id : ℕ) (key : ℤ) (existed : Bool)
      → delete s txn_id key ≡ some (s', existed)
      → Step txn_id s s'
  commits :
      (s s' : Store) (txn_id : ℕ) (ok : Bool) → commit s txn_id ≡ some (s', ok) → Step txn_id s s'
  aborts : (s : Store) (txn_id : ℕ) → Step txn_id s (abort s txn_id)

-- Every call of every transaction keeps the state well-formed: versions have numbers that were
-- given out, committed ones are stamped in the past, running transactions started in the past, and
-- their write records point to no version but pending ones of their own.
pub Step-IsValid : (txn_id : ℕ) (s s' : Store) → Step txn_id s s' → IsValid s → IsValid s'
Step-IsValid _ _ _ (begins s level) ok = begin-IsValid s level ok
Step-IsValid _ _ _ (reads s s' txn_id key found h) ok = read-IsValid s s' txn_id key found h ok
Step-IsValid _ _ _ (writes s s' txn_id key value h) ok =
    let (txn, (found, e)) = write_inv s s' txn_id key value h in
    subst IsValid (sym e) (write_internal-IsValid s txn txn_id key false value found ok)
Step-IsValid _ _ _ (deletes s s' txn_id key existed h) ok =
    let (s1, (v, (first, (txn, (found, e))))) = delete_inv s s' txn_id key existed h in
    subst IsValid (sym e) (
      write_internal-IsValid s1 txn txn_id key true [] found
        (read-IsValid s s1 txn_id key v first ok))
Step-IsValid _ _ _ (commits s s' txn_id answer h) ok = commit-IsValid s s' txn_id answer h ok
Step-IsValid _ _ _ (aborts s txn_id) ok = abort-IsValid s txn_id ok
