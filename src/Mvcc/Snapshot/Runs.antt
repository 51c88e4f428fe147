-- ===== src/Mvcc/Snapshot/Runs.antt =====
-- Repeatable reads of mvcc/mvcc_store.cpp over any interleaving of the other transactions' calls.
use cpp_database_engine.Common.{
  ◌≡◌, refl, sym, ◌∙◌, subst, ◌≢◌, inl, inr, ℕ, Bool, true, false, Option, some, [], arith,
  Option-cases,
}
use cpp_database_engine.Common.Int.{ℤ}
use cpp_database_engine.Common.Bytes.{Bytes}
use cpp_database_engine.Mvcc.{
  read_uncommitted, Transaction, Store, IsolationLevel, find_txn, put_txn, chain_of, begin, read,
  write_internal, set_insert,
}
use cpp_database_engine.Mvcc.Tables.{find_txn-put_txn_ne}
use cpp_database_engine.Mvcc.Isolation.{finish_write_other_txn}
use cpp_database_engine.Mvcc.DirtyReads.{read_value-write_internal_other}
use cpp_database_engine.Mvcc.Ends.{Hits, All-imp}
use cpp_database_engine.Mvcc.Valid.{IsValid}
use cpp_database_engine.Mvcc.Steps.{
  Step, begins, reads, writes, deletes, commits, aborts, Step-IsValid, withdrawn, committed,
  commit_cases, abort_cases, write_inv, delete_inv,
}
use cpp_database_engine.Mvcc.Snapshot.{Hidden, IsSnapshot}
use cpp_database_engine.Mvcc.Snapshot.Stable.{
  view-abort_internal, view-stamp, find_txn-erase_txn_ne, Unmoved, Unmoved-of_view,
}

IsSnapshot-committed : (level : IsolationLevel) → IsSnapshot level → level ≢ read_uncommitted
IsSnapshot-committed level snap e = ground arith

module _ (s : Store) (txn_id other : ℕ) (key : ℤ) (reader : Transaction) (ne : txn_id ≢ other)
    (found : find_txn other s.txns ≡ some reader) (snap : IsSnapshot reader.isolation) where
  -- The write records of a running transaction point to versions outside the reader's snapshot.
  Hidden-records :
      (txn : Transaction)
      → find_txn txn_id s.txns ≡ some txn
      → IsValid s
      → Hits (Hidden txn_id reader.start_ts) txn.write_records s.table
  Hidden-records txn running ok =
      All-imp _ _ txn.write_records
        (λ wr.
          All-imp _ _ (chain_of wr.key s.table)
            (λ v own same. let o = own same in (o.0, λ c. absurd (ground arith))))
        (ok.txns txn_id txn running).1.1.1

  Unmoved-withdrawn :
      (txn : Transaction)
      → find_txn txn_id s.txns ≡ some txn
      → IsValid s
      → Unmoved other key s (withdrawn s txn_id txn)
  Unmoved-withdrawn txn running ok =
      Unmoved-of_view s (withdrawn s txn_id txn) other key reader found
        (find_txn-erase_txn_ne txn_id other s.txns ne)
        (view-abort_internal txn_id other reader ne snap txn.write_records s.table key
          (Hidden-records txn running ok))

  Unmoved-committed :
      (txn : Transaction)
      → find_txn txn_id s.txns ≡ some txn
      → IsValid s
      → Unmoved other key s (committed s txn_id txn)
  Unmoved-committed txn running ok =
      Unmoved-of_view s (committed s txn_id txn) other key reader found
        (find_txn-erase_txn_ne txn_id other s.txns ne)
        (view-stamp txn_id other reader ne snap s.global_ts txn.write_records s.table key
          (ok.txns other reader found).0 (Hidden-records txn running ok))

  Unmoved-write_internal :
      (txn : Transaction) (at : ℤ) (deleted : Bool) (value : Bytes)
      → Unmoved other key s (write_internal s txn txn_id at deleted value)
  unfolding write_internal
  Unmoved-write_internal txn at deleted value = (
    finish_write_other_txn s txn txn_id at deleted value other _ ne,
    read_value-write_internal_other s txn reader txn_id other at key deleted value ne found
        (IsSnapshot-committed reader.isolation snap),
  )

  Unmoved-read :
      (s' : Store) (at : ℤ) (answer : Option Bytes)
      → read s txn_id at ≡ some (s', answer)
      → Unmoved other key s s'
  unfolding read
  Unmoved-read s' at answer h = elim (Option-cases (find_txn txn_id s.txns)) [
    | inl e ↦ absurd (ground arith)
    | inr (txn, e) ↦
        let txn' : Transaction = record txn { read_set = set_insert at txn.read_set } in
        subst (Unmoved other key s) {x = record s { txns = put_txn txn_id txn' s.txns }}
          (ground arith)
          (Unmoved-of_view s _ other key reader found
            (find_txn-put_txn_ne txn_id other txn' s.txns ne) refl)
  ]

-- A call of one transaction moves no snapshot of another one.
Step-Unmoved :
    (txn_id other : ℕ) (s s' : Store) (key : ℤ) (reader : Transaction)
    → Step txn_id s s'
    → txn_id ≢ other
    → IsValid s
    → find_txn other s.txns ≡ some reader
    → IsSnapshot reader.isolation
    → Unmoved other key s s'
unfolding begin
Step-Unmoved _ other _ _ key reader (begins s level) ne ok found snap =
    Unmoved-of_view s (begin s level).0 other key reader found
      (find_txn-put_txn_ne s.next_txn_id other _ s.txns ne) refl
Step-Unmoved _ other _ _ key reader (reads s s' txn_id at answer h) ne ok found snap =
    Unmoved-read s txn_id other key reader ne found snap s' at answer h
Step-Unmoved _ other _ _ key reader (writes s s' txn_id at value h) ne ok found snap =
    let (txn, (running, e)) = write_inv s s' txn_id at value h in
    subst (Unmoved other key s) (sym e)
      (Unmoved-write_internal s txn_id other key reader ne found snap txn at false value)
Step-Unmoved _ other _ _ key reader (deletes s s' txn_id at existed h) ne ok found snap =
    let (s1, (v, (first, (txn, (running, e))))) = delete_inv s s' txn_id at existed h in
    let before = Unmoved-read s txn_id other key reader ne found snap s1 at v first in
    let after =
      Unmoved-write_internal s1 txn_id other key reader ne (before.0 ∙ found) snap txn at true [] in
    subst (Unmoved other key s) (sym e) (after.0 ∙ before.0, after.1 ∙ before.1)
Step-Unmoved _ other _ _ key reader (commits s s' txn_id answer h) ne ok found snap =
    let (txn, (running, ends)) = commit_cases s s' txn_id answer h in
    elim ends [
      | inl e ↦
          subst (Unmoved other key s) (sym e)
            (Unmoved-withdrawn s txn_id other key reader ne found snap txn running ok)
      | inr e ↦
          subst (Unmoved other key s) (sym e)
            (Unmoved-committed s txn_id other key reader ne found snap txn running ok)
    ]
Step-Unmoved _ other _ _ key reader (aborts s txn_id) ne ok found snap =
    elim (abort_cases s txn_id) [
      | inl e ↦ subst (Unmoved other key s) (sym e) (refl, refl)
      | inr (txn, (running, e)) ↦
          subst (Unmoved other key s) (sym e)
            (Unmoved-withdrawn s txn_id other key reader ne found snap txn running ok)
    ]

-- Any number of calls, none of them of the transaction `other`.
pub data Others (other : ℕ) : Store → Store → Type 0 where
  nothing : (s : Store) → Others other s s
  call :
      (txn_id : ℕ) (s s' s'' : Store)
      → Step txn_id s s'
      → txn_id ≢ other
      → Others other s' s''
      → Others other s s''

-- Repeatable reads: from a well-formed state, whatever the other transactions begin, read, write,
-- delete, commit and abort, a transaction at SNAPSHOT or SERIALIZABLE_SNAPSHOT keeps running and
-- reads under every key what it read before.
pub Others-Unmoved :
    (other : ℕ) (s s' : Store) (key : ℤ) (reader : Transaction)
    → Others other s s'
    → IsValid s
    → find_txn other s.txns ≡ some reader
    → IsSnapshot reader.isolation
    → Unmoved other key s s'
Others-Unmoved other _ _ key reader (nothing s) ok found snap = (refl, refl)
Others-Unmoved other _ _ key reader (call txn_id s s' s'' step ne rest) ok found snap =
    let first = Step-Unmoved txn_id other s s' key reader step ne ok found snap in
    let later =
      Others-Unmoved other s' s'' key reader rest (Step-IsValid txn_id s s' step ok)
        (first.0 ∙ found) snap in
    (later.0 ∙ first.0, later.1 ∙ first.1)
