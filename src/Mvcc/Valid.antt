-- ===== src/Mvcc/Valid.antt =====
-- The well-formedness of the state of mvcc/mvcc_store.h, and that every operation keeps it.
use cpp_database_engine.Common.{
  ◌≡◌, refl, subst, ◌≢◌, ◌⊎◌, inl, inr, ℕ, ◌<◌, ◌≤◌, Bool, true, false, ◌&&◌, Option, none, some,
  List, [], ◌∷◌, ◌==◌, if◌then◌else◌, arith, Bool-cases, Option-cases, All, All-append,
}
use cpp_database_engine.Common.Int.{ℤ, pos, ◌<ℤ◌}
use cpp_database_engine.Common.Bytes.{Bytes}
use cpp_database_engine.Mvcc.{
  IsolationLevel, Version, WriteRecord, Transaction, Store, empty_store, find_txn, put_txn,
  erase_txn, chain_of, put_chain, begin, read, write, delete, update_own, finish_write,
  write_internal, pending_version, set_insert,
}
use cpp_database_engine.Mvcc.Tables.{find_txn-put_txn, find_txn-erase_txn}
use cpp_database_engine.Mvcc.Ends.{All-chain-put_chain, Hits, All-imp}

abbrev pub Pending : ℕ → Version → Type 0
Pending txn_id v = (v.txn_id ≡ txn_id) × (v.committed ≡ false)

-- A version is numbered, and a committed one was stamped in the past.
abbrev pub VersionOk : Store → Version → Type 0
VersionOk s v = (v.node < s.next_node) × (v.committed ≡ true → v.commit_ts <ℤ pos s.global_ts)

-- A running transaction started in the past, and its write records point to pending versions of
-- its own.
abbrev pub TxnOk : Store → ℕ → Transaction → Type 0
TxnOk s txn_id txn =
    (txn.start_ts < s.global_ts)
    × ((txn_id < s.next_txn_id)
        × (All (λ wr. wr.it < s.next_node) txn.write_records
            × Hits (Pending txn_id) txn.write_records s.table))

pub record IsValid (s : Store) : Type 0 where
  pub versions : (k : ℤ) → All (VersionOk s) (chain_of k s.table)
  pub txns :
      (txn_id : ℕ) (txn : Transaction) → find_txn txn_id s.txns ≡ some txn → TxnOk s txn_id txn

pub find_txn-put_txn_cases :
    (i j : ℕ) (t u : Transaction) (txns : List (ℕ × Transaction))
    → find_txn j (put_txn i t txns) ≡ some u
    → ((i ≡ j) × (t ≡ u)) ⊎ ((i ≢ j) × (find_txn j txns ≡ some u))
find_txn-put_txn_cases i j t u txns h = ground (arith, find_txn-put_txn i j t txns)

pub find_txn-erase_txn_cases :
    (i j : ℕ) (u : Transaction) (txns : List (ℕ × Transaction))
    → find_txn j (erase_txn i txns) ≡ some u
    → (i ≢ j) × (find_txn j txns ≡ some u)
find_txn-erase_txn_cases i j u txns h = ground (arith, find_txn-erase_txn i j txns)

-- Later numbers and the same table keep a transaction.
pub TxnOk-mono :
    (s s' : Store) (txn_id : ℕ) (txn : Transaction)
    → s.global_ts ≤ s'.global_ts
    → s.next_txn_id ≤ s'.next_txn_id
    → s.next_node ≤ s'.next_node
    → Hits (Pending txn_id) txn.write_records s'.table
    → TxnOk s txn_id txn
    → TxnOk s' txn_id txn
TxnOk-mono s s' txn_id txn hg ht hn hits ok = (
  omega arith,
  (omega arith, (All-imp _ _ txn.write_records (λ wr h. omega arith) ok.1.1.0, hits)),
)

pub VersionOk-mono :
    (s s' : Store) (v : Version)
    → s.global_ts ≤ s'.global_ts
    → s.next_node ≤ s'.next_node
    → VersionOk s v
    → VersionOk s' v
VersionOk-mono s s' v hg hn ok = (omega arith, λ c. let h = ok.1 c in omega arith)

pub empty_store-IsValid : IsValid empty_store
unfolding find_txn cpp_database_engine.Mvcc.find_chain
empty_store-IsValid = record { versions = λ k. tt; txns = λ i t h. absurd (ground arith) }

pub begin-IsValid : (s : Store) (level : IsolationLevel) → IsValid s → IsValid (begin s level).0
unfolding begin
begin-IsValid s level ok = record {
  versions = λ k.
      All-imp _ _ (chain_of k s.table)
        (λ v. VersionOk-mono s (begin s level).0 v (omega arith) (omega arith)) (ok.versions k);
  txns = λ i t h. elim (find_txn-put_txn_cases s.next_txn_id i _ t s.txns h) [
    | inl (same, new) ↦ subst (TxnOk (begin s level).0 i) new (omega arith, (omega arith, (tt, tt)))
    | inr (ne, old) ↦
        TxnOk-mono s (begin s level).0 i t (omega arith) (omega arith) (omega arith)
          (ok.txns i t old).1.1.1 (ok.txns i t old)
  ];
}

pub read-IsValid :
    (s s' : Store) (txn_id : ℕ) (key : ℤ) (found : Option Bytes)
    → read s txn_id key ≡ some (s', found)
    → IsValid s
    → IsValid s'
unfolding read
read-IsValid s s' txn_id key found h ok = elim (Option-cases (find_txn txn_id s.txns)) [
  | inl e ↦ absurd (ground arith)
  | inr (txn, e) ↦
      let txn' : Transaction = record txn { read_set = set_insert key txn.read_set } in
      subst IsValid {x = record s { txns = put_txn txn_id txn' s.txns }} (ground arith) (record {
        versions = ok.versions;
        txns = λ i t h. elim (find_txn-put_txn_cases txn_id i txn' t s.txns h) [
          | inl (same, new) ↦
              subst (λ j. TxnOk s j t) same (subst (TxnOk s txn_id) new (ok.txns txn_id txn e))
          | inr (ne, old) ↦ ok.txns i t old
        ];
      })
]

All-update_own :
    (P : Version → Type 0) (txn_id : ℕ) (deleted : Bool) (value : Bytes) (seq : ℕ)
    (vs ws : List Version)
    → ((v : Version)
        → P v
        → P (record v { seq = seq; deleted = deleted; value = if deleted then [] else value }))
    → update_own txn_id deleted value seq vs ≡ some ws
    → All P vs
    → All P ws
unfolding update_own
All-update_own P txn_id deleted value seq [] ws keep h all = absurd (ground arith)
All-update_own P txn_id deleted value seq (v ∷ vs) ws keep h all =
    elim (Bool-cases (v.txn_id == txn_id && (if v.committed then false else true))) [
      | inl own ↦
          subst (All P)
            {x = record v { seq = seq; deleted = deleted; value = if deleted then [] else value }
              ∷ vs}
            (ground arith) (keep v all.0, all.1)
      | inr skipped ↦ elim (Option-cases (update_own txn_id deleted value seq vs)) [
        | inl e ↦ absurd (ground arith)
        | inr (ws', e) ↦
            subst (All P) {x = v ∷ ws'} (ground arith)
              (all.0, All-update_own P txn_id deleted value seq vs ws' keep e all.1)
      ]
    ]

-- A predicate that a repeated write and the pending version keep holds after a write.
All-chain-finish_write :
    (P : Version → Type 0) (s : Store) (txn : Transaction) (txn_id : ℕ) (key key' : ℤ)
    (deleted : Bool) (value : Bytes) (updated : Option (List Version))
    → ((v : Version)
        → P v
        → P (record v {
          seq = s.global_ts;
          deleted = deleted;
          value = if deleted then [] else value;
        }))
    → P (pending_version s txn_id deleted value)
    → update_own txn_id deleted value s.global_ts (chain_of key s.table) ≡ updated
    → All P (chain_of key' s.table)
    → All P (chain_of key' (finish_write s txn txn_id key deleted value updated).table)
unfolding finish_write
All-chain-finish_write P s txn txn_id key key' deleted value none keep new h all =
    All-chain-put_chain P key key' _ s.table
      (λ old.
        All-append P (chain_of key s.table) (pending_version s txn_id deleted value ∷ []) old
          (new, tt))
      all
All-chain-finish_write P s txn txn_id key key' deleted value (some ws) keep new h all =
    All-chain-put_chain P key key' ws s.table
      (All-update_own P txn_id deleted value s.global_ts (chain_of key s.table) ws keep h) all

-- The write records of a transaction keep pointing to its pending versions.
Hits-finish_write :
    (s : Store) (txn : Transaction) (txn_id other : ℕ) (key : ℤ) (deleted : Bool) (value : Bytes)
    (updated : Option (List Version))
    → update_own txn_id deleted value s.global_ts (chain_of key s.table) ≡ updated
    → (records : List WriteRecord) → All (λ wr. wr.it < s.next_node) records
    → Hits (Pending other) records s.table
    → Hits (Pending other) records (finish_write s txn txn_id key deleted value updated).table
Hits-finish_write s txn txn_id other key deleted value updated h [] below hits = tt
Hits-finish_write s txn txn_id other key deleted value updated h (wr ∷ records) below hits = (
  All-chain-finish_write (λ v. v.node ≡ wr.it → Pending other v) s txn txn_id key wr.key deleted
      value updated (λ v p. p) (λ same. let b = below.0 in absurd (ground arith)) h hits.0,
  Hits-finish_write s txn txn_id other key deleted value updated h records below.1 hits.1,
)

module _ (s : Store) (txn : Transaction) (txn_id : ℕ) (key : ℤ) (deleted : Bool)
    (value : Bytes) where
  pub finish_write-IsValid :
      (updated : Option (List Version))
      → update_own txn_id deleted value s.global_ts (chain_of key s.table) ≡ updated
      → find_txn txn_id s.txns ≡ some txn
      → IsValid s
      → IsValid (finish_write s txn txn_id key deleted value updated)
  unfolding finish_write
  finish_write-IsValid (some ws) h found ok =
      let s' = finish_write s txn txn_id key deleted value (some ws) in
      record {
        versions = λ k.
            All-chain-put_chain (VersionOk s') key k ws s.table
              (All-update_own (VersionOk s') txn_id deleted value s.global_ts (chain_of key s.table)
                ws (λ v p. p) h)
              (All-imp _ _ (chain_of k s.table)
                (λ v. VersionOk-mono s s' v (omega arith) (omega arith)) (ok.versions k));
        txns = λ i t running.
            let old = ok.txns i t running in
            TxnOk-mono s s' i t (omega arith) (omega arith) (omega arith)
              (Hits-finish_write s txn txn_id i key deleted value (some ws) h t.write_records
                old.1.1.0 old.1.1.1)
              old;
      }
  finish_write-IsValid none h found ok =
      let s' = finish_write s txn txn_id key deleted value none in
      let mine = ok.txns txn_id txn found in
      record {
        versions = λ k.
            All-chain-put_chain (VersionOk s') key k _ s.table
              (λ old.
                All-append (VersionOk s') (chain_of key s.table) _ old
                  ((omega arith, λ c. absurd (ground arith)), tt))
              (All-imp _ _ (chain_of k s.table)
                (λ v. VersionOk-mono s s' v (omega arith) (omega arith)) (ok.versions k));
        txns = λ i t running. elim (find_txn-put_txn_cases txn_id i _ t s.txns running) [
          | inl (same, new) ↦
              subst (λ j. TxnOk s' j t) same
                (subst (TxnOk s' txn_id) new (
                  omega arith,
                  (
                    omega arith,
                    (
                      All-append (λ wr. wr.it < s'.next_node) txn.write_records _
                          (All-imp _ _ txn.write_records (λ wr below. omega arith) mine.1.1.0)
                          (omega arith, tt),
                      All-append
                          (λ wr.
                            All (λ v. v.node ≡ wr.it → Pending txn_id v) (chain_of wr.key s'.table))
                          txn.write_records _
                          (Hits-finish_write s txn txn_id txn_id key deleted value none h
                            txn.write_records mine.1.1.0 mine.1.1.1)
                          (
                            All-chain-finish_write (λ v. v.node ≡ s.next_node → Pending txn_id v) s
                                txn txn_id key key deleted value none (λ v p. p)
                                (λ same. (refl, refl)) h
                                (All-imp _ _ (chain_of key s.table)
                                  (λ v numbered same. let n = numbered.0 in absurd (omega arith))
                                  (ok.versions key)),
                            tt,
                          ),
                    ),
                  ),
                ))
          | inr (ne, old) ↦
              let theirs = ok.txns i t old in
              TxnOk-mono s s' i t (omega arith) (omega arith) (omega arith)
                (Hits-finish_write s txn txn_id i key deleted value none h t.write_records
                  theirs.1.1.0 theirs.1.1.1)
                theirs
        ];
      }
