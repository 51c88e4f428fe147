-- ===== src/Mvcc/Snapshot/Stable.antt =====
-- The stability of the snapshots of mvcc/mvcc_store.cpp under the calls of other transactions.
use cpp_database_engine.Common.{
  ◌≡◌, refl, sym, ap, ◌∙◌, ◌≢◌, inl, inr, ℕ, ◌<◌, none, some, List, [], ◌∷◌, arith, Bool-cases,
}
use cpp_database_engine.Common.Int.{ℤ, eqb_ℤ, eqb_ℤ_iff}
use cpp_database_engine.Mvcc.{
  Version, WriteRecord, Transaction, Store, find_txn, chain_of, put_chain, find_own, newest_visible,
  read_chain, erase_txn,
}
use cpp_database_engine.Mvcc.Tables.{find_txn-erase_txn, chain_of-put_chain}
use cpp_database_engine.Mvcc.Commit.{erase_node, abort_internal, stamp_node, stamp}
use cpp_database_engine.Mvcc.Isolation.{read_value, read_value_lem}
use cpp_database_engine.Mvcc.Ends.{
  Hits, All-imp, Hits-stamp_node, All-erase_node, All-chain-put_chain,
}
use cpp_database_engine.Mvcc.Snapshot.{
  Hidden, IsSnapshot, find_own-erase_node, newest_visible-erase_node, find_own-stamp_node,
  newest_visible-stamp_node,
}

-- A read at a snapshot level is determined by the own pending version and the newest visible one.
read_chain_of_parts :
    (other : ℕ) (reader : Transaction) (vs ws : List Version)
    → IsSnapshot reader.isolation
    → find_own other ws ≡ find_own other vs
    → newest_visible reader.isolation reader.start_ts none ws
      ≡ newest_visible reader.isolation reader.start_ts none vs
    → read_chain other reader ws ≡ read_chain other reader vs
unfolding read_chain
read_chain_of_parts other reader vs ws snap own newest = ground arith

-- A reader's view of one key, after a change of one chain that keeps the reader's view of it.
view-put_chain :
    (other : ℕ) (reader : Transaction) (key k : ℤ) (c : List Version)
    (table : List (ℤ × List Version))
    → read_chain other reader c ≡ read_chain other reader (chain_of key table)
    → read_chain other reader (chain_of k (put_chain key c table))
      ≡ read_chain other reader (chain_of k table)
view-put_chain other reader key k c table same =
    rw (chain_of-put_chain key k c table) (elim (Bool-cases (eqb_ℤ key k)) [
      | inl e ↦
          rw e (same ∙ ap (λ j. read_chain other reader (chain_of j table)) ((eqb_ℤ_iff key k).0 e))
      | inr e ↦ rw e refl
    ])

module _ (txn_id other : ℕ) (reader : Transaction) (ne : txn_id ≢ other)
    (snap : IsSnapshot reader.isolation) where
  pub view-abort_internal :
      (records : List WriteRecord) (table : List (ℤ × List Version)) (k : ℤ)
      → Hits (Hidden txn_id reader.start_ts) records table
      → read_chain other reader (chain_of k (abort_internal records table))
        ≡ read_chain other reader (chain_of k table)
  unfolding abort_internal
  view-abort_internal [] table k hits = refl
  view-abort_internal (wr ∷ records) table k hits =
      let c = erase_node wr.it (chain_of wr.key table) in
      view-abort_internal records (put_chain wr.key c table) k (
        All-imp _ _ records
          (λ r.
            All-chain-put_chain (λ v. v.node ≡ r.it → Hidden txn_id reader.start_ts v) wr.key r.key
              c table (All-erase_node _ wr.it (chain_of wr.key table)))
          hits.1)
      ∙ view-put_chain other reader wr.key k c table (
          read_chain_of_parts other reader (chain_of wr.key table) c snap
            (find_own-erase_node txn_id other reader.start_ts reader.isolation ne snap wr.it
              (chain_of wr.key table) hits.0)
            (newest_visible-erase_node txn_id other reader.start_ts reader.isolation ne snap wr.it
              (chain_of wr.key table) hits.0 none))

  pub view-stamp :
      (commit_ts : ℕ) (records : List WriteRecord) (table : List (ℤ × List Version)) (k : ℤ)
      → reader.start_ts < commit_ts
      → Hits (Hidden txn_id reader.start_ts) records table
      → read_chain other reader (chain_of k (stamp commit_ts records table))
        ≡ read_chain other reader (chain_of k table)
  unfolding stamp
  view-stamp commit_ts [] table k late hits = refl
  view-stamp commit_ts (wr ∷ records) table k late hits =
      let c = stamp_node commit_ts wr.it (chain_of wr.key table) in
      view-stamp commit_ts records (put_chain wr.key c table) k late (
        Hits-stamp_node commit_ts (Hidden txn_id reader.start_ts)
          (λ v h. (h.0, λ committed. omega arith)) wr.key wr.it records table hits.0 hits.1)
      ∙ view-put_chain other reader wr.key k c table (
          read_chain_of_parts other reader (chain_of wr.key table) c snap
            (find_own-stamp_node txn_id other reader.start_ts reader.isolation ne snap commit_ts
              wr.it (chain_of wr.key table) hits.0)
            (newest_visible-stamp_node txn_id other reader.start_ts reader.isolation ne snap
              commit_ts wr.it (chain_of wr.key table) late hits.0 none))

pub find_txn-erase_txn_ne :
    (i j : ℕ) (txns : List (ℕ × Transaction))
    → i ≢ j
    → find_txn j (erase_txn i txns) ≡ find_txn j txns
find_txn-erase_txn_ne i j txns ne = ground (arith, find_txn-erase_txn i j txns)

-- The reader still runs, and reads under the key what it read before.
abbrev pub Unmoved : ℕ → ℤ → Store → Store → Type 0
Unmoved other key s s' =
    (find_txn other s'.txns ≡ find_txn other s.txns)
    × (read_value s' other key ≡ read_value s other key)

-- The same table and the same entry give the same read.
pub Unmoved-of_view :
    (s s' : Store) (other : ℕ) (key : ℤ) (reader : Transaction)
    → find_txn other s.txns ≡ some reader
    → find_txn other s'.txns ≡ find_txn other s.txns
    → read_chain other reader (chain_of key s'.table)
      ≡ read_chain other reader (chain_of key s.table)
    → Unmoved other key s s'
Unmoved-of_view s s' other key reader found same view = (
  same,
  read_value_lem s' other key reader (same ∙ found)
      ∙ ap some view
      ∙ sym (read_value_lem s other key reader found),
)
