-- ===== src/Mvcc/Commit.antt =====
-- mvcc/mvcc_store.cpp: how a transaction ends. `Commit` holds the locks of every chain it checks,
-- and one thread drives a transaction, so each call is one step.
use cpp_database_engine.Common.{
  ℕ, ◌+◌, Bool, true, false, Option, none, some, List, [], ◌∷◌, ◌++◌, ◌==◌, ◌&&◌, if◌then◌else◌,
  length,
}
use cpp_database_engine.Common.Int.{ℤ, pos, ltb_ℤ, eqb_ℤ}
use cpp_database_engine.Mvcc.{
  serializable_snapshot, Version, WriteRecord, Transaction, Store, find_txn, erase_txn, find_chain,
  chain_of, put_chain,
}

-- `versions.erase(wr.it)`
unfoldable pub erase_node : ℕ → List Version → List Version
erase_node node [] = []
erase_node node (v ∷ versions) =
    if v.node == node then erase_node node versions else v ∷ erase_node node versions

-- `MVCCStore::AbortInternal`
unfoldable pub abort_internal : List WriteRecord → List (ℤ × List Version) → List (ℤ × List Version)
abort_internal [] table = table
abort_internal (wr ∷ records) table =
    abort_internal records (put_chain wr.key (erase_node wr.it (chain_of wr.key table)) table)

-- `MVCCStore::Abort`
unfoldable pub abort : Store → ℕ → Store
abort s txn_id = elim (find_txn txn_id s.txns) [
  | none ↦ s
  | some txn ↦ record s {
    table = abort_internal txn.write_records s.table;
    txns = erase_txn txn_id s.txns;
  }
]

-- One step of `std::sort` and `std::unique` on the keys to check.
unfoldable pub insert_key : ℤ → List ℤ → List ℤ
insert_key k [] = k ∷ []
insert_key k (j ∷ ks) =
    if ltb_ℤ j k then j ∷ insert_key k ks else if eqb_ℤ j k then j ∷ ks else k ∷ j ∷ ks

unfoldable pub sort_unique : List ℤ → List ℤ
sort_unique [] = []
sort_unique (k ∷ ks) = insert_key k (sort_unique ks)

-- The keys `Commit` checks: the write set, and the read set under SERIALIZABLE_SNAPSHOT.
unfoldable pub check_keys : Transaction → List ℤ
check_keys txn = elim txn.isolation [
  | serializable_snapshot ↦ sort_unique (txn.write_set ++ txn.read_set)
  | _ ↦ sort_unique txn.write_set
]

-- The inner loop of the conflict check.
unfoldable pub chain_conflict : ℕ → ℕ → List Version → Bool
chain_conflict txn_id start_ts [] = false
chain_conflict txn_id start_ts (v ∷ versions) =
    if (v.committed && (if v.txn_id == txn_id then false else true))
      && ltb_ℤ (pos start_ts) v.commit_ts
    then true
    else chain_conflict txn_id start_ts versions

-- The outer loop: the chains of the checked keys that exist.
unfoldable pub conflict : ℕ → ℕ → List (ℤ × List Version) → List ℤ → Bool
conflict txn_id start_ts table [] = false
conflict txn_id start_ts table (k ∷ keys) =
    if chain_conflict txn_id start_ts (chain_of k table)
    then true
    else conflict txn_id start_ts table keys

-- `wr.it->committed = true; wr.it->commit_ts = commit_ts`
unfoldable pub stamp_node : ℕ → ℕ → List Version → List Version
stamp_node commit_ts node [] = []
stamp_node commit_ts node (v ∷ versions) =
    (if v.node == node then record v { committed = true; commit_ts = pos commit_ts } else v)
    ∷ stamp_node commit_ts node versions

unfoldable pub stamp : ℕ → List WriteRecord → List (ℤ × List Version) → List (ℤ × List Version)
stamp commit_ts [] table = table
stamp commit_ts (wr ∷ records) table =
    stamp commit_ts records
      (put_chain wr.key (stamp_node commit_ts wr.it (chain_of wr.key table)) table)

-- `MVCCStore::Commit`; `none` is the `out_of_range` of `txns.at`.
unfoldable pub commit : Store → ℕ → Option (Store × Bool)
commit s txn_id = elim (find_txn txn_id s.txns) [
  | none ↦ none
  | some txn ↦
      if conflict txn_id txn.start_ts s.table (check_keys txn)
      then some (
        record s {
          table = abort_internal txn.write_records s.table;
          txns = erase_txn txn_id s.txns;
        },
        false,
      )
      else some (
        record s {
          global_ts = s.global_ts + 1;
          table = stamp s.global_ts txn.write_records s.table;
          txns = erase_txn txn_id s.txns;
        },
        true,
      )
]

-- `MVCCStore::GetVersionCount`
unfoldable pub get_version_count : Store → ℤ → ℕ
get_version_count s key = elim (find_chain key s.table) [
  | none ↦ 0
  | some versions ↦ length versions
]
