-- ===== src/Mvcc/Tests.antt =====
-- Concrete transactions of mvcc/mvcc_store.cpp.
use cpp_database_engine.Common.{
  ℕ, subst, ◌≡◌, refl, ◌≢◌, ◌↔◌, true, false, none, some, [], ◌∷◌, arith, inl,
}
use cpp_database_engine.Common.Int.{pos, negsuc}
use cpp_database_engine.Common.Bytes.{Bytes, codes}
use cpp_database_engine.Mvcc.{
  IsolationLevel, Version, snapshot, serializable_snapshot, read_uncommitted, Transaction, Store,
  empty_store, set_insert, find_txn, put_txn, erase_txn, find_chain, put_chain, begin, is_visible,
  find_own, latest_write, newest_visible, read_chain, read, update_own, finish_write,
  write_internal, write, delete,
}
use cpp_database_engine.Mvcc.Commit.{
  erase_node, abort_internal, abort, insert_key, sort_unique, check_keys, chain_conflict, conflict,
  stamp_node, stamp, commit, get_version_count,
}
use cpp_database_engine.Mvcc.Isolation.{read_value, read-write_own, read-delete_own}
use cpp_database_engine.Mvcc.DirtyReads.{read-write_other}
use cpp_database_engine.Mvcc.FirstCommitter.{Validated, commits, commit-Validated}
use cpp_database_engine.Mvcc.Valid.{IsValid, begin-IsValid, empty_store-IsValid}
use cpp_database_engine.Mvcc.Steps
use cpp_database_engine.Mvcc.Steps.{Step, Step-IsValid}
use cpp_database_engine.Mvcc.Snapshot.Stable.{Unmoved}
use cpp_database_engine.Mvcc.Snapshot.Runs.{Others, nothing, call, Others-Unmoved}

program : Unit {0}
unfolding set_insert find_txn put_txn erase_txn find_chain put_chain begin is_visible find_own
    latest_write newest_visible read_chain read update_own finish_write write_internal write delete
    erase_node abort_internal abort insert_key sort_unique check_keys chain_conflict conflict
    stamp_node stamp commit get_version_count
program = tt

abbrev started : IsolationLevel → ℕ → Transaction
started level start_ts = record {
  isolation = level;
  start_ts = start_ts;
  write_records = [];
  write_set = [];
  read_set = [];
}

-- transaction 0 at SERIALIZABLE_SNAPSHOT
abbrev one_running : Store
one_running = record empty_store {
  global_ts = 1;
  next_txn_id = 1;
  txns = (0, started serializable_snapshot 0) ∷ [];
}

-- and transaction 1 at SNAPSHOT
abbrev two_running : Store
two_running = record empty_store {
  global_ts = 2;
  next_txn_id = 2;
  txns = (0, started serializable_snapshot 0) ∷ (1, started snapshot 1) ∷ [];
}

first_begin : (begin empty_store serializable_snapshot).0 ≡ one_running
unfolding program
first_begin = refl

second_begin : (begin one_running snapshot).0 ≡ two_running
unfolding program
second_begin = refl

begun : Step 1 one_running two_running
begun = subst (Step 1 one_running) second_begin (Steps.begins one_running snapshot)

one_running-IsValid : IsValid one_running
one_running-IsValid =
    subst IsValid first_begin (begin-IsValid empty_store serializable_snapshot empty_store-IsValid)

Step-IsValid_example : IsValid two_running
Step-IsValid_example = Step-IsValid 1 one_running two_running begun one_running-IsValid

two_running-IsValid : IsValid two_running
two_running-IsValid =
    subst IsValid second_begin (begin-IsValid one_running snapshot one_running-IsValid)

running_0 : find_txn 0 two_running.txns ≡ some (started serializable_snapshot 0)
unfolding program
running_0 = refl

running_1 : find_txn 1 two_running.txns ≡ some (started snapshot 1)
unfolding program
running_1 = refl

abbrev one : Bytes
one = codes "one"

read-write_own_example :
    elim (write two_running 0 (pos 7) one) [ none ↦ none | some s' ↦ read_value s' 0 (pos 7) ]
    ≡ some (some one)
read-write_own_example =
    read-write_own two_running (started serializable_snapshot 0) 0 (pos 7) one running_0

read-delete_own_example :
    elim (delete two_running 1 (pos 7)) [
      | none ↦ none
      | some (s', existed) ↦ read_value s' 1 (pos 7)
    ]
    ≡ some none
read-delete_own_example = read-delete_own two_running (started snapshot 1) 1 (pos 7) running_1

zero_ne_one : ◌≢◌ {A = ℕ} 0 1
zero_ne_one h = omega arith

snapshot_committed : snapshot ≢ read_uncommitted
snapshot_committed h = cc

read-write_other_example :
    elim (write two_running 0 (pos 7) one) [ none ↦ none | some s' ↦ read_value s' 1 (pos 7) ]
    ≡ read_value two_running 1 (pos 7)
read-write_other_example =
    read-write_other two_running (started serializable_snapshot 0) (started snapshot 1) 0 1 (pos 7)
      (pos 7) one running_0 zero_ne_one running_1 snapshot_committed

-- transaction 0 has written under 7
abbrev pending_one : Version
pending_one = record {
  node = 0;
  txn_id = 0;
  seq = 2;
  commit_ts = negsuc 0;
  committed = false;
  deleted = false;
  value = one;
}

abbrev writer : Transaction
writer = record (started serializable_snapshot 0) {
  write_records = record { key = pos 7; it = 0 } ∷ [];
  write_set = pos 7 ∷ [];
}

abbrev written_one : Store
written_one = record two_running {
  global_ts = 3;
  next_node = 1;
  table = (pos 7, pending_one ∷ []) ∷ [];
  txns = (0, writer) ∷ (1, started snapshot 1) ∷ [];
}

write-one : write two_running 0 (pos 7) one ≡ some written_one
unfolding program
write-one = refl

writer_runs : find_txn 0 written_one.txns ≡ some writer
unfolding program
writer_runs = refl

commit-Validated_example :
    ((commits written_one 0 ≡ some true) ↔ Validated written_one 0 writer)
    × ((commits written_one 0 ≡ some false) ↔ (¬ Validated written_one 0 writer))
commit-Validated_example = commit-Validated written_one 0 writer writer_runs

-- and has committed
abbrev committed_one : Store
committed_one = record written_one {
  global_ts = 4;
  table = (pos 7, record pending_one { committed = true; commit_ts = pos 3 } ∷ []) ∷ [];
  txns = (1, started snapshot 1) ∷ [];
}

commit_one : commit written_one 0 ≡ some (committed_one, true)
unfolding program
commit_one = refl

others : Others 1 two_running committed_one
others =
    call 0 two_running written_one committed_one
      (Steps.writes two_running written_one 0 (pos 7) one write-one) zero_ne_one
      (call 0 written_one committed_one committed_one
        (Steps.commits written_one committed_one 0 true commit_one) zero_ne_one
        (nothing committed_one))

Others-Unmoved_example : Unmoved 1 (pos 7) two_running committed_one
Others-Unmoved_example =
    Others-Unmoved 1 two_running committed_one (pos 7) (started snapshot 1) others
      two_running-IsValid running_1 (inl refl)

-- transaction 1, which started before, cannot overwrite the committed version
second_writer :
    (s : Store) × (write committed_one 1 (pos 7) one ≡ some s) × (commits s 1 ≡ some false)
unfolding program
second_writer = (_, refl, refl)
