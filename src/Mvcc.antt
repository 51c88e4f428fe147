-- ===== src/Mvcc.antt =====
-- mvcc/mvcc_store.h and mvcc/mvcc_store.cpp: multi-version concurrency control. One call is
-- taken as one step; what may happen inside a call, between the read and the write of `Delete` and
-- between the checks and the stamps of `Commit`, is not shown.
-- A `VersionChain` is the list of its versions; `node` is the address of a version's list node,
-- which the iterators of the write records hold. `table_` and the sixteen transaction shards are
-- association lists.
use cpp_database_engine.Common.{
  ℕ, suc, ◌+◌, Bool, true, false, Option, none, some, List, [], ◌∷◌, ◌++◌, map, ◌==◌, ltb, leb,
  ◌&&◌, if◌then◌else◌,
}
use cpp_database_engine.Common.Int.{ℤ, pos, negsuc, ltb_ℤ, leb_ℤ, eqb_ℤ}
use cpp_database_engine.Common.Bytes.{Bytes}
pub mod Commit
pub mod Tables
pub mod Isolation
pub mod DirtyReads
pub mod FirstCommitter
pub mod Ends
pub mod Valid
pub mod Steps
pub mod Snapshot
mod Tests

pub data IsolationLevel : Type 0 where
  read_uncommitted read_committed snapshot serializable_snapshot : IsolationLevel

pub record Version : Type 0 where
  pub node : ℕ
  pub txn_id : ℕ
  pub seq : ℕ
  pub commit_ts : ℤ
  pub committed : Bool
  pub deleted : Bool
  pub value : Bytes

pub record WriteRecord : Type 0 where
  pub key : ℤ
  pub it : ℕ

pub record Transaction : Type 0 where
  pub isolation : IsolationLevel
  pub start_ts : ℕ
  pub write_records : List WriteRecord
  pub write_set : List ℤ
  pub read_set : List ℤ

pub record Store : Type 0 where
  pub global_ts : ℕ
  pub next_txn_id : ℕ
  pub next_node : ℕ
  pub table : List (ℤ × List Version)
  pub txns : List (ℕ × Transaction)

abbrev pub empty_store : Store
empty_store = record { global_ts = 0; next_txn_id = 0; next_node = 0; table = []; txns = [] }

-- A set as the list of its members; the code asks only for the members.
unfoldable pub set_insert : ℤ → List ℤ → List ℤ
set_insert k [] = k ∷ []
set_insert k (j ∷ ks) = if eqb_ℤ j k then j ∷ ks else j ∷ set_insert k ks

unfoldable pub find_txn : ℕ → List (ℕ × Transaction) → Option Transaction
find_txn id [] = none
find_txn id ((i, t) ∷ txns) = if i == id then some t else find_txn id txns

unfoldable pub put_txn : ℕ → Transaction → List (ℕ × Transaction) → List (ℕ × Transaction)
put_txn id t [] = (id, t) ∷ []
put_txn id t ((i, u) ∷ txns) = if i == id then (id, t) ∷ txns else (i, u) ∷ put_txn id t txns

unfoldable pub erase_txn : ℕ → List (ℕ × Transaction) → List (ℕ × Transaction)
erase_txn id [] = []
erase_txn id ((i, u) ∷ txns) = if i == id then erase_txn id txns else (i, u) ∷ erase_txn id txns

unfoldable pub find_chain : ℤ → List (ℤ × List Version) → Option (List Version)
find_chain k [] = none
find_chain k ((j, c) ∷ table) = if eqb_ℤ j k then some c else find_chain k table

-- The versions under a key; an absent chain has none.
abbrev pub chain_of : ℤ → List (ℤ × List Version) → List Version
chain_of k table = elim (find_chain k table) [ none ↦ [] | some c ↦ c ]

-- Replaces the chain of a key, creating it if it is absent.
unfoldable pub put_chain : ℤ → List Version → List (ℤ × List Version) → List (ℤ × List Version)
put_chain k c [] = (k, c) ∷ []
put_chain k c ((j, d) ∷ table) = if eqb_ℤ j k then (k, c) ∷ table else (j, d) ∷ put_chain k c table

-- `MVCCStore::Begin`
unfoldable pub begin : Store → IsolationLevel → Store × ℕ
unfolding put_txn
begin s level =
    let txn : Transaction = record {
      isolation = level;
      start_ts = s.global_ts;
      write_records = [];
      write_set = [];
      read_set = [];
    } in
    (
      record s {
        global_ts = s.global_ts + 1;
        next_txn_id = s.next_txn_id + 1;
        txns = put_txn s.next_txn_id txn s.txns;
      },
      s.next_txn_id,
    )

-- `MVCCStore::IsVisible`
unfoldable pub is_visible : Version → IsolationLevel → ℕ → Bool
is_visible v read_committed start_ts = true
is_visible v snapshot start_ts = leb_ℤ v.commit_ts (pos start_ts)
is_visible v serializable_snapshot start_ts = leb_ℤ v.commit_ts (pos start_ts)
is_visible v read_uncommitted start_ts = true

-- What a version says of its key: `none` if it is a deletion.
abbrev pub content : Version → Option Bytes
content v = if v.deleted then none else some v.value

-- The first loop of `Read`: the transaction's own pending version.
unfoldable pub find_own : ℕ → List Version → Option Version
find_own txn_id [] = none
find_own txn_id (v ∷ versions) =
    if v.txn_id == txn_id && (if v.committed then false else true)
    then some v
    else find_own txn_id versions

-- The loop of READ_UNCOMMITTED: the latest write.
unfoldable pub latest_write : Option Version → List Version → Option Version
latest_write best [] = best
latest_write best (v ∷ versions) =
    latest_write (elim best [ none ↦ some v | some b ↦ if ltb b.seq v.seq then some v else some b ])
      versions

-- The last loop of `Read`: the newest committed version that is visible.
unfoldable pub newest_visible : IsolationLevel → ℕ → Option Version → List Version → Option Version
newest_visible level start_ts best [] = best
newest_visible level start_ts best (v ∷ versions) =
    newest_visible level start_ts
      (if v.committed
        then (if is_visible v level start_ts
            then elim best [
              | none ↦ some v
              | some b ↦ if ltb_ℤ b.commit_ts v.commit_ts then some v else some b
            ]
            else best)
        else best)
      versions

abbrev pub content_of : Option Version → Option Bytes
content_of none = none
content_of (some v) = content v

-- What `Read` returns for a chain.
unfoldable pub read_chain : ℕ → Transaction → List Version → Option Bytes
read_chain txn_id txn versions = elim (find_own txn_id versions) [
  | some v ↦ content v
  | none ↦ elim txn.isolation [
    | read_uncommitted ↦ content_of (latest_write none versions)
    | _ ↦ content_of (newest_visible txn.isolation txn.start_ts none versions)
  ]
]

-- `MVCCStore::Read`; outer `none` is the `out_of_range` of `txns.at`.
unfoldable pub read : Store → ℕ → ℤ → Option (Store × Option Bytes)
read s txn_id key = elim (find_txn txn_id s.txns) [
  | none ↦ none
  | some txn ↦ some (
    record s {
      txns = put_txn txn_id (record txn { read_set = set_insert key txn.read_set }) s.txns;
    },
    elim (find_chain key s.table) [ none ↦ none | some c ↦ read_chain txn_id txn c ],
  )
]

-- The loop of `WriteInternal`: updates the pending version, if there is one.
unfoldable pub update_own : ℕ → Bool → Bytes → ℕ → List Version → Option (List Version)
update_own txn_id deleted value seq [] = none
update_own txn_id deleted value seq (v ∷ versions) =
    if v.txn_id == txn_id && (if v.committed then false else true)
    then some (
        record v { seq = seq; deleted = deleted; value = if deleted then [] else value } ∷ versions)
    else elim (update_own txn_id deleted value seq versions) [
      | none ↦ none
      | some versions' ↦ some (v ∷ versions')
    ]

-- The version that a first write of the transaction to a chain appends.
abbrev pub pending_version : Store → ℕ → Bool → Bytes → Version
pending_version s txn_id deleted value = record {
  node = s.next_node;
  txn_id = txn_id;
  seq = s.global_ts;
  commit_ts = negsuc 0;
  committed = false;
  deleted = deleted;
  value = if deleted then [] else value;
}

-- `WriteInternal` after its loop: done if the loop has updated the chain, else append a version.
unfoldable pub finish_write :
    Store → Transaction → ℕ → ℤ → Bool → Bytes → Option (List Version) → Store
finish_write s txn txn_id key deleted value (some versions) = record s {
  global_ts = s.global_ts + 1;
  table = put_chain key versions s.table;
}
finish_write s txn txn_id key deleted value none =
    let txn' : Transaction = record txn {
      write_records = txn.write_records ++ record { key = key; it = s.next_node } ∷ [];
      write_set = set_insert key txn.write_set;
    } in
    record s {
      global_ts = s.global_ts + 1;
      next_node = s.next_node + 1;
      table =
          put_chain key (chain_of key s.table ++ pending_version s txn_id deleted value ∷ [])
            s.table;
      txns = put_txn txn_id txn' s.txns;
    }

-- `MVCCStore::WriteInternal`
unfoldable pub write_internal : Store → Transaction → ℕ → ℤ → Bool → Bytes → Store
write_internal s txn txn_id key deleted value =
    finish_write s txn txn_id key deleted value
      (update_own txn_id deleted value s.global_ts (chain_of key s.table))

-- `MVCCStore::Write`
unfoldable pub write : Store → ℕ → ℤ → Bytes → Option Store
write s txn_id key value = elim (find_txn txn_id s.txns) [
  | none ↦ none
  | some txn ↦ some (write_internal s txn txn_id key false value)
]

-- `MVCCStore::Delete`: the read is recorded in the read set before the write.
unfoldable pub delete : Store → ℕ → ℤ → Option (Store × Bool)
delete s txn_id key = elim (read s txn_id key) [
  | none ↦ none
  | some (s', found) ↦ elim (find_txn txn_id s'.txns) [
    | none ↦ none
    | some txn ↦
        some (write_internal s' txn txn_id key true [], elim found [ none ↦ false | some _ ↦ true ])
  ]
]
