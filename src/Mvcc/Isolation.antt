-- ===== src/Mvcc/Isolation.antt =====
-- What `Write` and `Delete` of mvcc/mvcc_store.cpp change for the reads of each transaction.
use cpp_database_engine.Common.{
  ◌≡◌, refl, ap, ◌∙◌, ◌≢◌, inl, inr, ℕ, Bool, true, false, Option, none, some, List, [], ◌∷◌, ◌++◌,
  if◌then◌else◌, arith, Option-cases,
}
use cpp_database_engine.Common.Int.{ℤ, eqb_ℤ}
use cpp_database_engine.Common.Bytes.{Bytes}
use cpp_database_engine.Mvcc.{
  Version, Transaction, Store, find_txn, put_txn, find_chain, chain_of, content, find_own,
  newest_visible, latest_write, read_chain, read, update_own, write_internal, write, delete,
  finish_write, pending_version, set_insert,
}
use cpp_database_engine.Mvcc.Tables.{find_txn-put_txn_self, find_txn-put_txn_ne, chain_of-put_chain}

-- The value that a read returns, without the store it leaves.
abbrev pub read_value : Store → ℕ → ℤ → Option (Option Bytes)
read_value s txn_id key = elim (read s txn_id key) [ none ↦ none | some (s', found) ↦ some found ]

pub read_value_lem :
    (s : Store) (txn_id : ℕ) (key : ℤ) (txn : Transaction)
    → find_txn txn_id s.txns ≡ some txn
    → read_value s txn_id key ≡ some (read_chain txn_id txn (chain_of key s.table))
unfolding read read_chain find_own latest_write newest_visible
read_value_lem s txn_id key txn h = elim (Option-cases (find_chain key s.table)) [
  | inl e ↦ ground arith
  | inr (c, e) ↦ ground arith
]

-- What the own pending version says after a write.
abbrev written : Bool → Bytes → Option Bytes
written deleted value = if deleted then none else some value

find_own-update_own :
    (txn_id : ℕ) (deleted : Bool) (value : Bytes) (seq : ℕ) (vs vs' : List Version)
    → update_own txn_id deleted value seq vs ≡ some vs'
    → elim (find_own txn_id vs') [ none ↦ none | some v ↦ some (content v) ]
      ≡ some (written deleted value)
unfolding find_own update_own
find_own-update_own txn_id deleted value seq [] vs' h = ground arith
find_own-update_own txn_id deleted value seq (v ∷ vs) vs' h =
    elim (Option-cases (update_own txn_id deleted value seq vs)) [
      | inl e ↦ ground arith
      | inr (ws, e) ↦ ground (arith, find_own-update_own txn_id deleted value seq vs ws e)
    ]

find_own_append :
    (txn_id : ℕ) (deleted : Bool) (value : Bytes) (seq : ℕ) (vs : List Version) (v : Version)
    → update_own txn_id deleted value seq vs ≡ none
    → v.txn_id ≡ txn_id
    → v.committed ≡ false
    → find_own txn_id (vs ++ v ∷ []) ≡ some v
unfolding find_own update_own
find_own_append txn_id deleted value seq [] v h own pending = ground arith
find_own_append txn_id deleted value seq (w ∷ vs) v h own pending =
    ground (arith, find_own_append txn_id deleted value seq vs v)

-- The chain that a write leaves under its key.
abbrev pub written_chain :
    Store → ℕ → Bool → Bytes → List Version → Option (List Version) → List Version
written_chain s txn_id deleted value versions (some versions') = versions'
written_chain s txn_id deleted value versions none =
    versions ++ pending_version s txn_id deleted value ∷ []

module _ (s : Store) (txn : Transaction) (txn_id : ℕ) (key : ℤ) (deleted : Bool)
    (value : Bytes) where
  pub finish_write_chain :
      (key' : ℤ) (updated : Option (List Version))
      → chain_of key' (finish_write s txn txn_id key deleted value updated).table ≡ (
          if eqb_ℤ key key'
          then written_chain s txn_id deleted value (chain_of key s.table) updated
          else chain_of key' s.table)
  unfolding finish_write
  finish_write_chain key' none = chain_of-put_chain key key' _ s.table
  finish_write_chain key' (some ws) = chain_of-put_chain key key' ws s.table

  -- The transaction that a write leaves under the writer's id.
  finish_write_txn :
      (updated : Option (List Version))
      → find_txn txn_id s.txns ≡ some txn
      → (txn' : Transaction) × (find_txn txn_id
            (finish_write s txn txn_id key deleted value updated).txns
          ≡ some txn')
  unfolding finish_write
  finish_write_txn none h = (_, find_txn-put_txn_self txn_id _ s.txns)
  finish_write_txn (some ws) h = (txn, h)

  pub finish_write_other_txn :
      (other : ℕ) (updated : Option (List Version))
      → txn_id ≢ other
      → find_txn other (finish_write s txn txn_id key deleted value updated).txns
        ≡ find_txn other s.txns
  unfolding finish_write
  finish_write_other_txn other none ne = find_txn-put_txn_ne txn_id other _ s.txns ne
  finish_write_other_txn other (some ws) ne = refl

find_own-written_chain :
    (s : Store) (txn_id : ℕ) (deleted : Bool) (value : Bytes) (vs : List Version)
    (updated : Option (List Version))
    → update_own txn_id deleted value s.global_ts vs ≡ updated
    → elim (find_own txn_id (written_chain s txn_id deleted value vs updated)) [
      | none ↦ none
      | some v ↦ some (content v)
    ]
      ≡ some (written deleted value)
find_own-written_chain s txn_id deleted value vs none h =
    ap (λ o. elim o [ none ↦ none | some v ↦ some (content v) ])
      (find_own_append txn_id deleted value s.global_ts vs (pending_version s txn_id deleted value)
        h refl refl)
    ∙ ground arith
find_own-written_chain s txn_id deleted value vs (some ws) h =
    find_own-update_own txn_id deleted value s.global_ts vs ws h

read_chain_own :
    (txn_id : ℕ) (txn : Transaction) (vs : List Version) (found : Option Bytes)
    → elim (find_own txn_id vs) [ none ↦ none | some v ↦ some (content v) ] ≡ some found
    → read_chain txn_id txn vs ≡ found
unfolding read_chain
read_chain_own txn_id txn vs found h = ground arith

read_value-write_internal :
    (s : Store) (txn : Transaction) (txn_id : ℕ) (key : ℤ) (deleted : Bool) (value : Bytes)
    → find_txn txn_id s.txns ≡ some txn
    → read_value (write_internal s txn txn_id key deleted value) txn_id key
      ≡ some (written deleted value)
unfolding write_internal
read_value-write_internal s txn txn_id key deleted value h =
    let vs = chain_of key s.table in
    let updated = update_own txn_id deleted value s.global_ts vs in
    let s' = finish_write s txn txn_id key deleted value updated in
    let (txn', found) = finish_write_txn s txn txn_id key deleted value updated h in
    let chain : chain_of key s'.table ≡ written_chain s txn_id deleted value vs updated =
      finish_write_chain s txn txn_id key deleted value key updated ∙ ground arith in
    read_value_lem s' txn_id key txn' found
    ∙ ap some (
        read_chain_own txn_id txn' (chain_of key s'.table) (written deleted value) (
          ap (λ c. elim (find_own txn_id c) [ none ↦ none | some v ↦ some (content v) ]) chain
          ∙ find_own-written_chain s txn_id deleted value vs updated refl))

-- A transaction that has written a value under a key reads that value under it, at every isolation
-- level.
pub read-write_own :
    (s : Store) (txn : Transaction) (txn_id : ℕ) (key : ℤ) (value : Bytes)
    → find_txn txn_id s.txns ≡ some txn
    → elim (write s txn_id key value) [ none ↦ none | some s' ↦ read_value s' txn_id key ]
      ≡ some (some value)
unfolding write
read-write_own s txn txn_id key value h =
    rw h (read_value-write_internal s txn txn_id key false value h)

-- A transaction that has deleted a key finds it absent, at every isolation level.
pub read-delete_own :
    (s : Store) (txn : Transaction) (txn_id : ℕ) (key : ℤ)
    → find_txn txn_id s.txns ≡ some txn
    → elim (delete s txn_id key) [ none ↦ none | some (s', existed) ↦ read_value s' txn_id key ]
      ≡ some none
unfolding delete read
read-delete_own s txn txn_id key h =
    let txn' : Transaction = record txn { read_set = set_insert key txn.read_set } in
    let s' : Store = record s { txns = put_txn txn_id txn' s.txns } in
    let found : find_txn txn_id s'.txns ≡ some txn' = find_txn-put_txn_self txn_id txn' s.txns in
    rw h (rw found (read_value-write_internal s' txn' txn_id key true [] found))
