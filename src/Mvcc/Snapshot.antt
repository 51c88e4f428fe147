-- ===== src/Mvcc/Snapshot.antt =====
-- The snapshots of mvcc/mvcc_store.cpp: what a transaction at SNAPSHOT or SERIALIZABLE_SNAPSHOT
-- reads while others run, commit and abort.
use cpp_database_engine.Common.{
  ◌≡◌, refl, sym, ap, ◌∙◌, subst, ◌≢◌, ◌⊎◌, inl, inr, ℕ, ◌+◌, ◌<◌, ◌≤◌, Bool, true, false, Option,
  none, some, List, [], ◌∷◌, ◌==◌, ◌&&◌, if◌then◌else◌, arith, Bool-cases, Option-cases, All,
}
use cpp_database_engine.Common.Int.{ℤ, pos, ◌<ℤ◌, leb_ℤ, eqb_ℤ, eqb_ℤ_iff}
use cpp_database_engine.Common.Bytes.{Bytes}
use cpp_database_engine.Mvcc.{
  IsolationLevel, snapshot, serializable_snapshot, read_uncommitted, Version, WriteRecord,
  Transaction, Store, find_txn, put_txn, chain_of, put_chain, begin, read, is_visible, find_own,
  newest_visible, latest_write, read_chain, write_internal, set_insert, erase_txn,
}
use cpp_database_engine.Mvcc.Tables.{find_txn-put_txn_ne, find_txn-erase_txn, chain_of-put_chain}
use cpp_database_engine.Mvcc.Commit.{erase_node, abort_internal, abort, stamp_node, stamp, commit}
use cpp_database_engine.Mvcc.Isolation.{read_value, read_value_lem}
use cpp_database_engine.Mvcc.DirtyReads.{read_value-write_internal_other}
use cpp_database_engine.Mvcc.Ends.{
  stamped, Hits, All-imp, Hits-stamp_node, All-erase_node, All-chain-put_chain,
}
use cpp_database_engine.Mvcc.Valid.{Pending, IsValid}
use cpp_database_engine.Mvcc.Steps.{
  Step, begins, reads, writes, deletes, commits, aborts, Step-IsValid, withdrawn, committed,
  commit_cases, abort_cases, write_inv, delete_inv,
}
pub mod Stable
pub mod Runs

-- A version of another transaction that a snapshot does not hold.
abbrev pub Hidden : ℕ → ℕ → Version → Type 0
Hidden txn_id start_ts v = (v.txn_id ≡ txn_id) × (v.committed ≡ true → pos start_ts <ℤ v.commit_ts)

abbrev pub IsSnapshot : IsolationLevel → Type 0
IsSnapshot level = (level ≡ snapshot) ⊎ (level ≡ serializable_snapshot)

is_visible-snapshot :
    (v : Version) (level : IsolationLevel) (start_ts : ℕ)
    → IsSnapshot level
    → is_visible v level start_ts ≡ leb_ℤ v.commit_ts (pos start_ts)
unfolding is_visible
is_visible-snapshot v level start_ts (inl e) = rw e refl
is_visible-snapshot v level start_ts (inr e) = rw e refl

newest_visible-Hidden :
    (txn_id : ℕ) (level : IsolationLevel) (start_ts : ℕ) (best : Option Version) (v : Version)
    (vs : List Version)
    → IsSnapshot level
    → Hidden txn_id start_ts v
    → newest_visible level start_ts best (v ∷ vs) ≡ newest_visible level start_ts best vs
unfolding newest_visible is_visible
newest_visible-Hidden txn_id level start_ts best v vs snap h = elim (Bool-cases v.committed) [
  | inr e ↦ rw e refl
  | inl e ↦
      let late = h.1 e in
      let unseen : is_visible v level start_ts ≡ false =
        is_visible-snapshot v level start_ts snap ∙ ground arith in
      rw (e, unseen) refl
]

module _ (txn_id other start_ts : ℕ) (level : IsolationLevel) (ne : txn_id ≢ other)
    (snap : IsSnapshot level) where
  find_own-erase_node :
      (node : ℕ) (vs : List Version)
      → All (λ v. v.node ≡ node → Hidden txn_id start_ts v) vs
      → find_own other (erase_node node vs) ≡ find_own other vs
  unfolding find_own erase_node
  find_own-erase_node node [] h = refl
  find_own-erase_node node (v ∷ vs) h = elim (Bool-cases (v.node == node)) [
    | inl e ↦ let mine = (h.0 (ground arith)).0 in ground (arith, find_own-erase_node node vs h.1)
    | inr e ↦ ground (arith, find_own-erase_node node vs h.1)
  ]

  newest_visible-erase_node :
      (node : ℕ) (vs : List Version)
      → All (λ v. v.node ≡ node → Hidden txn_id start_ts v) vs
      → (best : Option Version)
      → newest_visible level start_ts best (erase_node node vs)
        ≡ newest_visible level start_ts best vs
  unfolding erase_node newest_visible
  newest_visible-erase_node node [] h best = refl
  newest_visible-erase_node node (v ∷ vs) h best = elim (Bool-cases (v.node == node)) [
    | inl e ↦ rw e (
        newest_visible-erase_node node vs h.1 best
        ∙ sym (newest_visible-Hidden txn_id level start_ts best v vs snap (h.0 (ground arith))))
    | inr e ↦ rw e (newest_visible-erase_node node vs h.1 _)
  ]

  find_own-stamp_node :
      (commit_ts node : ℕ) (vs : List Version)
      → All (λ v. v.node ≡ node → Hidden txn_id start_ts v) vs
      → find_own other (stamp_node commit_ts node vs) ≡ find_own other vs
  unfolding find_own stamp_node
  find_own-stamp_node commit_ts node [] h = refl
  find_own-stamp_node commit_ts node (v ∷ vs) h = elim (Bool-cases (v.node == node)) [
    | inl e ↦
        let mine = (h.0 (ground arith)).0 in
        ground (arith, find_own-stamp_node commit_ts node vs h.1)
    | inr e ↦ ground (arith, find_own-stamp_node commit_ts node vs h.1)
  ]

  newest_visible-stamp_node :
      (commit_ts node : ℕ) (vs : List Version)
      → start_ts < commit_ts
      → All (λ v. v.node ≡ node → Hidden txn_id start_ts v) vs
      → (best : Option Version)
      → newest_visible level start_ts best (stamp_node commit_ts node vs)
        ≡ newest_visible level start_ts best vs
  unfolding stamp_node newest_visible
  newest_visible-stamp_node commit_ts node [] late h best = refl
  newest_visible-stamp_node commit_ts node (v ∷ vs) late h best =
      elim (Bool-cases (v.node == node)) [
        | inl e ↦
            let hidden = h.0 (ground arith) in
            rw e (
              newest_visible-Hidden txn_id level start_ts best (stamped commit_ts v)
                (stamp_node commit_ts node vs) snap (hidden.0, λ c. omega arith)
              ∙ newest_visible-stamp_node commit_ts node vs late h.1 best
              ∙ sym (newest_visible-Hidden txn_id level start_ts best v vs snap hidden))
        | inr e ↦ rw e (newest_visible-stamp_node commit_ts node vs late h.1 _)
      ]
