-- ===== src/Mvcc/DirtyReads.antt =====
-- What the pending versions of mvcc/mvcc_store.cpp do not change: the reads of the other
-- transactions that read committed versions only.
use cpp_database_engine.Common.{
  ◌≡◌, refl, sym, ap, subst, ◌∙◌, ◌≢◌, inl, inr, ℕ, Bool, true, false, Option, none, some, List, [],
  ◌∷◌, ◌++◌, ◌==◌, ◌&&◌, if◌then◌else◌, arith, Option-cases, Bool-cases,
}
use cpp_database_engine.Common.Int.{ℤ, eqb_ℤ, eqb_ℤ_iff}
use cpp_database_engine.Common.Bytes.{Bytes}
use cpp_database_engine.Mvcc.{
  IsolationLevel, read_uncommitted, Version, Transaction, Store, find_txn, chain_of, find_own,
  newest_visible, read_chain, update_own, write_internal, write, finish_write, pending_version,
}
use cpp_database_engine.Mvcc.Isolation.{
  read_value, read_value_lem, written_chain, finish_write_chain, finish_write_other_txn,
}

-- The lists differ only by pending versions of the transaction.
data SameBut (txn_id : ℕ) : List Version → List Version → Type 0 where
  same_nil : SameBut txn_id [] []
  same_cons :
      (v : Version) (vs ws : List Version) → SameBut txn_id vs ws → SameBut txn_id (v ∷ vs) (v ∷ ws)
  same_pending :
      (v w : Version) (vs ws : List Version)
      → v.txn_id ≡ txn_id
      → w.txn_id ≡ txn_id
      → v.committed ≡ false
      → w.committed ≡ false
      → SameBut txn_id vs ws
      → SameBut txn_id (v ∷ vs) (w ∷ ws)
  same_new : (w : Version) → w.txn_id ≡ txn_id → w.committed ≡ false → SameBut txn_id [] (w ∷ [])

SameBut-refl : (txn_id : ℕ) (vs : List Version) → SameBut txn_id vs vs
SameBut-refl txn_id [] = same_nil
SameBut-refl txn_id (v ∷ vs) = same_cons v vs vs (SameBut-refl txn_id vs)

SameBut-append :
    (txn_id : ℕ) (w : Version) (vs : List Version)
    → w.txn_id ≡ txn_id
    → w.committed ≡ false
    → SameBut txn_id vs (vs ++ w ∷ [])
SameBut-append txn_id w [] h p = same_new w h p
SameBut-append txn_id w (v ∷ vs) h p =
    same_cons v vs (vs ++ w ∷ []) (SameBut-append txn_id w vs h p)

find_own-SameBut :
    (txn_id other : ℕ) (vs ws : List Version)
    → txn_id ≢ other
    → SameBut txn_id vs ws
    → find_own other ws ≡ find_own other vs
unfolding find_own
find_own-SameBut txn_id other _ _ ne same_nil = refl
find_own-SameBut txn_id other _ _ ne (same_cons v vs ws h) =
    ground (arith, find_own-SameBut txn_id other vs ws ne h)
find_own-SameBut txn_id other _ _ ne (same_pending v w vs ws hv hw pv pw h) =
    ground (arith, find_own-SameBut txn_id other vs ws ne h)
find_own-SameBut txn_id other _ _ ne (same_new w hw pw) = ground arith

newest_visible-SameBut :
    (txn_id : ℕ) (level : IsolationLevel) (start_ts : ℕ) (vs ws : List Version)
    → SameBut txn_id vs ws
    → (best : Option Version)
    → newest_visible level start_ts best ws ≡ newest_visible level start_ts best vs
unfolding newest_visible
newest_visible-SameBut txn_id level start_ts _ _ same_nil best = refl
newest_visible-SameBut txn_id level start_ts _ _ (same_cons v vs ws h) best =
    newest_visible-SameBut txn_id level start_ts vs ws h _
newest_visible-SameBut txn_id level start_ts _ _ (same_pending v w vs ws hv hw pv pw h) best =
    rw (pv, pw) (newest_visible-SameBut txn_id level start_ts vs ws h best)
newest_visible-SameBut txn_id level start_ts _ _ (same_new w hw pw) best = rw pw refl

SameBut-update_own :
    (txn_id : ℕ) (deleted : Bool) (value : Bytes) (seq : ℕ) (vs ws : List Version)
    → update_own txn_id deleted value seq vs ≡ some ws
    → SameBut txn_id vs ws
unfolding update_own
SameBut-update_own txn_id deleted value seq [] ws h = ground arith
SameBut-update_own txn_id deleted value seq (v ∷ vs) ws h =
    elim (Bool-cases (v.txn_id == txn_id && (if v.committed then false else true))) [
      | inl own ↦ subst (SameBut txn_id (v ∷ vs)) (ground arith) (
          same_pending v
            (record v { seq = seq; deleted = deleted; value = if deleted then [] else value }) vs vs
            (ground arith) (ground arith) (ground arith) (ground arith) (SameBut-refl txn_id vs))
      | inr skipped ↦ elim (Option-cases (update_own txn_id deleted value seq vs)) [
        | inl e ↦ absurd (ground arith)
        | inr (ws', e) ↦
            subst (SameBut txn_id (v ∷ vs)) (ground arith)
              (same_cons v vs ws' (SameBut-update_own txn_id deleted value seq vs ws' e))
      ]
    ]

-- What a reader of committed versions returns for two such lists.
read_chain-SameBut :
    (txn_id other : ℕ) (reader : Transaction) (vs ws : List Version)
    → txn_id ≢ other
    → reader.isolation ≢ read_uncommitted
    → SameBut txn_id vs ws
    → read_chain other reader ws ≡ read_chain other reader vs
unfolding read_chain
read_chain-SameBut txn_id other reader vs ws ne level h = ground (
  arith,
  find_own-SameBut txn_id other vs ws ne h,
  newest_visible-SameBut txn_id reader.isolation reader.start_ts vs ws h none,
)

SameBut-written_chain :
    (s : Store) (txn_id : ℕ) (deleted : Bool) (value : Bytes) (vs : List Version)
    (updated : Option (List Version))
    → update_own txn_id deleted value s.global_ts vs ≡ updated
    → SameBut txn_id vs (written_chain s txn_id deleted value vs updated)
SameBut-written_chain s txn_id deleted value vs none h =
    SameBut-append txn_id (pending_version s txn_id deleted value) vs refl refl
SameBut-written_chain s txn_id deleted value vs (some ws) h =
    SameBut-update_own txn_id deleted value s.global_ts vs ws h

-- Every chain after a write differs from the chain before it by pending versions of the writer.
SameBut-write_internal :
    (s : Store) (txn : Transaction) (txn_id : ℕ) (key key' : ℤ) (deleted : Bool) (value : Bytes)
    → SameBut txn_id
        (chain_of key' s.table)
        (chain_of key' (write_internal s txn txn_id key deleted value).table)
unfolding write_internal
SameBut-write_internal s txn txn_id key key' deleted value =
    let updated = update_own txn_id deleted value s.global_ts (chain_of key s.table) in
    rw (finish_write_chain s txn txn_id key deleted value key' updated)
      (elim (Bool-cases (eqb_ℤ key key')) [
        | inl e ↦ rw e (
            subst
              (λ k.
                SameBut txn_id (chain_of k s.table)
                  (written_chain s txn_id deleted value (chain_of key s.table) updated))
              ((eqb_ℤ_iff key key').0 e)
              (SameBut-written_chain s txn_id deleted value (chain_of key s.table) updated refl))
        | inr e ↦ rw e (SameBut-refl txn_id (chain_of key' s.table))
      ])

pub read_value-write_internal_other :
    (s : Store) (txn reader : Transaction) (txn_id other : ℕ) (key key' : ℤ) (deleted : Bool)
    (value : Bytes)
    → txn_id ≢ other
    → find_txn other s.txns ≡ some reader
    → reader.isolation ≢ read_uncommitted
    → read_value (write_internal s txn txn_id key deleted value) other key'
      ≡ read_value s other key'
unfolding write_internal
read_value-write_internal_other s txn reader txn_id other key key' deleted value ne found level =
    let updated = update_own txn_id deleted value s.global_ts (chain_of key s.table) in
    let s' = finish_write s txn txn_id key deleted value updated in
    read_value_lem s' other key' reader
      (finish_write_other_txn s txn txn_id key deleted value other updated ne ∙ found)
    ∙ ap some (
        read_chain-SameBut txn_id other reader (chain_of key' s.table) (chain_of key' s'.table) ne
          level (SameBut-write_internal s txn txn_id key key' deleted value))
    ∙ sym (read_value_lem s other key' reader found)

-- No dirty reads: a write of one transaction changes no read of another one that runs at
-- READ_COMMITTED, SNAPSHOT or SERIALIZABLE_SNAPSHOT, under any key.
pub read-write_other :
    (s : Store) (txn reader : Transaction) (txn_id other : ℕ) (key key' : ℤ) (value : Bytes)
    → find_txn txn_id s.txns ≡ some txn
    → txn_id ≢ other
    → find_txn other s.txns ≡ some reader
    → reader.isolation ≢ read_uncommitted
    → elim (write s txn_id key value) [ none ↦ none | some s' ↦ read_value s' other key' ]
      ≡ read_value s other key'
unfolding write
read-write_other s txn reader txn_id other key key' value h ne found level =
    rw h (
      read_value-write_internal_other s txn reader txn_id other key key' false value ne found level)
