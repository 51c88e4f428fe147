-- ===== src/Mvcc/Tables.antt =====
-- Lemmas on the tables of mvcc/mvcc_store.cpp: what is found after an entry is put or erased.
use cpp_database_engine.Common.{
  ◌≡◌, refl, ◌≢◌, ℕ, none, some, List, [], ◌∷◌, ◌==◌, if◌then◌else◌, arith,
}
use cpp_database_engine.Common.Int.{ℤ, eqb_ℤ}
use cpp_database_engine.Mvcc.{
  Version, Transaction, find_txn, put_txn, erase_txn, find_chain, chain_of, put_chain,
}

pub find_txn-put_txn :
    (i j : ℕ) (t : Transaction) (txns : List (ℕ × Transaction))
    → find_txn j (put_txn i t txns) ≡ (if i == j then some t else find_txn j txns)
unfolding find_txn put_txn
find_txn-put_txn i j t [] = refl
find_txn-put_txn i j t ((k, u) ∷ txns) = ground (arith, find_txn-put_txn i j t txns)

pub find_txn-put_txn_self :
    (i : ℕ) (t : Transaction) (txns : List (ℕ × Transaction))
    → find_txn i (put_txn i t txns) ≡ some t
find_txn-put_txn_self i t txns = ground (arith, find_txn-put_txn i i t txns)

pub find_txn-put_txn_ne :
    (i j : ℕ) (t : Transaction) (txns : List (ℕ × Transaction))
    → i ≢ j
    → find_txn j (put_txn i t txns) ≡ find_txn j txns
find_txn-put_txn_ne i j t txns ne = ground (arith, find_txn-put_txn i j t txns)

pub find_txn-erase_txn :
    (i j : ℕ) (txns : List (ℕ × Transaction))
    → find_txn j (erase_txn i txns) ≡ (if i == j then none else find_txn j txns)
unfolding find_txn erase_txn
find_txn-erase_txn i j [] = ground arith
find_txn-erase_txn i j ((k, u) ∷ txns) = ground (arith, find_txn-erase_txn i j txns)

pub find_chain-put_chain :
    (i j : ℤ) (c : List Version) (table : List (ℤ × List Version))
    → find_chain j (put_chain i c table) ≡ (if eqb_ℤ i j then some c else find_chain j table)
unfolding find_chain put_chain
find_chain-put_chain i j c [] = refl
find_chain-put_chain i j c ((k, d) ∷ table) = ground (arith, find_chain-put_chain i j c table)

pub chain_of-put_chain :
    (i j : ℤ) (c : List Version) (table : List (ℤ × List Version))
    → chain_of j (put_chain i c table) ≡ (if eqb_ℤ i j then c else chain_of j table)
chain_of-put_chain i j c table = ground (arith, find_chain-put_chain i j c table)
