-- ===== src/Sql/Executor/Select.antt =====
-- The loop of `ExecuteFetch` against the meaning of a query: every row of the table, in key order,
-- that satisfies the WHERE clause.
use cpp_database_engine.Common.{
  ℕ, ◌%◌, ◌^◌, ◌<◌, ◌≡◌, ◌≢◌, refl, sym, ◌∙◌, Bool, true, false, List, [], ◌∷◌, arith, ◌==◌, ==_iff,
  if◌then◌else◌, Bool-cases, inl, inr,
}
use cpp_database_engine.Common.Int.{ℤ, pos, ◌<ℤ◌, ltb_ℤ, IsInt64}
use cpp_database_engine.Common.Bytes.{Bytes}
use cpp_database_engine.Common.SortedMap.{
  from, Above, Ascending, AllKeys, from-Ascending, from-AllKeys,
}
use cpp_database_engine.Sql.Error.{Result, ok, err, ◌>>=◌}
use cpp_database_engine.Sql.Value.{Predicate}
use cpp_database_engine.Sql.Keys.{
  word_of, encode_key, decode_row_key, decode_table_id, decode_row_key_arith,
}
use cpp_database_engine.Sql.Keys.Order.{row_key_of_lt, other_table_of_lt, row_bits_lt}
use cpp_database_engine.Sql.Schema.{TableSchema}
use cpp_database_engine.Sql.Rows.{decode_row}
use cpp_database_engine.Sql.Executor.{Row, matches_predicate, fetch_loop}

-- The rows that a query asks for, over the whole content of the engine.
abbrev pub matching : TableSchema → Predicate → List (ℤ × Bytes) → Result (List Row)
matching schema where' [] = ok []
matching schema where' ((key, payload) ∷ entries) =
    let rest = matching schema where' entries in
    if decode_table_id key == schema.table_id
    then (do
      row ← decode_row schema (decode_row_key key) payload
      passed ← matches_predicate schema row where'
      rows ← rest
      ok (if passed then row ∷ rows else rows))
    else rest

-- The table's entries hold rows that can be read.
abbrev pub Readable : TableSchema → List (ℤ × Bytes) → Type 0
Readable schema [] = Unit
Readable schema ((key, payload) ∷ entries) =
    (decode_table_id key ≡ schema.table_id
      → (row : Row) × (decode_row schema (decode_row_key key) payload ≡ ok row))
    × Readable schema entries

from-Readable :
    (schema : TableSchema) (k : ℤ) (entries : List (ℤ × Bytes))
    → Readable schema entries
    → Readable schema (from k entries)
from-Readable schema k [] r = tt
from-Readable schema k ((j, w) ∷ entries) r = elim (Bool-cases (ltb_ℤ j k)) [
  | inl before ↦ rw before (from-Readable schema k entries r.1)
  | inr after ↦ rw after r
]

module _ (schema : TableSchema) (where' : Predicate) where
  -- The entry adds no row to the result.
  abbrev pub Skips : ℤ → Bytes → Type 0
  Skips key payload =
      decode_table_id key ≡ schema.table_id
      → (row : Row) × (decode_row schema (decode_row_key key) payload ≡ ok row)
        × (matches_predicate schema row where' ≡ ok false)

  abbrev pub AllSkip : List (ℤ × Bytes) → Type 0
  AllSkip [] = Unit
  AllSkip ((key, payload) ∷ entries) = Skips key payload × AllSkip entries

  result_of_ok : (r : Result (List Row)) → (do rows ← r; ok rows) ≡ r
  result_of_ok (ok rows) = refl
  result_of_ok (err e) = refl

  pub matching_skip :
      (key : ℤ) (payload : Bytes) (entries : List (ℤ × Bytes))
      → Skips key payload
      → matching schema where' ((key, payload) ∷ entries) ≡ matching schema where' entries
  matching_skip key payload entries skips =
      elim (Bool-cases (decode_table_id key == schema.table_id)) [
        | inl here ↦
            let (row, read, failed) =
              skips ((==_iff (decode_table_id key) schema.table_id).0 here) in
            rw (here, read, failed) (result_of_ok (matching schema where' entries))
        | inr other ↦ rw other
      ]

  pub matching-AllSkip :
      (entries : List (ℤ × Bytes)) → AllSkip entries → matching schema where' entries ≡ ok []
  matching-AllSkip [] h = refl
  matching-AllSkip ((key, payload) ∷ entries) h =
      matching_skip key payload entries h.0 ∙ matching-AllSkip entries h.1

-- Rows outside an interval of row keys fail the clause, and no row of the table faults.
pub record Covers (schema : TableSchema) (where' : Predicate) (lo : ℕ) (hi : ℤ) : Type 0 where
  pub table_id-lt : schema.table_id < 2 ^ 16
  pub lo-lt : lo < 2 ^ 48
  pub total :
      (key : ℤ) (payload : Bytes) (row : Row)
      → decode_row schema (decode_row_key key) payload ≡ ok row
      → (b : Bool) × (matches_predicate schema row where' ≡ ok b)
  pub below :
      (key : ℤ) (payload : Bytes) (row : Row)
      → decode_row schema (decode_row_key key) payload ≡ ok row
      → word_of key % 2 ^ 48 < lo
      → matches_predicate schema row where' ≡ ok true
      → ⊥
  pub above :
      (key : ℤ) (payload : Bytes) (row : Row)
      → decode_row schema (decode_row_key key) payload ≡ ok row
      → ltb_ℤ hi (decode_row_key key) ≡ true
      → matches_predicate schema row where' ≡ ok true
      → ⊥

module _ (schema : TableSchema) (where' : Predicate) (lo : ℕ) (hi : ℤ)
    (c : Covers schema where' lo hi) where
  abbrev pub start : ℤ
  start = encode_key schema.table_id (pos lo)

  not_true :
      (row : Row)
      → ((b : Bool) × (matches_predicate schema row where' ≡ ok b))
      → (matches_predicate schema row where' ≡ ok true → ⊥)
      → matches_predicate schema row where' ≡ ok false
  not_true row (true, e) h = absurd (h e)
  not_true row (false, e) h = e

  -- What stands before the start of the scan adds no row.
  pub matching-from :
      (entries : List (ℤ × Bytes))
      → AllKeys IsInt64 entries
      → Readable schema entries
      → matching schema where' (from start entries) ≡ matching schema where' entries
  matching-from [] i r = refl
  matching-from ((key, payload) ∷ entries) i r = elim (Bool-cases (ltb_ℤ key start)) [
    | inl before ↦ rw before (
        matching-from entries i.1 r.1
        ∙ sym (
            matching_skip schema where' key payload entries (λ here.
              let (row, read) = r.0 here in
              (
                row,
                read,
                not_true row (c.total key payload row read) (
                    c.below key payload row read (
                      row_key_of_lt schema.table_id lo key c.table_id-lt c.lo-lt i.0 here
                        (ground arith))),
              ))))
    | inr after ↦ rw after
  ]

  -- An entry of the table that is read past the end of the range adds no row.
  past_end :
      (key : ℤ) (payload : Bytes)
      → (decode_table_id key ≡ schema.table_id
          → (row : Row) × (decode_row schema (decode_row_key key) payload ≡ ok row))
      → ltb_ℤ hi (decode_row_key key) ≡ true
      → Skips schema where' key payload
  past_end key payload r h here =
      let (row, read) = r here in
      (row, read, not_true row (c.total key payload row read) (c.above key payload row read h))

  -- Behind a key of another table there are only other tables' keys.
  other_tables :
      (key : ℤ) (entries : List (ℤ × Bytes))
      → IsInt64 key
      → ¬ (key <ℤ start)
      → decode_table_id key ≢ schema.table_id
      → Above key entries
      → AllKeys IsInt64 entries
      → AllSkip schema where' entries
  other_tables key [] ik s other a i = tt
  other_tables key ((j, payload) ∷ entries) ik s other a i = (
    λ here.
        absurd (
          other_table_of_lt schema.table_id lo key j c.table_id-lt c.lo-lt ik i.0 s other a.0 here),
    other_tables key entries ik s other a.1 i.1,
  )

  -- Behind an entry past the end of the range all entries of the table are past it.
  rest_past_end :
      (key : ℤ) (entries : List (ℤ × Bytes))
      → IsInt64 key
      → decode_table_id key ≡ schema.table_id
      → ltb_ℤ hi (decode_row_key key) ≡ true
      → Above key entries
      → AllKeys IsInt64 entries
      → Readable schema entries
      → AllSkip schema where' entries
  rest_past_end key [] ik here h a i r = tt
  rest_past_end key ((j, payload) ∷ entries) ik here h a i r = (
    λ here'. past_end j payload r.0 (later here') here',
    rest_past_end key entries ik here h a.1 i.1 r.1,
  )
    where
      later : decode_table_id j ≡ schema.table_id → ltb_ℤ hi (decode_row_key j) ≡ true
      later here' =
          let more = row_bits_lt schema.table_id key j ik i.0 here here' a.0 in
          ground (arith, decode_row_key_arith key, decode_row_key_arith j)

  pub fetch_loop-matching :
      (entries : List (ℤ × Bytes))
      → Ascending entries
      → AllKeys IsInt64 entries
      → Readable schema entries
      → AllKeys (λ key. ¬ (key <ℤ start)) entries
      → fetch_loop schema hi where' entries ≡ matching schema where' entries
  unfolding fetch_loop
  fetch_loop-matching [] s i r a = refl
  fetch_loop-matching ((key, payload) ∷ entries) s i r a =
      elim (Bool-cases (decode_table_id key == schema.table_id)) [
        | inr other ↦
            let ne : decode_table_id key ≢ schema.table_id = ground arith in
            rw other (
              sym (
                matching-AllSkip schema where' entries
                  (other_tables key entries i.0 a.0 ne s.0 i.1)))
        | inl here ↦
            let e : decode_table_id key ≡ schema.table_id =
              (==_iff (decode_table_id key) schema.table_id).0 here in
            elim (Bool-cases (ltb_ℤ hi (decode_row_key key))) [
              | inl past ↦
                  rw (here, past)
                    (sym (
                      rw here at (
                        matching_skip schema where' key payload entries
                          (past_end key payload r.0 past)
                        ∙ matching-AllSkip schema where' entries
                            (rest_past_end key entries i.0 e past s.0 i.1 r.1))))
              | inr inside ↦ rw (here, inside, fetch_loop-matching entries s.1 i.1 r.1 a.1)
            ]
      ]

  from-above-start :
      (entries : List (ℤ × Bytes))
      → Ascending entries
      → AllKeys (λ key. ¬ (key <ℤ start)) (from start entries)
  from-above-start [] s = tt
  from-above-start ((key, payload) ∷ entries) s = elim (Bool-cases (ltb_ℤ key start)) [
    | inl before ↦ rw before (from-above-start entries s.1)
    | inr after ↦ rw after (ground arith, above_all key entries (ground arith) s.0)
  ]
    where
      above_all :
          (key : ℤ) (entries : List (ℤ × Bytes))
          → ¬ (key <ℤ start)
          → Above key entries
          → AllKeys (λ key. ¬ (key <ℤ start)) entries
      above_all key [] h a = tt
      above_all key ((j, payload) ∷ entries) h a = (omega arith, above_all key entries h a.1)

  -- The scan from the start of the range finds exactly the rows that the query asks for.
  pub fetch_loop-from :
      (entries : List (ℤ × Bytes))
      → Ascending entries
      → AllKeys IsInt64 entries
      → Readable schema entries
      → fetch_loop schema hi where' (from start entries) ≡ matching schema where' entries
  fetch_loop-from entries s i r =
      fetch_loop-matching (from start entries) (from-Ascending start entries s)
        (from-AllKeys IsInt64 start entries i) (from-Readable schema start entries r)
        (from-above-start entries s)
      ∙ matching-from entries i r
