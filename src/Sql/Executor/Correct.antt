-- ===== src/Sql/Executor/Correct.antt =====
-- Whatever access path `PlanQuery` chooses, `ExecuteFetch` returns the rows that the query asks for.
use cpp_database_engine.Common.{
  ℕ, ◌^◌, ◌<◌, ◌≡◌, ◌≢◌, refl, sym, ap, ◌∙◌, Bool, true, false, none, some, List, [], ◌∷◌, ◌++◌,
  arith, ==_iff, if◌then◌else◌, Bool-cases, inl, inr,
}
use cpp_database_engine.Common.Int.{ℤ, pos, ◌<ℤ◌, eqb_ℤ, eqb_ℤ_iff, IsInt64}
use cpp_database_engine.Common.Bytes.{Bytes, eqb_bytes}
use cpp_database_engine.Common.SortedMap.{lookup, Above, Ascending, AllKeys}
use cpp_database_engine.Sql.Error.{Result, ok, ◌>>=◌}
use cpp_database_engine.Sql.Value.{
  Comparison, Predicate, CompareOp, eq_op, lt_op, le_op, gt_op, ge_op, get_int,
}
use cpp_database_engine.Sql.Keys.{encode_key, decode_row_key, decode_table_id}
use cpp_database_engine.Sql.Keys.Order.{decode-encode_key, encode_key-decode}
use cpp_database_engine.Sql.Schema.{TableSchema, HasKey}
use cpp_database_engine.Sql.Rows.{decode_row}
use cpp_database_engine.Sql.Planner.{validate}
use cpp_database_engine.Sql.Planner.Range.{order_of, key_comparison}
use cpp_database_engine.Sql.Executor.{
  Row, compare_op_matches, matches_comparison, matches_predicate,
}
use cpp_database_engine.Sql.Executor.Typing.{decode_row-Fits, matches_predicate-total}
use cpp_database_engine.Sql.Executor.Select.{
  matching, Readable, Skips, AllSkip, matching_skip, matching-AllSkip,
}
use cpp_database_engine.Sql.Executor.Point.{matches-without, matches-failing}

false_of_not : (b : Bool) → (b ≡ true → ⊥) → b ≡ false
false_of_not true h = absurd (h refl)
false_of_not false h = refl

ne_of_lt : (a b : ℤ) → a <ℤ b → b ≢ a
ne_of_lt a b h = λ e. absurd (omega (arith, rw e at h))

eq_order :
    (op : CompareOp) (p v : ℤ) → op ≡ eq_op → compare_op_matches op (order_of p v) ≡ eqb_ℤ p v
unfolding compare_op_matches
eq_order eq_op p v h = ground arith
eq_order lt_op p v h = cc
eq_order le_op p v h = cc
eq_order gt_op p v h = cc
eq_order ge_op p v h = cc

-- The table `schema` and a validated clause.
module _ (schema : TableSchema) (k : HasKey schema) (where' : Predicate)
    (small : schema.table_id < 2 ^ 16) (valid : validate schema where' ≡ ok tt) where
  pub total :
      (pk : ℤ) (payload : Bytes) (row : Row)
      → decode_row schema pk payload ≡ ok row
      → (b : Bool) × (matches_predicate schema row where' ≡ ok b)
  total pk payload row read =
      let (cells, shape, fits) = decode_row-Fits schema k pk payload row read in
      matches_predicate-total schema row where' fits valid

  -- What a point lookup of row `n` sees of the engine's content.
  module _ (n : ℕ) (fits : n < 2 ^ 48) (residual : Predicate) (cmp : Comparison)
      (before after : Predicate) (split : where' ≡ before ++ cmp ∷ after)
      (rest : residual ≡ before ++ after) (named : eqb_bytes cmp.column k.key.name ≡ true)
      (equates : cmp.op ≡ eq_op) (literal : get_int cmp.literal ≡ ok (pos n)) where
    abbrev point_rows : Bytes → Result (List Row)
    point_rows payload = do
      row ← decode_row schema (pos n) payload
      passed ← matches_predicate schema row residual
      ok (if passed then row ∷ [] else [])

    abbrev key : ℤ
    key = encode_key schema.table_id (pos n)

    compared :
        (p : ℤ) (payload : Bytes) (row : Row)
        → decode_row schema p payload ≡ ok row
        → matches_comparison schema row cmp ≡ ok (eqb_ℤ p (pos n))
    compared p payload row read =
        let (cells, shape, typed) = decode_row-Fits schema k p payload row read in
        rw (shape, key_comparison schema k p (pos n) cells cmp named literal)
          (ap (λ (b : Bool). ok b) (eq_order cmp.op p (pos n) equates))

    not_ok_true :
        (row : Row)
        → ((b : Bool) × (matches_predicate schema row where' ≡ ok b))
        → (matches_predicate schema row where' ≡ ok true → ⊥)
        → matches_predicate schema row where' ≡ ok false
    not_ok_true row (true, e) h = absurd (h e)
    not_ok_true row (false, e) h = e

    elsewhere :
        (j : ℤ) (payload : Bytes)
        → IsInt64 j
        → (decode_table_id j ≡ schema.table_id
            → (row : Row) × (decode_row schema (decode_row_key j) payload ≡ ok row))
        → j ≢ key
        → Skips schema where' j payload
    elsewhere j payload i r ne here =
        let (row, read) = r here in
        let other : decode_row_key j ≢ pos n =
          λ e. ne (sym (encode_key-decode j i) ∙ rw (here, e)) in
        let unequal : eqb_ℤ (decode_row_key j) (pos n) ≡ false =
          false_of_not (eqb_ℤ (decode_row_key j) (pos n))
            (λ e. other ((eqb_ℤ_iff (decode_row_key j) (pos n)).0 e)) in
        let fails : matches_comparison schema row cmp ≡ ok false =
          compared (decode_row_key j) payload row read ∙ ap (λ (b : Bool). ok b) unequal in
        (
          row,
          read,
          not_ok_true row (total (decode_row_key j) payload row read)
              (λ e. matches-failing schema row cmp before after fails (rw split at e)),
        )

    Above-skip :
        (entries : List (ℤ × Bytes))
        → Above key entries
        → AllKeys IsInt64 entries
        → Readable schema entries
        → AllSkip schema where' entries
    Above-skip [] a i r = tt
    Above-skip ((j, payload) ∷ entries) a i r =
        (elsewhere j payload i.0 r.0 (ne_of_lt key j a.0), Above-skip entries a.1 i.1 r.1)

    -- The residual decides as the whole clause does.
    without :
        (row : Row) (payload : Bytes)
        → decode_row schema (pos n) payload ≡ ok row
        → matches_predicate schema row residual ≡ matches_predicate schema row where'
    without row payload read =
        let same : eqb_ℤ (pos n) (pos n) ≡ true = ground arith in
        rw (rest, split)
          (sym (
            matches-without schema row cmp before after
              (compared (pos n) payload row read ∙ ap (λ (b : Bool). ok b) same)))

    pub lookup-matching :
        (entries : List (ℤ × Bytes))
        → Ascending entries
        → AllKeys IsInt64 entries
        → Readable schema entries
        → (elim (lookup key entries) [ none ↦ ok [] | some payload ↦ point_rows payload ])
          ≡ matching schema where' entries
    lookup-matching [] s i r = refl
    lookup-matching ((j, payload) ∷ entries) s i r = elim (Bool-cases (eqb_ℤ j key)) [
      | inr other ↦ rw other (
          lookup-matching entries s.1 i.1 r.1
          ∙ sym (
              matching_skip schema where' j payload entries
                (elsewhere j payload i.0 r.0 (ground (arith, eqb_ℤ_iff j key)))))
      | inl here ↦
          let e : j ≡ key = (eqb_ℤ_iff j key).0 here in
          let parts = decode-encode_key schema.table_id n small fits in
          let table : decode_table_id j ≡ schema.table_id =
            ap (λ (t : ℤ). decode_table_id t) e ∙ parts.0 in
          let row_key : decode_row_key j ≡ pos n = ap (λ (t : ℤ). decode_row_key t) e ∙ parts.1 in
          let (row, read) = r.0 table in
          let read' : decode_row schema (pos n) payload ≡ ok row = rw row_key at read in
          let (b, m) = total (pos n) payload row read' in
          let none_after : matching schema where' entries ≡ ok [] =
            matching-AllSkip schema where' entries (Above-skip entries (rw e at s.0) i.1 r.1) in
          rw (
            here,
            read',
            (==_iff (decode_table_id j) schema.table_id).1 table,
            read,
            m,
            without row payload read' ∙ m,
            none_after,
          )
    ]
