-- ===== src/Sql/Executor.antt =====
-- sql/executor.h and sql/executor.cpp: running a plan against a storage engine.
pub mod Typing
pub mod Select
pub mod Point
pub mod Correct
pub mod Plans
pub mod Alias
pub mod Delete
use Prim.Native.Nat.{Ordering}
use cpp_database_engine.Common.{
  ℕ, zero, suc, ◌+◌, Bool, true, false, Option, none, some, List, [], ◌∷◌, get_elem?, ◌==◌,
  if◌then◌else◌,
}
use cpp_database_engine.Common.Int.{ℤ, pos, ltb_ℤ, int64_max}
use cpp_database_engine.Common.Bytes.{Bytes}
use cpp_database_engine.Engine.{StorageEngine}
use cpp_database_engine.Sql.Error.{Result, ok, err, ◌>>=◌, bad_index}
use cpp_database_engine.Sql.Value.{
  Value, compare_values, CompareOp, eq_op, lt_op, le_op, gt_op, ge_op, Comparison, Predicate,
}
use cpp_database_engine.Sql.Keys.{encode_key, decode_row_key, decode_table_id}
use cpp_database_engine.Sql.Schema.{TableSchema, column_index}
use cpp_database_engine.Sql.Rows.{decode_row}
use cpp_database_engine.Sql.Planner.{AccessPathType, point_lookup, range_scan, full_scan, Plan}

abbrev pub Row : Type 0
Row = List Value

unfoldable pub compare_op_matches : CompareOp → Ordering → Bool
compare_op_matches eq_op cmp = elim cmp [ Ordering.eq ↦ true | _ ↦ false ]
compare_op_matches lt_op cmp = elim cmp [ Ordering.lt ↦ true | _ ↦ false ]
compare_op_matches le_op cmp = elim cmp [ Ordering.gt ↦ false | _ ↦ true ]
compare_op_matches gt_op cmp = elim cmp [ Ordering.gt ↦ true | _ ↦ false ]
compare_op_matches ge_op cmp = elim cmp [ Ordering.lt ↦ false | _ ↦ true ]

abbrev pub cell_at : Row → ℕ → Result Value
cell_at row i = elim (get_elem? row i) [ none ↦ err bad_index | some v ↦ ok v ]

-- One round of the loop of `MatchesPredicate`.
unfoldable pub matches_comparison : TableSchema → Row → Comparison → Result Bool
matches_comparison schema row cmp = elim (column_index schema cmp.column) [
  | none ↦ ok false
  | some idx ↦ do
    v ← cell_at row idx
    order ← compare_values v cmp.literal
    ok (compare_op_matches cmp.op order)
]

unfoldable pub matches_predicate : TableSchema → Row → Predicate → Result Bool
matches_predicate schema row [] = ok true
matches_predicate schema row (cmp ∷ rest) = do
  passed ← matches_comparison schema row cmp
  if passed then matches_predicate schema row rest else ok false

-- The loop of `ExecuteFetch` over the entries that the iterator yields.
unfoldable pub fetch_loop : TableSchema → ℤ → Predicate → List (ℤ × Bytes) → Result (List Row)
fetch_loop schema hi residual [] = ok []
fetch_loop schema hi residual ((key, payload) ∷ entries) =
    let rest = fetch_loop schema hi residual entries in
    if decode_table_id key == schema.table_id
    then (if ltb_ℤ hi (decode_row_key key) then ok [] else do
      row ← decode_row schema (decode_row_key key) payload
      passed ← matches_predicate schema row residual
      rows ← rest
      ok (if passed then row ∷ rows else rows))
    else ok []

abbrev pub start_of : Plan → ℤ
start_of plan = elim plan.access_path [ range_scan ↦ plan.range_lo | _ ↦ pos 0 ]

abbrev pub end_of : Plan → ℤ
end_of plan = elim plan.access_path [ range_scan ↦ plan.range_hi | _ ↦ int64_max ]

module _ (engine : StorageEngine) where
  open engine use {State, get, scan}

  unfoldable pub fetch_point : TableSchema → ℤ → Predicate → State → Result (List Row)
  fetch_point schema key residual s = elim (get s (encode_key schema.table_id key)) [
    | none ↦ ok []
    | some payload ↦ do
      row ← decode_row schema key payload
      passed ← matches_predicate schema row residual
      ok (if passed then row ∷ [] else [])
  ]

  unfoldable pub execute_fetch : TableSchema → Plan → State → Result (List Row)
  execute_fetch schema plan s = elim plan.access_path [
    | point_lookup ↦ fetch_point schema plan.point_key plan.residual s
    | _ ↦
        fetch_loop schema (end_of plan) plan.residual
          (scan s (encode_key schema.table_id (start_of plan)))
  ]
