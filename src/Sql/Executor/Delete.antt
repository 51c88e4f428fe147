-- ===== src/Sql/Executor/Delete.antt =====
-- `ExecuteDelete` of sql/executor.cpp.
pub mod Keys
pub mod Collected
pub mod Counted
use cpp_database_engine.Common.{
  ℕ, ◌+◌, Bool, true, false, Option, none, some, List, [], ◌∷◌, ◌==◌, if◌then◌else◌,
}
use cpp_database_engine.Common.Int.{ℤ, ltb_ℤ}
use cpp_database_engine.Common.Bytes.{Bytes}
use cpp_database_engine.Engine.{StorageEngine}
use cpp_database_engine.Sql.Error.{Result, ok, err, ◌>>=◌}
use cpp_database_engine.Sql.Value.{Predicate}
use cpp_database_engine.Sql.Keys.{encode_key, decode_row_key, decode_table_id}
use cpp_database_engine.Sql.Schema.{TableSchema}
use cpp_database_engine.Sql.Rows.{decode_row}
use cpp_database_engine.Sql.Planner.{point_lookup, Plan}
use cpp_database_engine.Sql.Executor.{matches_predicate, start_of, end_of}

-- The loop that collects `to_delete`, over the entries that the iterator yields.
unfoldable pub collect_keys : TableSchema → ℤ → Predicate → List (ℤ × Bytes) → Result (List ℤ)
collect_keys schema hi residual [] = ok []
collect_keys schema hi residual ((key, payload) ∷ entries) =
    let rest = collect_keys schema hi residual entries in
    if decode_table_id key == schema.table_id
    then (if ltb_ℤ hi (decode_row_key key) then ok [] else do
      row ← decode_row schema (decode_row_key key) payload
      passed ← matches_predicate schema row residual
      keys ← rest
      ok (if passed then key ∷ keys else keys))
    else ok []

module _ (engine : StorageEngine) where
  open engine use {State, get, scan, delete}

  -- The loop over `to_delete`, with the count of the keys that were found.
  unfoldable pub delete_keys : List ℤ → State → State × ℕ
  delete_keys [] s = (s, 0)
  delete_keys (key ∷ keys) s =
      let (s', found) = delete s key in
      let (s'', deleted) = delete_keys keys s' in (s'', if found then deleted + 1 else deleted)

  unfoldable pub delete_point : TableSchema → ℤ → Predicate → State → Result (State × ℕ)
  delete_point schema key residual s = elim (get s (encode_key schema.table_id key)) [
    | none ↦ ok (s, 0)
    | some payload ↦ do
      row ← decode_row schema key payload
      passed ← matches_predicate schema row residual
      ok (
          if passed
          then (let (s', found) = delete s (encode_key schema.table_id key) in
              (s', if found then 1 else 0))
          else (s, 0))
  ]

  unfoldable pub execute_delete : TableSchema → Plan → State → Result (State × ℕ)
  execute_delete schema plan s = elim plan.access_path [
    | point_lookup ↦ delete_point schema plan.point_key plan.residual s
    | _ ↦
        collect_keys schema (end_of plan) plan.residual
          (scan s (encode_key schema.table_id (start_of plan)))
        >>= λ keys. ok (delete_keys keys s)
  ]
