-- ===== src/Sql/Executor/Alias.antt =====
-- A point lookup with a key outside the range of row keys (sql/planner.cpp, sql/executor.cpp).
use cpp_database_engine.Common.{
  ℕ, ◌+◌, ◌*◌, ◌%◌, ◌^◌, ◌<◌, ◌≡◌, sym, ap, ◌∙◌, some, true, [], ◌∷◌, arith,
}
use cpp_database_engine.Common.Int.{ℤ, pos}
use cpp_database_engine.Common.Bytes.{Bytes}
use cpp_database_engine.Common.SortedMap.{lookup}
use cpp_database_engine.Engine.{StorageEngine}
use cpp_database_engine.Sql.Error.{ok}
use cpp_database_engine.Sql.Keys.{word_of, int_of, encode_key, encode_key_arith}
use cpp_database_engine.Sql.Schema.{TableSchema}
use cpp_database_engine.Sql.Rows.{decode_row}
use cpp_database_engine.Sql.Planner.{Plan, point_lookup}
use cpp_database_engine.Sql.Executor.{Row, matches_predicate, fetch_point, execute_fetch}

-- Keys that agree in their 48 low bits are one key of the engine.
pub encode_key-alias :
    (t : ℕ) (pk : ℤ) (n : ℕ)
    → t < 2 ^ 16
    → word_of pk % 2 ^ 48 ≡ n
    → encode_key t pk ≡ encode_key t (pos n)
encode_key-alias t pk n h e =
    encode_key_arith t pk h
    ∙ ap (λ (w : ℕ). int_of (t * 2 ^ 48 + w)) (same pk n e)
    ∙ sym (encode_key_arith t (pos n) h)
  where
    same :
        (pk : ℤ) (n : ℕ) → word_of pk % 2 ^ 48 ≡ n → word_of pk % 2 ^ 48 ≡ word_of (pos n) % 2 ^ 48
    same pk n e = unfold word_of in ground arith

-- A point lookup of any 64-bit key returns the row that is stored under the key's 48 low bits, with
-- the key of the query in the place of the row's own: the equation of the clause is in no residual,
-- so that nothing rejects the row. The row stored there passes the residual of the plan.
pub execute_fetch-alias :
    (engine : StorageEngine) (schema : TableSchema) (plan : Plan) (s : engine.State) (n : ℕ)
    (payload : Bytes) (row : Row)
    → plan.access_path ≡ point_lookup
    → schema.table_id < 2 ^ 16
    → word_of plan.point_key % 2 ^ 48 ≡ n
    → lookup (encode_key schema.table_id (pos n)) (engine.view s) ≡ some payload
    → decode_row schema plan.point_key payload ≡ ok row
    → matches_predicate schema row plan.residual ≡ ok true
    → execute_fetch engine schema plan s ≡ ok (row ∷ [])
unfolding execute_fetch fetch_point
execute_fetch-alias engine schema plan s n payload row path small low stored read passes =
    let found : lookup (encode_key schema.table_id plan.point_key) (engine.view s) ≡ some payload =
      ap (λ (key : ℤ). lookup key (engine.view s))
        (encode_key-alias schema.table_id plan.point_key n small low)
      ∙ stored in
    rw path (
      rw (
        engine.get-view s (encode_key schema.table_id plan.point_key),
        found,
        read,
        passes,
        fetch_point,
      ))
