-- ===== src/Sql/Executor/Delete/Counted.antt =====
-- `ExecuteDelete` (sql/executor.cpp) removes, and counts, the rows that `ExecuteFetch` returns.
use cpp_database_engine.Common.{
  ℕ, suc, ◌≡◌, refl, sym, ap, ◌⊎◌, ◌∙◌, Bool, true, false, Option, none, some, List, [], ◌∷◌, map,
  inl, inr, arith, if◌then◌else◌, All, length,
}
use cpp_database_engine.Common.Int.{pos, int64_max, ℤ, ◌<ℤ◌, IsInt64}
use cpp_database_engine.Common.Bytes.{Bytes}
use cpp_database_engine.Common.SortedMap.{lookup, erase, from, from-Ascending, from-AllKeys}
use cpp_database_engine.Engine.{StorageEngine}
use cpp_database_engine.Sql.Error.{Result, ok, err, ◌>>=◌}
use cpp_database_engine.Sql.Value.{Predicate}
use cpp_database_engine.Sql.Planner.{AccessPathType, Plan, point_lookup, range_scan, full_scan}
use cpp_database_engine.Sql.Keys.{encode_key}
use cpp_database_engine.Sql.Schema.{TableSchema}
use cpp_database_engine.Sql.Rows.{decode_row}
use cpp_database_engine.Sql.Executor.{
  Row, matches_predicate, fetch_loop, fetch_point, execute_fetch,
}
use cpp_database_engine.Sql.Executor.Delete.{
  collect_keys, delete_keys, delete_point, execute_delete,
}
use cpp_database_engine.Sql.Executor.Delete.Keys.{
  key_of, key_of-decode_row, collect_keys-fetch_loop,
}
use cpp_database_engine.Sql.Executor.Delete.Collected.{
  erase_all, HasKey, StrictKeys, All-map, HasKey-from, HasKey-erase, found_of_HasKey, Picked,
  collect_keys-Picked,
}

erase_others :
    (k : ℤ) (m : List (ℤ × Bytes)) (keys : List ℤ)
    → All (λ j. k <ℤ j) keys
    → All (HasKey m) keys
    → All (HasKey (erase k m)) keys
erase_others k m [] above there = tt
erase_others k m (j ∷ keys) (lt, above) (here, there) =
    (HasKey-erase k j m lt here, erase_others k m keys above there)

Picked-from :
    (k : ℤ) (m : List (ℤ × Bytes)) (keys : Result (List ℤ)) → Picked (from k m) keys → Picked m keys
Picked-from k m (err e) picked = tt
Picked-from k m (ok keys) (there, strict) =
    (All-map keys (λ j h. HasKey-from k j m h) there, strict)

path_cases :
    (path : AccessPathType) → (path ≡ point_lookup) ⊎ (path ≡ range_scan) ⊎ (path ≡ full_scan)
path_cases point_lookup = inl refl
path_cases range_scan = inr (inl refl)
path_cases full_scan = inr (inr refl)

module _ (engine : StorageEngine) where
  open engine use {
    State, view, view_keys, view_ascending, get, get-view, scan, scan-view, delete, delete-view,
    delete-found,
  }

  -- Deleting distinct keys that are there removes their entries, and counts them.
  delete_keys-view :
      (keys : List ℤ) (s : State)
      → All (HasKey (view s)) keys
      → StrictKeys keys
      → (view (delete_keys engine keys s).0 ≡ erase_all keys (view s))
        × ((delete_keys engine keys s).1 ≡ length keys)
  unfolding delete_keys
  delete_keys-view [] s there strict = (refl, refl)
  delete_keys-view (k ∷ keys) s (here, there) (above, strict) =
      let gone = delete-view s k in
      let there' : All (HasKey (view (delete s k).0)) keys =
        rw gone (erase_others k (view s) keys above there) in
      let (content, count) = delete_keys-view keys (delete s k).0 there' strict in
      let hit : (delete s k).1 ≡ true = delete-found s k ∙ found_of_HasKey k (view s) here in
      (content ∙ ap (erase_all keys) gone, rw (hit, count) (omega arith))

  -- What is left in the engine, and the count.
  abbrev pub after : Result (State × ℕ) → Result (List (ℤ × Bytes) × ℕ)
  after (err e) = err e
  after (ok (s, n)) = ok (view s, n)

  -- What a SELECT of the same rows says should be left, and the count.
  abbrev pub expected :
      TableSchema → List (ℤ × Bytes) → Result (List Row) → Result (List (ℤ × Bytes) × ℕ)
  expected schema m (err e) = err e
  expected schema m (ok rows) = ok (erase_all (map (key_of schema) rows) m, length rows)

  length-map :
      (schema : TableSchema) (rows : List Row) → length (map (key_of schema) rows) ≡ length rows
  length-map schema [] = refl
  length-map schema (row ∷ rows) = ap suc (length-map schema rows)

  delete_collected :
      (schema : TableSchema) (s : State) (rows : Result (List Row)) (keys : Result (List ℤ))
      → keys ≡ (rows >>= λ rs. ok (map (key_of schema) rs))
      → Picked (view s) keys
      → after (keys >>= λ ks. ok (delete_keys engine ks s)) ≡ expected schema (view s) rows
  delete_collected schema s (err e) keys h picked = rw h refl
  delete_collected schema s (ok rows) (err e) h picked = cc
  delete_collected schema s (ok rows) (ok keys) h (there, strict) =
      let (content, count) = delete_keys-view keys s there strict in
      let same : keys ≡ map (key_of schema) rows = cc in
      rw (content, count, same, length-map schema rows) refl

  -- The row of one key, there or not, readable or not, and passing or not.
  delete_row :
      (schema : TableSchema) (k : ℤ) (s : State) (payload : Bytes) (found : Result Row)
      (test : Row → Result Bool)
      → lookup k (view s) ≡ some payload
      → ((row : Row) → found ≡ ok row → key_of schema row ≡ k)
      → after (
          found >>= λ row. test row >>= λ passed.
          ok
            (if passed then (let (s', hit) = delete s k in (s', if hit then 1 else 0)) else (s, 0)))
        ≡ expected schema
            (view s)
            (found >>= λ row. test row >>= λ passed. ok (if passed then row ∷ [] else []))
  delete_row schema k s payload (err e) test there key = refl
  delete_row schema k s payload (ok row) test there key = tested (test row)
    where
      tested :
          (answer : Result Bool)
          → after (
              answer >>= λ passed. ok (
                if passed
                then (let (s', hit) = delete s k in (s', if hit then 1 else 0))
                else (s, 0)))
            ≡ expected schema (view s) (answer >>= λ passed. ok (if passed then row ∷ [] else []))
      tested (err e) = refl
      tested (ok false) = refl
      tested (ok true) = rw (delete-view s k, delete-found s k, there, key row refl) refl

  delete_looked_up :
      (schema : TableSchema) (key : ℤ) (residual : Predicate) (s : State)
      → after (delete_point engine schema key residual s)
        ≡ expected schema (view s) (fetch_point engine schema key residual s)
  unfolding delete_point fetch_point
  delete_looked_up schema key residual s = looked_up (get s (encode_key schema.table_id key)) refl
    where
      k : ℤ
      k = encode_key schema.table_id key

      looked_up :
          (found : Option Bytes)
          → get s k ≡ found
          → after (elim found [
            | none ↦ ok (s, 0)
            | some payload ↦ decode_row schema key payload >>= λ row.
                matches_predicate schema row residual >>= λ passed. ok (
                  if passed
                  then (let (s', hit) = delete s k in (s', if hit then 1 else 0))
                  else (s, 0))
          ])
            ≡ expected schema (view s) (elim found [
              | none ↦ ok []
              | some payload ↦ decode_row schema key payload >>= λ row.
                  matches_predicate schema row residual >>= λ passed.
                  ok (if passed then row ∷ [] else [])
            ])
      looked_up none h = refl
      looked_up (some payload) h =
          delete_row schema k s payload (decode_row schema key payload)
            (λ row. matches_predicate schema row residual) (sym (get-view s k) ∙ h)
            (key_of-decode_row schema key payload)

  delete_scanned :
      (schema : TableSchema) (lo hi : ℤ) (residual : Predicate) (s : State)
      → after (
          collect_keys schema hi residual (scan s (encode_key schema.table_id lo)) >>= λ ks.
          ok (delete_keys engine ks s))
        ≡ expected schema
            (view s)
            (fetch_loop schema hi residual (scan s (encode_key schema.table_id lo)))
  delete_scanned schema lo hi residual s =
      let start = encode_key schema.table_id lo in
      let entries = from start (view s) in
      rw (scan-view s start) (
        delete_collected schema s (fetch_loop schema hi residual entries)
          (collect_keys schema hi residual entries)
          (collect_keys-fetch_loop schema hi residual entries
            (from-AllKeys IsInt64 start (view s) (view_keys s)))
          (Picked-from start (view s) (collect_keys schema hi residual entries) (
            collect_keys-Picked schema hi residual entries
              (from-Ascending start (view s) (view_ascending s)))))

  -- DELETE against the SELECT of the same plan, on every path and with every storage engine: where
  -- the SELECT throws, DELETE throws the same error, and where it returns rows, DELETE leaves the
  -- engine's content without the entries of exactly these rows, and returns their number.
  pub execute_delete-execute_fetch :
      (schema : TableSchema) (plan : Plan) (s : State)
      → after (execute_delete engine schema plan s)
        ≡ expected schema (view s) (execute_fetch engine schema plan s)
  unfolding execute_delete execute_fetch
  execute_delete-execute_fetch schema plan s = elim (path_cases plan.access_path) [
    | inl point ↦ rw point (delete_looked_up schema plan.point_key plan.residual s)
    | inr (inl range) ↦ rw range (delete_scanned schema plan.range_lo plan.range_hi plan.residual s)
    | inr (inr full) ↦ rw full (delete_scanned schema (pos 0) int64_max plan.residual s)
  ]
