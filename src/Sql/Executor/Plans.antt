-- ===== src/Sql/Executor/Plans.antt =====
-- The three plans of `PlanQuery`, run by `ExecuteFetch`.
use cpp_database_engine.Common.{
  ℕ, ◌+◌, ◌*◌, ◌%◌, ◌^◌, ◌<◌, ◌≡◌, refl, sym, ap, ◌∙◌, true, none, some, List, [], ◌∷◌, arith,
  if◌then◌else◌, Bool-cases, Option-cases, inl, inr,
}
use cpp_database_engine.Common.Int.{ℤ, pos, negsuc, max_ℤ, int64_max}
use cpp_database_engine.Common.Bytes.{Bytes}
use cpp_database_engine.Common.SortedMap.{lookup}
use cpp_database_engine.Engine.{StorageEngine}
use cpp_database_engine.Sql.Error.{Result, ok, ◌>>=◌, >>=-eq-ok, ok_injective}
use cpp_database_engine.Sql.Value.{int, Predicate}
use cpp_database_engine.Sql.Keys.{
  word_of, int_of, encode_key, decode_row_key, encode_key_arith, decode_row_key_arith,
}
use cpp_database_engine.Sql.Schema.{ColumnDef, TableSchema, HasKey}
use cpp_database_engine.Sql.Rows.{decode_row}
use cpp_database_engine.Sql.Planner.{
  Plan, point_lookup, validate, column_at, find_point, Bounds, start_bounds, collect_bounds,
  range_or_full, plan_query,
}
use cpp_database_engine.Sql.Planner.Range.{Within, collect_bounds-Within}
use cpp_database_engine.Sql.Executor.{
  Row, matches_predicate, fetch_loop, fetch_point, execute_fetch,
}
use cpp_database_engine.Sql.Executor.Typing.{decode_row-Fits}
use cpp_database_engine.Sql.Executor.Select.{matching, Readable, Covers, fetch_loop-from}
use cpp_database_engine.Sql.Executor.Point.{Point, find_point-Point}
use cpp_database_engine.Sql.Executor.Correct.{total, lookup-matching}

-- The clause's point key, if the plan is a point lookup, is a key that INSERT accepts.
abbrev pub KeyInRange : Plan → Type 0
KeyInRange plan =
    plan.access_path ≡ point_lookup → (n : ℕ) × (plan.point_key ≡ pos n) × (n < 2 ^ 48)

-- A start beyond the largest row key aliases a smaller one; no row is between them.
alias : (t m : ℕ) → t < 2 ^ 16 → encode_key t (pos m) ≡ encode_key t (pos (m % 2 ^ 48))
alias t m h =
    encode_key_arith t (pos m) h
    ∙ ap (λ (w : ℕ). int_of (t * 2 ^ 48 + w)) (low m)
    ∙ sym (encode_key_arith t (pos (m % 2 ^ 48)) h)
  where
    low : (m : ℕ) → word_of (pos m) % 2 ^ 48 ≡ word_of (pos (m % 2 ^ 48)) % 2 ^ 48
    low m = unfold word_of in omega arith

module _ (schema : TableSchema) (k : HasKey schema) (where' : Predicate)
    (small : schema.table_id < 2 ^ 16) (valid : validate schema where' ≡ ok tt) where
  -- The bounds that pass 2 collects cover every row that passes.
  range-Covers :
      (b : Bounds) (m : ℕ)
      → collect_bounds k.key.name where' start_bounds ≡ ok b
      → max_ℤ b.lo (pos 0) ≡ pos m
      → Covers schema where' (m % 2 ^ 48) b.hi
  range-Covers b m h lo = record {
    table_id-lt = small;
    lo-lt = omega arith;
    total = λ key payload row read.
        total schema k where' small valid (decode_row_key key) payload row read;
    below = λ key payload row read low passes.
        let (cells, shape, typed) =
          decode_row-Fits schema k (decode_row_key key) payload row read in
        let w = within key cells (rw shape at passes) in
        absurd (ground (arith, decode_row_key_arith key));
    above = λ key payload row read high passes.
        let (cells, shape, typed) =
          decode_row-Fits schema k (decode_row_key key) payload row read in
        let w = within key cells (rw shape at passes) in
        absurd (ground (arith, decode_row_key_arith key));
  }
    where
      within :
          (key : ℤ) (cells : Row)
          → matches_predicate schema (int (decode_row_key key) ∷ cells) where' ≡ ok true
          → Within b (decode_row_key key)
      within key cells passes =
          collect_bounds-Within schema k (decode_row_key key) cells where' start_bounds b
            (rw (decode_row_key_arith key) (omega arith)) h passes
            (rw (decode_row_key_arith key) (omega arith))

  full-Covers : Covers schema where' 0 int64_max
  full-Covers = record {
    table_id-lt = small;
    lo-lt = omega arith;
    total = λ key payload row read.
        total schema k where' small valid (decode_row_key key) payload row read;
    below = λ key payload row read low passes. absurd (omega arith);
    above = λ key payload row read high passes. absurd (ground (arith, decode_row_key_arith key));
  }

-- The second part of `PlanQuery`, behind the validation.
abbrev choose : Predicate → Bytes → Result Plan
choose where' pk_name = elim (find_point pk_name [] where') [
  | some plan ↦ plan
  | none ↦ do b ← collect_bounds pk_name where' start_bounds; ok (range_or_full where' b)
]

plan_query-eq-ok :
    (schema : TableSchema) (k : HasKey schema) (where' : Predicate) (plan : Plan)
    → plan_query schema where' ≡ ok plan
    → (validate schema where' ≡ ok tt) × (choose where' k.key.name ≡ ok plan)
unfolding plan_query
plan_query-eq-ok schema k where' plan h =
    let (u, valid, h') = >>=-eq-ok (validate schema where') _ h in
    let (pk, first, h'') = >>=-eq-ok (column_at schema.columns 0) _ h' in
    let shape : column_at schema.columns 0 ≡ ok k.key =
      ap (λ (columns : List ColumnDef). column_at columns 0) k.shape in
    let same : pk ≡ k.key = ok_injective pk k.key (sym first ∙ shape) in
    (valid, ap (λ (c : ColumnDef). choose where' c.name) (sym same) ∙ h'')
  where
    ok_injective : (a b : ColumnDef) → ok a ≡ ok b → a ≡ b
    ok_injective a b e = cc

module _ (engine : StorageEngine) (schema : TableSchema) (k : HasKey schema) (where' : Predicate)
    (small : schema.table_id < 2 ^ 16) (valid : validate schema where' ≡ ok tt) (s : engine.State)
    (r : Readable schema (engine.view s)) where
  fetch_scan :
      (lo hi : ℤ) (n : ℕ)
      → encode_key schema.table_id lo ≡ encode_key schema.table_id (pos n)
      → Covers schema where' n hi
      → fetch_loop schema hi where' (engine.scan s (encode_key schema.table_id lo))
        ≡ matching schema where' (engine.view s)
  fetch_scan lo hi n e c =
      rw (engine.scan-view s (encode_key schema.table_id lo), e)
        (fetch_loop-from schema where' n hi c (engine.view s) (engine.view_ascending s)
          (engine.view_keys s) r)

  scan_correct :
      (b : Bounds)
      → collect_bounds k.key.name where' start_bounds ≡ ok b
      → execute_fetch engine schema (range_or_full where' b) s
        ≡ matching schema where' (engine.view s)
  unfolding execute_fetch
  scan_correct b h = elim (Bool-cases b.found_bound) [
    | inr full ↦
        rw full (fetch_scan (pos 0) int64_max 0 refl (full-Covers schema k where' small valid))
    | inl range ↦
        let (m, lo) = pos_of_max b.lo in
        rw (range, lo)
          (fetch_scan (pos m) b.hi (m % 2 ^ 48) (alias schema.table_id m small)
            (range-Covers schema k where' small valid b m h lo))
  ]
    where
      pos_of_max : (v : ℤ) → (m : ℕ) × (max_ℤ v (pos 0) ≡ pos m)
      pos_of_max (pos n) = (n, ground arith)
      pos_of_max (negsuc n) = (0, ground arith)

  fetch_point-get :
      (n : ℕ) (residual : Predicate)
      → fetch_point engine schema (pos n) residual s
        ≡ (elim (lookup (encode_key schema.table_id (pos n)) (engine.view s)) [
          | none ↦ ok []
          | some payload ↦ do
            row ← decode_row schema (pos n) payload
            passed ← matches_predicate schema row residual
            ok (if passed then row ∷ [] else [])
        ])
  unfolding fetch_point
  fetch_point-get n residual =
      rw (engine.get-view s (encode_key schema.table_id (pos n)), fetch_point)

  Point-correct :
      (plan : Plan) (n : ℕ)
      → Point k.key.name [] where' plan
      → plan.point_key ≡ pos n
      → n < 2 ^ 48
      → execute_fetch engine schema plan s ≡ matching schema where' (engine.view s)
  unfolding execute_fetch
  Point-correct plan n p e fits = rw p.path (
      ap (λ (key : ℤ). fetch_point engine schema key plan.residual s) e
      ∙ fetch_point-get n plan.residual
      ∙ lookup-matching schema k where' small valid n fits plan.residual p.cmp p.before p.after
          p.split p.residual p.names_key p.equates (p.literal ∙ ap (λ (t : ℤ). ok t) e)
          (engine.view s) (engine.view_ascending s) (engine.view_keys s) r)

-- Over any storage engine, the plan that `PlanQuery` chooses for a WHERE clause, a point lookup, a
-- range scan or a full scan, makes `ExecuteFetch` return exactly the rows of the table that satisfy
-- the clause, in key order. The table has its INTEGER key, a 16-bit id, and rows that can be read;
-- the key of a point lookup is one that INSERT accepts.
pub execute_fetch-matching :
    (engine : StorageEngine) (schema : TableSchema) (where' : Predicate) (plan : Plan)
    (s : engine.State)
    → HasKey schema
    → schema.table_id < 2 ^ 16
    → Readable schema (engine.view s)
    → plan_query schema where' ≡ ok plan
    → KeyInRange plan
    → execute_fetch engine schema plan s ≡ matching schema where' (engine.view s)
execute_fetch-matching engine schema where' plan s k small r h in_range =
    let (valid, chosen) = plan_query-eq-ok schema k where' plan h in
    elim (Option-cases (find_point k.key.name [] where')) [
      | inl scan ↦
          let (b, bounds, done) =
            >>=-eq-ok (collect_bounds k.key.name where' start_bounds) _
              (rw (scan, choose) at chosen) in
          let same : range_or_full where' b ≡ plan = ok_injective _ plan done in
          rw (← same) (scan_correct engine schema k where' small valid s r b bounds)
      | inr (found, point) ↦
          let p =
            find_point-Point k.key.name [] where' plan
              (point ∙ ap some (rw (point, choose) at chosen)) in
          let (n, e, fits) = in_range p.path in
          Point-correct engine schema k where' small valid s r plan n p e fits
    ]
