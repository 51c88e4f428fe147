-- ===== src/Sql/Database/Message.antt =====
-- The count that a SELECT and a DELETE give (sql/database.cpp), as a number and in their messages.
use cpp_database_engine.Common.{
  ℕ, zero, suc, ◌/◌, ◌<◌, ◌≤◌, ◌≡◌, refl, sym, ap, ◌∙◌, inl, inr, List, [], ◌∷◌, ◌++◌, length, drop,
  ltb, arith, Bool-cases,
}
use cpp_database_engine.Common.Int.{ℤ}
use cpp_database_engine.Common.Bytes.{Bytes, codes}
use cpp_database_engine.Engine.{StorageEngine}
use cpp_database_engine.Sql.Error.{Result, ok, err, >>=-eq-ok, ok_injective}
use cpp_database_engine.Sql.Lexer.{digits_value}
use cpp_database_engine.Sql.Schema.{TableSchema}
use cpp_database_engine.Sql.Catalog.{get_table}
use cpp_database_engine.Sql.Syntax.{SelectStmt}
use cpp_database_engine.Sql.Planner.{Plan, plan_query}
use cpp_database_engine.Sql.Executor.{Row, execute_fetch}
use cpp_database_engine.Sql.Executor.Delete.{execute_delete}
use cpp_database_engine.Sql.Executor.Delete.Counted.{execute_delete-execute_fetch, expected, after}
use cpp_database_engine.Sql.Database.{
  digits_of, to_string, Database, QueryResult, summary, projection_of, project, project_rows,
  execute_select, execute_delete_stmt,
}

digits_value-digits_of :
    (fuel n : ℕ) (acc : Bytes)
    → n < fuel
    → digits_value 0 (digits_of fuel n acc) ≡ digits_value n acc
unfolding digits_value digits_of
digits_value-digits_of zero n acc h = absurd (omega arith)
digits_value-digits_of (suc fuel) n acc h = elim (Bool-cases (ltb n 10)) [
  | inl last ↦
      let small : n < 10 = ground arith in rw last (ap (λ m. digits_value m acc) (omega arith))
  | inr more ↦
      let large : 10 ≤ n = ground arith in
      rw more (
        digits_value-digits_of fuel (n / 10) _ (omega arith)
        ∙ ap (λ m. digits_value m acc) (omega arith))
]

digits_value-to_string : (n : ℕ) → digits_value 0 (to_string n) ≡ n
unfolding to_string digits_value
digits_value-to_string n = digits_value-digits_of (suc n) n [] (omega arith)

-- The number that the message of a result gives behind its first word, `SELECT 42` or `DELETE 42`.
abbrev pub reported : QueryResult → ℕ
reported r = digits_value 0 (drop 7 r.message)

length-project_rows :
    (indices : List ℕ) (rows projected : List Row)
    → project_rows indices rows ≡ ok projected
    → length projected ≡ length rows
unfolding project_rows
length-project_rows indices [] projected h = ap (λ l. length l) (sym (ok_injective [] projected h))
length-project_rows indices (row ∷ rows) projected h =
    let (first, done, h1) = >>=-eq-ok (project indices row) _ h in
    let (rest, later, h2) = >>=-eq-ok (project_rows indices rows) _ h1 in
    ap (λ l. length l) (sym (ok_injective (first ∷ rest) projected h2))
    ∙ ap suc (length-project_rows indices rows rest later)

module _ (engine : StorageEngine) where
  open engine use {State, view}

  -- A DELETE of rows that a SELECT can read counts them.
  delete_counts :
      (schema : TableSchema) (plan : Plan) (s : State) (rows : List Row)
      → execute_fetch engine schema plan s ≡ ok rows
      → (s' : State) × (execute_delete engine schema plan s ≡ ok (s', length rows))
  delete_counts schema plan s rows fetched = counted (execute_delete engine schema plan s) (
      execute_delete-execute_fetch engine schema plan s
      ∙ ap (λ d. expected engine schema (view s) d) fetched)
    where
      counted :
          (d : Result (State × ℕ))
          → after engine d ≡ expected engine schema (view s) (ok rows)
          → (s' : State) × (d ≡ ok (s', length rows))
      counted (err e) h = cc
      counted (ok (s', n)) h =
          (s', ap (λ k. ok (s', k)) (ap (λ (p : List (ℤ × Bytes) × ℕ). p.1) (ok_injective _ _ h)))

  delete_returns :
      (stmt : SelectStmt) (db : Database engine) (schema : TableSchema) (plan : Plan) (s : State)
      (n : ℕ)
      → get_table db.catalog stmt.table_name ≡ ok schema
      → plan_query schema stmt.where_clause ≡ ok plan
      → execute_delete engine schema plan db.content ≡ ok (s, n)
      → execute_delete_stmt engine
          (record { table_name = stmt.table_name; where_clause = stmt.where_clause })
          db
        ≡ ok (
          record { catalog = db.catalog; content = s },
          summary n (codes "DELETE " ++ to_string n),
        )
  unfolding execute_delete_stmt
  delete_returns stmt db schema plan s n found planned deleted = rw (found, planned, deleted) refl

  -- The result of a SELECT gives its number of rows twice, as `rows_affected` and in its message. A
  -- DELETE from the same table with the same WHERE clause, where the SELECT returns, returns too, and
  -- both its numbers are the number of rows of the SELECT.
  pub select-delete_count :
      (stmt : SelectStmt) (db db' : Database engine) (r : QueryResult)
      → execute_select engine stmt db ≡ ok (db', r)
      → (r.rows_affected ≡ length r.rows)
        × ((reported r ≡ length r.rows)
            × ((after_delete : Database engine) × ((deleted : QueryResult) × ((execute_delete_stmt
                        engine
                        (record { table_name = stmt.table_name; where_clause = stmt.where_clause })
                        db
                      ≡ ok (after_delete, deleted))
                    × ((deleted.rows_affected ≡ length r.rows)
                        × (reported deleted ≡ length r.rows))))))
  unfolding execute_select
  select-delete_count stmt db db' r h =
      let (schema, found, h1) = >>=-eq-ok (get_table db.catalog stmt.table_name) _ h in
      let (plan, planned, h2) = >>=-eq-ok (plan_query schema stmt.where_clause) _ h1 in
      let (rows, fetched, h3) = >>=-eq-ok (execute_fetch engine schema plan db.content) _ h2 in
      let (names, projection, h4) = >>=-eq-ok (projection_of schema stmt) _ h3 in
      let (projected, done, h5) = >>=-eq-ok (project_rows names.1 rows) _ h4 in
      let same = ap (λ (d : Database engine × QueryResult). d.1) (ok_injective _ (db', r) h5) in
      let (s', deleted) = delete_counts schema plan db.content rows fetched in
      let count = sym (length-project_rows names.1 rows projected done) in
      rw (← same) (
        refl,
        (
          digits_value-to_string (length projected),
          (
            record { catalog = db.catalog; content = s' },
            (
              summary (length rows) (codes "DELETE " ++ to_string (length rows)),
              (
                delete_returns stmt db schema plan s' (length rows) found planned deleted,
                (count, digits_value-to_string (length rows) ∙ count),
              ),
            ),
          ),
        ),
      )
