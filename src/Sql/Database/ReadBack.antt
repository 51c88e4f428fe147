-- ===== src/Sql/Database/ReadBack.antt =====
-- INSERT and the SELECT of the same primary key (sql/database.cpp).
use cpp_database_engine.Common.{
  Option, if◌then◌else◌, ◌&&◌, ℕ, suc, ◌+◌, ◌≡◌, refl, sym, ap, subst, ◌∙◌, Bool, true, false, List,
  [], ◌∷◌, map, arith, length, get_elem?, some, none, ◌==◌, ==_iff,
}
use cpp_database_engine.Common.Int.{ℤ, pos, eqb_ℤ_iff}
use cpp_database_engine.Sql.Error.{
  ok_injective, Result, ok, err, ◌>>=◌, >>=-eq-ok, guard, wrong_arity, bad_index, no_such_column,
  type_mismatch, ◌>>◌,
}
use cpp_database_engine.Sql.Schema.{ColumnDef, TableSchema, column_index, column_index_from}
use cpp_database_engine.Sql.Planner.{
  Plan, point_lookup, default_plan, plan_query, validate, validate_comparison, find_point,
  column_at, type_fits, collect_bounds, start_bounds, range_or_full,
}
use cpp_database_engine.Sql.Value.{Value, int, eq_op, Predicate, integer_type}
use cpp_database_engine.Common.Bytes.{Bytes, codes, eqb_bytes_iff}
use cpp_database_engine.Sql.Rows.{encode_row, decode_row}
use cpp_database_engine.Sql.Executor.{Row, cell_at, execute_fetch, fetch_point, matches_predicate}
use cpp_database_engine.Sql.Database.{
  indices_from, project, Database, QueryResult, primary_key, execute_insert, execute_select,
  projection_of, project_rows, to_string, digits_of,
}
use cpp_database_engine.Engine.{StorageEngine}
use cpp_database_engine.Common.SortedMap.{insert, lookup, lookup-insert}
use cpp_database_engine.Sql.Keys.{encode_key}
use cpp_database_engine.Sql.Rows.RoundTrip.{AllStorable, decode-encode_row}
use cpp_database_engine.Sql.Syntax.{InsertStmt, SelectStmt}
use cpp_database_engine.Sql.Catalog.{Catalog, get_table}
use cpp_database_engine.Sql.Database.Valid.{IsValid, get_table-IsTable}
use cpp_database_engine.Sql.Database.Steps.{execute_insert-Inserted, primary_key-Accepted}

-- The projection of `*` is the row itself.
project-from :
    (columns : List ColumnDef) (i : ℕ) (full row : Row)
    → length columns ≡ length row
    → ((j : ℕ) → get_elem? full (i + j) ≡ get_elem? row j)
    → project (indices_from i columns) full ≡ ok row
unfolding project indices_from
project-from [] i full [] h at_row = refl
project-from [] i full (v ∷ row) h at_row = absurd (omega arith)
project-from (c ∷ columns) i full [] h at_row = absurd (omega arith)
project-from (c ∷ columns) i full (v ∷ row) h at_row =
    let this : get_elem? full i ≡ some v =
      subst (λ m. get_elem? full m ≡ some v) (omega arith) (at_row 0) in
    let rest =
      project-from columns (suc i) full row (omega arith)
        (λ j. subst (λ m. get_elem? full m ≡ get_elem? row j) (omega arith) (at_row (suc j))) in
    let cell : cell_at full i ≡ ok v =
      ap (λ (o : Option Value). elim o [ none ↦ err bad_index | some x ↦ ok x ]) this in
    rw (cell, rest) refl

-- `WHERE key = n`
abbrev pub key_equals : Bytes → ℤ → Predicate
key_equals name pk = record { column = name; op = eq_op; literal = int pk } ∷ []

abbrev point_plan : ℤ → Plan
point_plan pk = record default_plan { access_path = point_lookup; point_key = pk; residual = [] }

-- The plan of a query for one primary key.
column_index-key :
    (schema : TableSchema) (c : ColumnDef) (columns : List ColumnDef)
    → schema.columns ≡ c ∷ columns
    → column_index schema c.name ≡ some 0
unfolding column_index column_index_from
column_index-key schema c columns shape = rw shape (
    ap (λ b. if b then some 0 else column_index_from 1 columns c.name)
      ((eqb_bytes_iff c.name c.name).1 refl))

validate-key_equals :
    (schema : TableSchema) (c : ColumnDef) (columns : List ColumnDef) (pk : ℤ)
    → schema.columns ≡ c ∷ columns
    → c.type ≡ integer_type
    → validate schema (key_equals c.name pk) ≡ ok tt
unfolding validate validate_comparison
validate-key_equals schema c columns pk shape is_integer =
    let checked : validate_comparison schema
          (record { column = c.name; op = eq_op; literal = int pk })
        ≡ ok tt =
      ap
        (λ (o : Option ℕ). elim o [
          | none ↦ err no_such_column
          | some i ↦
              column_at schema.columns i >>= λ d. guard (type_fits d.type (int pk)) type_mismatch
        ])
        (column_index-key schema c columns shape)
      ∙ ap (λ cs. column_at cs 0 >>= λ d. guard (type_fits d.type (int pk)) type_mismatch) shape
      ∙ ap (λ t. guard (type_fits t (int pk)) type_mismatch) is_integer in
    ap (λ r. r >> ok tt) checked

find_point-key_equals :
    (c : ColumnDef) (pk : ℤ)
    → find_point c.name [] (key_equals c.name pk) ≡ some (ok (point_plan pk))
unfolding find_point
find_point-key_equals c pk =
    ap (λ b. if b && true then some (ok (point_plan pk)) else none)
      ((eqb_bytes_iff c.name c.name).1 refl)

plan_query-key_equals :
    (schema : TableSchema) (c : ColumnDef) (columns : List ColumnDef) (pk : ℤ)
    → schema.columns ≡ c ∷ columns
    → c.type ≡ integer_type
    → plan_query schema (key_equals c.name pk) ≡ ok (point_plan pk)
unfolding plan_query
plan_query-key_equals schema c columns pk shape is_integer =
    let where' = key_equals c.name pk in
    let chosen = λ (d : ColumnDef) (found : Option (Result Plan)).
      elim found as (λ o. Result Plan) [
        | some plan ↦ plan
        | none ↦ collect_bounds d.name where' start_bounds >>= λ b. ok (range_or_full where' b)
      ] in
    ap (λ v. v >> (column_at schema.columns 0 >>= λ d. chosen d (find_point d.name [] where')))
      (validate-key_equals schema c columns pk shape is_integer)
    ∙ ap (λ cs. column_at cs 0 >>= λ d. chosen d (find_point d.name [] where')) shape
    ∙ ap (chosen c) (find_point-key_equals c pk)

-- The arity check of `EncodeRow`.
encode_row-arity :
    (schema : TableSchema) (values : List Value) (payload : Bytes)
    → encode_row schema values ≡ ok payload
    → length schema.columns ≡ length values
unfolding encode_row
encode_row-arity schema values payload h =
    let (u, arity, rest) =
      >>=-eq-ok (guard (length values == length schema.columns) wrong_arity) _ h in
    checked (length values == length schema.columns) refl arity
  where
    checked :
        (b : Bool)
        → (length values == length schema.columns) ≡ b
        → guard b wrong_arity ≡ ok tt
        → length schema.columns ≡ length values
    checked true e g = sym ((==_iff _ _).0 e)
    checked false e g = cc

-- `SELECT * FROM table WHERE key = pk`
abbrev pub select_key : Bytes → ColumnDef → ℤ → SelectStmt
select_key table_name c pk = record {
  table_name = table_name;
  select_star = true;
  columns = [];
  where_clause = key_equals c.name pk;
}

-- The result of a SELECT that finds one row.
abbrev pub one_row : TableSchema → Row → QueryResult
one_row schema row = record {
  column_names = map (λ (c : ColumnDef). c.name) schema.columns;
  rows = row ∷ [];
  rows_affected = 1;
  message = codes "SELECT 1";
}

module _ (engine : StorageEngine) where
  open engine use {State, view, get, get-view}

  fetch_point-found :
      (schema : TableSchema) (pk : ℤ) (s : State) (payload : Bytes) (row : Row)
      → get s (encode_key schema.table_id pk) ≡ some payload
      → decode_row schema pk payload ≡ ok row
      → execute_fetch engine schema (point_plan pk) s ≡ ok (row ∷ [])
  unfolding execute_fetch fetch_point matches_predicate
  fetch_point-found schema pk s payload row found decoded =
      let none_or : Option Bytes → Result (List Row) = λ o. elim o [
        | none ↦ ok []
        | some bytes ↦ decode_row schema pk bytes >>= λ cells. ok (cells ∷ [])
      ] in
      ap none_or found ∙ ap (λ d. d >>= λ cells. ok (cells ∷ [])) decoded

  execute_select-star :
      (stmt : SelectStmt) (db : Database engine) (schema : TableSchema) (plan : Plan) (row : Row)
      → stmt.select_star ≡ true
      → get_table db.catalog stmt.table_name ≡ ok schema
      → plan_query schema stmt.where_clause ≡ ok plan
      → execute_fetch engine schema plan db.content ≡ ok (row ∷ [])
      → length schema.columns ≡ length row
      → execute_select engine stmt db ≡ ok (db, one_row schema row)
  unfolding execute_select projection_of project_rows to_string digits_of
  execute_select-star stmt db schema plan row star found planned fetched arity =
      let whole =
        project-from schema.columns 0 row row arity (λ j. ap (get_elem? row) (omega arith)) in
      rw (found, planned, fetched, star, whole) refl

  stored_at :
      (s : State) (m : List (ℤ × Bytes)) (table_id : ℕ) (pk : ℤ) (payload : Bytes)
      → view s ≡ insert (encode_key table_id pk) payload m
      → get s (encode_key table_id pk) ≡ some payload
  stored_at s m table_id pk payload h =
      let key = encode_key table_id pk in
      get-view s key
      ∙ ap (lookup key) h
      ∙ lookup-insert key key payload m
      ∙ ap (λ b. if b then some payload else lookup key m) ((eqb_ℤ_iff key key).1 refl)

  -- What INSERT stores, SELECT by primary key returns: in a valid database, after an INSERT that
  -- returned, of values whose integers have 64 bits, `SELECT * ... WHERE key = pk` for the table's
  -- key column and the row's primary key returns exactly the row that was inserted, under the names
  -- of the table's columns, and leaves the database as it is.
  pub select-insert :
      (stmt : InsertStmt) (db db' : Database engine) (r : QueryResult) (schema : TableSchema)
      (c : ColumnDef) (columns : List ColumnDef) (pk : ℤ)
      → IsValid db
      → AllStorable stmt.values
      → execute_insert engine stmt db ≡ ok (db', r)
      → get_table db.catalog stmt.table_name ≡ ok schema
      → schema.columns ≡ c ∷ columns
      → primary_key stmt.values ≡ ok pk
      → execute_select engine (select_key stmt.table_name c pk) db'
        ≡ ok (db', one_row schema stmt.values)
  select-insert stmt db db' r schema c columns pk valid storable h found shape key =
      let i = execute_insert-Inserted engine stmt db db' r valid h in
      let a = primary_key-Accepted stmt.values pk key in
      let same : i.schema ≡ schema = ok_injective _ schema (sym i.found ∙ found) in
      let heads : int (pos i.row_key) ∷ i.others ≡ int pk ∷ a.others = sym i.shape ∙ a.shape in
      let pk_same : pos i.row_key ≡ pk = cc in
      let others_same : i.others ≡ a.others = cc in
      let encoded : encode_row schema (int pk ∷ a.others) ≡ ok i.payload =
        rw (← same, ← heads) i.encoded in
      let decoded =
        decode-encode_row schema pk a.others i.payload (rw a.shape at storable).1 encoded in
      let k = valid.keyed schema (get_table-IsTable db.catalog stmt.table_name schema found) in
      let columns_same : c ∷ columns ≡ k.key ∷ k.rest = sym shape ∙ k.shape in
      let is_key : k.key ≡ c = cc in
      let is_integer : c.type ≡ integer_type = rw (← is_key) k.is_integer in
      let stored =
        stored_at db'.content (view db.content) schema.table_id pk i.payload
          (rw (← same, ← pk_same) i.content_now) in
      rw a.shape (
        execute_select-star (select_key stmt.table_name c pk) db' schema (point_plan pk)
          (int pk ∷ a.others) refl
          (ap (λ (catalog : Catalog). get_table catalog stmt.table_name) i.catalog_kept ∙ found)
          (plan_query-key_equals schema c columns pk shape is_integer)
          (fetch_point-found schema pk db'.content i.payload (int pk ∷ a.others) stored decoded)
          (encode_row-arity schema (int pk ∷ a.others) i.payload encoded))
