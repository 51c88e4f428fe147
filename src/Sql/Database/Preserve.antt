-- ===== src/Sql/Database/Preserve.antt =====
-- The invariant of a `Database` (sql/database.cpp), statement by statement.
use cpp_database_engine.Common.{
  ℕ, ◌+◌, ◌<◌, ◌≡◌, refl, sym, ap, subst, ◌∙◌, inl, inr, List, [], ◌∷◌, map, arith,
}
use cpp_database_engine.Common.Int.{ℤ, pos}
use cpp_database_engine.Common.Bytes.{Bytes}
use cpp_database_engine.Engine.{StorageEngine}
use cpp_database_engine.Sql.Error.{Result, ok, err, >>=-eq-ok, ok_injective}
use cpp_database_engine.Sql.Keys.Order.{decode-encode_key}
use cpp_database_engine.Sql.Schema.{ColumnDef, TableSchema, HasKey}
use cpp_database_engine.Sql.Rows.RoundTrip.{AllStorable, decode-encode_row}
use cpp_database_engine.Sql.Catalog.{get_table, create_table, max_tables}
use cpp_database_engine.Sql.Catalog.Ids.{create_table-IsValid, create_table-eq-ok, new_table, grown}
use cpp_database_engine.Sql.Syntax.{
  CreateTableStmt, InsertStmt, SelectStmt, DeleteStmt, Statement, create_table_stmt, insert_stmt,
  select_stmt, delete_stmt,
}
use cpp_database_engine.Sql.Planner.{Plan, plan_query}
use cpp_database_engine.Sql.Executor.{Row, execute_fetch}
use cpp_database_engine.Sql.Executor.Select.{Readable}
use cpp_database_engine.Sql.Executor.Delete.{execute_delete}
use cpp_database_engine.Sql.Executor.Delete.Keys.{key_of}
use cpp_database_engine.Sql.Executor.Delete.Collected.{erase_all}
use cpp_database_engine.Sql.Executor.Delete.Counted.{execute_delete-execute_fetch, expected, after}
use cpp_database_engine.Sql.Parser.Emit.{KeyFirst}
use cpp_database_engine.Sql.Database.{
  Database, QueryResult, execute_create_table, execute_insert, execute_select, execute_delete_stmt,
  execute_statement, projection_of, project_rows,
}
use cpp_database_engine.Sql.Database.Valid.{
  IsTable, IsValid, Owned, get_table-IsTable, same_table, Owned-insert, Readable-insert,
  Readable-erase_all, Owned-erase_all, Owned-mono, Readable-new, below_of_IsTable,
}
use cpp_database_engine.Sql.Database.Steps.{execute_insert-Inserted, table_id-small}

-- The first column of a new table is the INTEGER key, and integers have 64 bits.
abbrev pub Acceptable : Statement → Type 0
Acceptable (create_table_stmt stmt) = KeyFirst stmt.columns
Acceptable (insert_stmt stmt) = AllStorable stmt.values
Acceptable (select_stmt stmt) = Unit
Acceptable (delete_stmt stmt) = Unit

HasKey-KeyFirst : (schema : TableSchema) → KeyFirst schema.columns → HasKey schema
HasKey-KeyFirst schema k = split schema.columns refl k
  where
    split : (columns : List ColumnDef) → schema.columns ≡ columns → KeyFirst columns → HasKey schema
    split [] e key = absurd key
    split (c ∷ columns) e key = record { key = c; rest = columns; shape = e; is_integer = key }

module _ (engine : StorageEngine) where
  open engine use {State, view}

  -- New content under the same catalog.
  IsValid-content :
      (db db' : Database engine)
      → IsValid db
      → db'.catalog ≡ db.catalog
      → Owned db.catalog.next_table_id (view db'.content)
      → ((schema : TableSchema)
          → IsTable schema db.catalog.tables
          → Readable schema (view db'.content))
      → IsValid db'
  IsValid-content db db' valid same owned readable = record {
    ids = rw same valid.ids;
    keyed = rw same valid.keyed;
    owned = rw same owned;
    readable = rw same readable;
  }

  execute_insert-IsValid :
      (stmt : InsertStmt) (db db' : Database engine) (r : QueryResult)
      → AllStorable stmt.values
      → IsValid db
      → execute_insert engine stmt db ≡ ok (db', r)
      → IsValid db'
  execute_insert-IsValid stmt db db' r storable valid h =
      let i = execute_insert-Inserted engine stmt db db' r valid h in
      let table = get_table-IsTable db.catalog stmt.table_name i.schema i.found in
      let small = table_id-small engine db valid i.schema table in
      let (id, row_key) = decode-encode_key i.schema.table_id i.row_key small i.bound in
      let lt =
        below_of_IsTable db.catalog.next_table_id db.catalog.tables i.schema valid.ids.below
          table in
      let fields : AllStorable i.others = (rw i.shape at storable).1 in
      let reads = decode-encode_row i.schema (pos i.row_key) i.others i.payload fields i.encoded in
      IsValid-content db db' valid i.catalog_kept
        (rw i.content_now (Owned-insert _ _ _ _ (rw id lt) valid.owned))
        (λ schema t. rw i.content_now (
          Readable-insert schema _ _ _
            (λ e.
              let same =
                same_table db.catalog.tables i.schema schema valid.ids.distinct table t
                  (sym id ∙ e) in
              rw (← same, row_key) (_, reads))
            (valid.readable schema t)))

  -- What a DELETE leaves.
  execute_delete-erased :
      (schema : TableSchema) (plan : Plan) (s s' : State) (n : ℕ)
      → execute_delete engine schema plan s ≡ ok (s', n)
      → (ks : List ℤ) × (view s' ≡ erase_all ks (view s))
  execute_delete-erased schema plan s s' n h =
      erased (execute_fetch engine schema plan s)
        (sym (execute_delete-execute_fetch engine schema plan s) ∙ ap (after engine) h)
    where
      erased :
          (rows : Result (List Row))
          → expected engine schema (view s) rows ≡ ok (view s', n)
          → (ks : List ℤ) × (view s' ≡ erase_all ks (view s))
      erased (err e) k = cc
      erased (ok rows) k = (
        map (key_of schema) rows,
        ap (λ (p : List (ℤ × Bytes) × ℕ). p.0) (sym (ok_injective _ (view s', n) k)),
      )

  execute_delete_stmt-IsValid :
      (stmt : DeleteStmt) (db db' : Database engine) (r : QueryResult)
      → IsValid db
      → execute_delete_stmt engine stmt db ≡ ok (db', r)
      → IsValid db'
  unfolding execute_delete_stmt
  execute_delete_stmt-IsValid stmt db db' r valid h =
      let (schema, found, h1) = >>=-eq-ok (get_table db.catalog stmt.table_name) _ h in
      let (plan, planned, h2) = >>=-eq-ok (plan_query schema stmt.where_clause) _ h1 in
      let ((s, n), deleted, h3) = >>=-eq-ok (execute_delete engine schema plan db.content) _ h2 in
      let moved = ap (λ (d : Database engine × QueryResult). d.0) (ok_injective _ (db', r) h3) in
      let (ks, left) = execute_delete-erased schema plan db.content s n deleted in
      rw (← moved) (
        IsValid-content db (record { catalog = db.catalog; content = s }) valid refl
          (rw left (Owned-erase_all _ ks _ valid.owned))
          (λ t table. rw left (Readable-erase_all t ks _ (valid.readable t table))))

  execute_select-same :
      (stmt : SelectStmt) (db db' : Database engine) (r : QueryResult)
      → execute_select engine stmt db ≡ ok (db', r)
      → db ≡ db'
  unfolding execute_select
  execute_select-same stmt db db' r h =
      let (schema, found, h1) = >>=-eq-ok (get_table db.catalog stmt.table_name) _ h in
      let (plan, planned, h2) = >>=-eq-ok (plan_query schema stmt.where_clause) _ h1 in
      let (rows, fetched, h3) = >>=-eq-ok (execute_fetch engine schema plan db.content) _ h2 in
      let (names, projection, h4) = >>=-eq-ok (projection_of schema stmt) _ h3 in
      let (projected, done, h5) = >>=-eq-ok (project_rows names.1 rows) _ h4 in
      ap (λ (d : Database engine × QueryResult). d.0) (ok_injective _ (db', r) h5)

  execute_create_table-IsValid :
      (stmt : CreateTableStmt) (db db' : Database engine) (r : QueryResult)
      → KeyFirst stmt.columns
      → db.catalog.next_table_id + 1 < max_tables
      → IsValid db
      → execute_create_table engine stmt db ≡ ok (db', r)
      → IsValid db'
  unfolding execute_create_table
  execute_create_table-IsValid stmt db db' r key room valid h =
      let ((c, schema), created, h1) =
        >>=-eq-ok (create_table db.catalog stmt.table_name stmt.columns) _ h in
      let moved = ap (λ (d : Database engine × QueryResult). d.0) (ok_injective _ (db', r) h1) in
      let (is_new, is_grown) =
        create_table-eq-ok db.catalog c stmt.table_name stmt.columns schema valid.ids.room
          created in
      let (ids, found, others) =
        create_table-IsValid db.catalog c stmt.table_name stmt.columns schema valid.ids room
          created in
      let fresh = new_table db.catalog stmt.table_name stmt.columns in
      rw (← moved) (record {
        ids = ids;
        keyed = rw is_grown (λ t table. keyed t table);
        owned = rw is_grown (Owned-mono db.catalog.next_table_id _ _ (omega arith) valid.owned);
        readable = rw is_grown (λ t table. readable t table);
      })
    where
      keyed :
          (t : TableSchema)
          → IsTable t (grown db.catalog stmt.table_name stmt.columns).tables
          → HasKey t
      keyed t (inl e) =
          subst HasKey e (HasKey-KeyFirst (new_table db.catalog stmt.table_name stmt.columns) key)
      keyed t (inr old) = valid.keyed t old

      readable :
          (t : TableSchema)
          → IsTable t (grown db.catalog stmt.table_name stmt.columns).tables
          → Readable t (view db.content)
      readable t (inl e) =
          subst (λ x. Readable x (view db.content)) e
            (Readable-new (new_table db.catalog stmt.table_name stmt.columns) (view db.content)
              valid.owned)
      readable t (inr old) = valid.readable t old

  -- Every statement that returns keeps the database valid, while an id is left after the next one,
  -- if the first column of a new table is INTEGER and inserted integers have 64 bits: tables keep ids
  -- of their own and an INTEGER key, every entry in the engine belongs to an id that is given out, and
  -- every entry under a table's id is a row of that table that can be read.
  pub execute_statement-IsValid :
      (stmt : Statement) (db db' : Database engine) (r : QueryResult)
      → Acceptable stmt
      → db.catalog.next_table_id + 1 < max_tables
      → IsValid db
      → execute_statement engine stmt db ≡ ok (db', r)
      → IsValid db'
  unfolding execute_statement
  execute_statement-IsValid (create_table_stmt stmt) db db' r key room valid h =
      execute_create_table-IsValid stmt db db' r key room valid h
  execute_statement-IsValid (insert_stmt stmt) db db' r storable room valid h =
      execute_insert-IsValid stmt db db' r storable valid h
  execute_statement-IsValid (select_stmt stmt) db db' r accepted room valid h =
      subst IsValid (execute_select-same stmt db db' r h) valid
  execute_statement-IsValid (delete_stmt stmt) db db' r accepted room valid h =
      execute_delete_stmt-IsValid stmt db db' r valid h
