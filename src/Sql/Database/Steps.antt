-- ===== src/Sql/Database/Steps.antt =====
-- Every statement keeps a `Database` (sql/database.cpp) valid.
use cpp_database_engine.Common.{
  ℕ, ◌<◌, ◌^◌, ◌≡◌, refl, sym, ap, subst, ◌∙◌, Bool, true, false, List, [], ◌∷◌, arith, leb, length,
  ◌==◌, drop,
}
use cpp_database_engine.Common.Int.{ℤ, pos, negsuc, IsInt64}
use cpp_database_engine.Common.Bytes.{Bytes}
use cpp_database_engine.Common.SortedMap.{insert}
use cpp_database_engine.Engine.{StorageEngine}
use cpp_database_engine.Sql.Error.{
  ok, ◌>>=◌, guard, >>=-eq-ok, ok_injective, row_too_long, wrong_arity,
}
use cpp_database_engine.Sql.Value.{Value, int, text}
use cpp_database_engine.Sql.Keys.{encode_key}
use cpp_database_engine.Sql.Keys.Order.{encode_key-IsInt64}
use cpp_database_engine.Sql.Schema.{TableSchema}
use cpp_database_engine.Sql.Rows.{encode_row, encode_from}
use cpp_database_engine.Sql.Catalog.{get_table}
use cpp_database_engine.Sql.Syntax.{InsertStmt}
use cpp_database_engine.Sql.Database.{Database, primary_key, store, execute_insert, QueryResult}
use cpp_database_engine.Sql.Database.Valid.{IsTable, below_of_IsTable, IsValid, get_table-IsTable}

-- The keys that INSERT accepts have 48 bits.
pub record Accepted (values : List Value) (pk : ℤ) : Type 0 where
  pub row_key : ℕ
  pub others : List Value
  pub is_pos : pk ≡ pos row_key
  pub bound : row_key < 2 ^ 48
  pub shape : values ≡ int pk ∷ others

pub primary_key-Accepted :
    (values : List Value) (pk : ℤ) → primary_key values ≡ ok pk → Accepted values pk
unfolding primary_key
primary_key-Accepted [] pk h = cc
primary_key-Accepted (text s ∷ values) pk h = cc
primary_key-Accepted (int (pos n) ∷ values) pk h =
    let (same, low) : (pos n ≡ pk) × (n < 2 ^ 48) = ground arith in
    record {
      row_key = n;
      others = values;
      is_pos = sym same;
      bound = low;
      shape = ap (λ k. int k ∷ values) same;
    }
primary_key-Accepted (int (negsuc n) ∷ values) pk h = absurd (ground arith)

-- A payload that `EncodeRow` returns fits into the engine.
encode_row-short :
    (schema : TableSchema) (values : List Value) (payload : Bytes)
    → encode_row schema values ≡ ok payload
    → leb (length payload) 64 ≡ true
unfolding encode_row
encode_row-short schema values payload h =
    let (u, arity, rest) =
      >>=-eq-ok (guard (length values == length schema.columns) wrong_arity) _ h in
    let (out, encoded, rest') =
      >>=-eq-ok (encode_from (drop 1 schema.columns) (drop 1 values) []) _ rest in
    fits out (leb (length out) 64) refl rest'
  where
    fits :
        (out : Bytes) (b : Bool)
        → leb (length out) 64 ≡ b
        → (guard b row_too_long >>= λ u. ok out) ≡ ok payload
        → leb (length payload) 64 ≡ true
    fits out false e done = cc
    fits out true e done =
        let same : out ≡ payload = cc in subst (λ x. leb (length x) 64 ≡ true) same e

module _ (engine : StorageEngine) where
  open engine use {State, view, put, put-view}

  store-view :
      (s s' : State) (k : ℤ) (v : Bytes)
      → IsInt64 k
      → leb (length v) 64 ≡ true
      → store engine s k v ≡ ok s'
      → view s' ≡ insert k v (view s)
  unfolding store
  store-view s s' k v h fits e =
      let (t, stored, content) = put-view s k v h fits in
      let moved : store engine s k v ≡ ok t = rw (store, stored) refl in
      let same : t ≡ s' = cc in rw (← same) content

  pub table_id-small :
      (db : Database engine)
      → IsValid db
      → (schema : TableSchema) → IsTable schema db.catalog.tables
      → schema.table_id < 2 ^ 16
  table_id-small db valid schema table =
      let lt =
        below_of_IsTable db.catalog.next_table_id db.catalog.tables schema valid.ids.below table in
      let room = valid.ids.room in omega arith

  -- What an INSERT that returned has done.
  pub record Inserted (stmt : InsertStmt) (db db' : Database engine) : Type 0 where
    pub schema : TableSchema
    pub found : get_table db.catalog stmt.table_name ≡ ok schema
    pub row_key : ℕ
    pub others : List Value
    pub bound : row_key < 2 ^ 48
    pub shape : stmt.values ≡ int (pos row_key) ∷ others
    pub payload : Bytes
    pub encoded : encode_row schema (int (pos row_key) ∷ others) ≡ ok payload
    pub catalog_kept : db'.catalog ≡ db.catalog
    pub content_now :
        view db'.content
        ≡ insert (encode_key schema.table_id (pos row_key)) payload (view db.content)

  pub execute_insert-Inserted :
      (stmt : InsertStmt) (db db' : Database engine) (r : QueryResult)
      → IsValid db
      → execute_insert engine stmt db ≡ ok (db', r)
      → Inserted stmt db db'
  unfolding execute_insert
  execute_insert-Inserted stmt db db' r valid h =
      let (schema, found, h1) = >>=-eq-ok (get_table db.catalog stmt.table_name) _ h in
      let (pk, accepted, h2) = >>=-eq-ok (primary_key stmt.values) _ h1 in
      let a = primary_key-Accepted stmt.values pk accepted in
      let (payload, encoded, h3) = >>=-eq-ok (encode_row schema stmt.values) _ h2 in
      let (s, stored, h4) =
        >>=-eq-ok (store engine db.content (encode_key schema.table_id pk) payload) _ h3 in
      let small : schema.table_id < 2 ^ 16 =
        table_id-small db valid schema
          (get_table-IsTable db.catalog stmt.table_name schema found) in
      let moved : (record { catalog = db.catalog; content = s }) ≡ db' =
        ap (λ (d : Database engine × QueryResult). d.0) (ok_injective _ (db', r) h4) in
      let key : int pk ∷ a.others ≡ int (pos a.row_key) ∷ a.others =
        ap (λ k. int k ∷ a.others) a.is_pos in
      record {
        schema = schema;
        found = found;
        row_key = a.row_key;
        others = a.others;
        bound = a.bound;
        shape = a.shape ∙ key;
        payload = payload;
        encoded = rw (← a.shape ∙ key) encoded;
        catalog_kept = ap (λ (d : Database engine). d.catalog) (sym moved);
        content_now =
            ap (λ (d : Database engine). view d.content) (sym moved)
            ∙ store-view db.content s _ payload (encode_key-IsInt64 schema.table_id pk small)
                (encode_row-short schema stmt.values payload encoded) stored
            ∙ ap (λ k. insert (encode_key schema.table_id k) payload (view db.content)) a.is_pos;
      }
