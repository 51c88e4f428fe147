-- ===== src/Sql/Executor/Delete/Keys.antt =====
-- The keys that `ExecuteDelete` collects (sql/executor.cpp) are those of the rows that
-- `ExecuteFetch` returns.
use cpp_database_engine.Common.{
  ◌≡◌, refl, sym, ap, ◌∙◌, Bool, true, false, List, [], ◌∷◌, map, ◌==◌, ==_iff, if◌then◌else◌,
}
use cpp_database_engine.Common.Int.{ℤ, pos, ltb_ℤ, IsInt64}
use cpp_database_engine.Common.Bytes.{Bytes}
use cpp_database_engine.Common.SortedMap.{AllKeys}
use cpp_database_engine.Sql.Error.{Result, ok, err, ◌>>=◌, >>=-eq-ok}
use cpp_database_engine.Sql.Value.{int, text, Predicate}
use cpp_database_engine.Sql.Keys.{encode_key, decode_row_key, decode_table_id}
use cpp_database_engine.Sql.Keys.Order.{encode_key-decode}
use cpp_database_engine.Sql.Schema.{TableSchema}
use cpp_database_engine.Sql.Rows.{decode_row, decode_from}
use cpp_database_engine.Sql.Executor.{Row, matches_predicate, fetch_loop}
use cpp_database_engine.Sql.Executor.Delete.{collect_keys}

-- The key of the engine under which a row of the table stands.
abbrev pub key_of : TableSchema → Row → ℤ
key_of schema [] = encode_key schema.table_id (pos 0)
key_of schema (int pk ∷ row) = encode_key schema.table_id pk
key_of schema (text s ∷ row) = encode_key schema.table_id (pos 0)

pub key_of-decode_row :
    (schema : TableSchema) (pk : ℤ) (payload : Bytes) (row : Row)
    → decode_row schema pk payload ≡ ok row
    → key_of schema row ≡ encode_key schema.table_id pk
unfolding decode_row
key_of-decode_row schema pk payload row h =
    let (cells, read, done) = >>=-eq-ok (decode_from _ payload 0) _ h in
    let shape : int pk ∷ cells ≡ row = cc in rw (← shape) refl

-- One round of the two loops.
round_keys :
    (schema : TableSchema) (key : ℤ) (found : Result Row) (test : Row → Result Bool)
    (rows : Result (List Row)) (keys : Result (List ℤ)) (here over : Bool)
    → (here ≡ true → (row : Row) → found ≡ ok row → key_of schema row ≡ key)
    → keys ≡ (rows >>= λ rs. ok (map (key_of schema) rs))
    → (if here
        then (if over
            then ok []
            else (found >>= λ row.
                test row >>= λ passed. keys >>= λ ks. ok (if passed then key ∷ ks else ks)))
        else ok [])
      ≡ ((if here
            then (if over
                then ok []
                else (found >>= λ row.
                    test row >>= λ passed. rows >>= λ rs. ok (if passed then row ∷ rs else rs)))
            else ok [])
          >>= λ rs. ok (map (key_of schema) rs))
round_keys schema key found test rows keys false over h rest = refl
round_keys schema key found test rows keys true true h rest = refl
round_keys schema key (err e) test rows keys true false h rest = refl
round_keys schema key (ok row) test rows keys true false h rest =
    passed_keys (test row) rows keys rest
  where
    passed_keys :
        (answer : Result Bool) (rows' : Result (List Row)) (keys' : Result (List ℤ))
        → keys' ≡ (rows' >>= λ rs. ok (map (key_of schema) rs))
        → (answer >>= λ passed. keys' >>= λ ks. ok (if passed then key ∷ ks else ks)) ≡ (
            (answer >>= λ passed. rows' >>= λ rs. ok (if passed then row ∷ rs else rs)) >>= λ rs.
            ok (map (key_of schema) rs))
    passed_keys (err e) rows' keys' rest' = refl
    passed_keys (ok passed) (err e) keys' rest' = rw rest' refl
    passed_keys (ok false) (ok rs) keys' rest' = rw rest' refl
    passed_keys (ok true) (ok rs) keys' rest' =
        rw rest' (ap (λ k. ok (k ∷ map (key_of schema) rs)) (sym (h refl row refl)))

pub collect_keys-fetch_loop :
    (schema : TableSchema) (hi : ℤ) (residual : Predicate) (entries : List (ℤ × Bytes))
    → AllKeys IsInt64 entries
    → collect_keys schema hi residual entries
      ≡ (fetch_loop schema hi residual entries >>= λ rows. ok (map (key_of schema) rows))
unfolding collect_keys fetch_loop
collect_keys-fetch_loop schema hi residual [] keys = refl
collect_keys-fetch_loop schema hi residual ((key, payload) ∷ entries) (is_int, keys) =
    round_keys schema key (decode_row schema (decode_row_key key) payload)
      (λ row. matches_predicate schema row residual) (fetch_loop schema hi residual entries)
      (collect_keys schema hi residual entries) (decode_table_id key == schema.table_id)
      (ltb_ℤ hi (decode_row_key key))
      (λ here row h.
        key_of-decode_row schema (decode_row_key key) payload row h
        ∙ ap (λ t. encode_key t (decode_row_key key))
            (sym ((==_iff (decode_table_id key) schema.table_id).0 here))
        ∙ encode_key-decode key is_int)
      (collect_keys-fetch_loop schema hi residual entries keys)
