-- ===== src/Sql/Database/Tests.antt =====
-- A database with one table, an INSERT, a SELECT and a DELETE.
use cpp_database_engine.Sql.Database.Message.{reported, select-delete_count}
use cpp_database_engine.Common.{◌≡◌, refl, true, subst, inl, inr, [], ◌∷◌, arith}
use cpp_database_engine.Common.Int.{pos}
use cpp_database_engine.Common.Bytes.{Bytes, codes, le_bytes, le_value}
use cpp_database_engine.Engine.Reference.{reference_engine, AllKeys-insert, accepts-IsInt64}
use cpp_database_engine.Common.SortedMap.{insert-Ascending}
use cpp_database_engine.Sql.Error.{ok}
use cpp_database_engine.Sql.Value.{int, text, integer_type, text_type}
use cpp_database_engine.Sql.Keys.{word_of, int_of, encode_key, decode_row_key, decode_table_id}
use cpp_database_engine.Sql.Schema.{ColumnDef, TableSchema, HasKey}
use cpp_database_engine.Sql.Rows.{
  append_integer, append_text, append_value, encode_from, encode_row, read_integer, read_text,
  read_value, decode_from, decode_row,
}
use cpp_database_engine.Sql.Catalog.{Catalog, find_table, get_table}
use cpp_database_engine.Sql.Syntax.{InsertStmt, SelectStmt, insert_stmt}
use cpp_database_engine.Sql.Planner.{default_plan, validate, find_point, collect_bounds, plan_query}
use cpp_database_engine.Sql.Executor.{matches_predicate, fetch_loop, execute_fetch}
use cpp_database_engine.Sql.Executor.Delete.{execute_delete}
use cpp_database_engine.Sql.Executor.Delete.Counted.{after, expected, execute_delete-execute_fetch}
use cpp_database_engine.Sql.Database.{
  digits_of, to_string, indices_from, projection_of, project, project_rows, Database, QueryResult,
  primary_key, store, execute_insert, execute_select, execute_delete_stmt, execute_statement,
  summary,
}
use cpp_database_engine.Sql.Database.Valid.{IsTable, IsValid}
use cpp_database_engine.Sql.Database.Preserve.{execute_statement-IsValid}
use cpp_database_engine.Sql.Database.ReadBack.{select_key, one_row, select-insert}

program : Unit {0}
unfolding word_of int_of encode_key decode_row_key decode_table_id le_bytes le_value append_integer
    append_text append_value encode_from encode_row find_table get_table primary_key store
    execute_insert execute_statement execute_select plan_query validate find_point collect_bounds
    execute_fetch fetch_loop matches_predicate decode_row decode_from read_value read_integer
    read_text projection_of indices_from project project_rows to_string digits_of
program = tt

abbrev id_column : ColumnDef
id_column = record { name = codes "id"; type = integer_type }

abbrev name_column : ColumnDef
name_column = record { name = codes "name"; type = text_type }

abbrev users : TableSchema
users = record { name = codes "users"; table_id = 0; columns = id_column ∷ name_column ∷ [] }

abbrev catalog : Catalog
catalog = record { tables = (codes "users", users) ∷ []; next_table_id = 1 }

abbrev before : Database reference_engine
before = record { catalog = catalog; content = record { entries = []; ascending = tt; keys = tt } }

users-HasKey : (schema : TableSchema) → IsTable schema catalog.tables → HasKey schema
users-HasKey schema (inl e) =
    subst HasKey e
      (record { key = id_column; rest = name_column ∷ []; shape = refl; is_integer = refl })
users-HasKey schema (inr h) = absurd h

before-IsValid : IsValid before
before-IsValid = record {
  ids = record { below = (omega arith, tt); distinct = (refl, tt, tt); room = omega arith };
  keyed = users-HasKey;
  owned = tt;
  readable = λ schema h. tt;
}

abbrev insert_ann : InsertStmt
insert_ann = record { table_name = codes "users"; values = int (pos 5) ∷ text (codes "ann") ∷ [] }

abbrev ann_payload : Bytes
ann_payload = 3 ∷ 0 ∷ 97 ∷ 110 ∷ 110 ∷ []

abbrev with_ann : Database reference_engine
with_ann = record {
  catalog = catalog;
  content = record {
    entries = (pos 5, ann_payload) ∷ [];
    ascending = insert-Ascending (pos 5) ann_payload [] tt;
    keys = AllKeys-insert (pos 5) ann_payload [] (accepts-IsInt64 (pos 5) ann_payload refl) tt;
  };
}

abbrev one_inserted : QueryResult
one_inserted = summary 1 (codes "INSERT 1")

inserted :
    execute_statement reference_engine (insert_stmt insert_ann) before ≡ ok (with_ann, one_inserted)
unfolding program
inserted = refl

inserted_directly : execute_insert reference_engine insert_ann before ≡ ok (with_ann, one_inserted)
unfolding program
inserted_directly = refl

execute_statement-IsValid_example : IsValid with_ann
execute_statement-IsValid_example =
    execute_statement-IsValid reference_engine (insert_stmt insert_ann) before with_ann one_inserted
      ((omega arith, omega arith), (tt, tt)) (omega arith) before-IsValid inserted

table_found : get_table catalog (codes "users") ≡ ok users
unfolding program
table_found = refl

key_accepted : primary_key insert_ann.values ≡ ok (pos 5)
unfolding program
key_accepted = refl

select-insert_example :
    execute_select reference_engine (select_key (codes "users") id_column (pos 5)) with_ann
    ≡ ok (with_ann, one_row users insert_ann.values)
select-insert_example =
    select-insert reference_engine insert_ann before with_ann one_inserted users id_column
      (name_column ∷ []) (pos 5) before-IsValid ((omega arith, omega arith), (tt, tt))
      inserted_directly table_found refl key_accepted

execute_delete-execute_fetch_example :
    after reference_engine (execute_delete reference_engine users default_plan with_ann.content)
    ≡ expected reference_engine users
        ((pos 5, ann_payload) ∷ [])
        (execute_fetch reference_engine users default_plan with_ann.content)
execute_delete-execute_fetch_example =
    execute_delete-execute_fetch reference_engine users default_plan with_ann.content

-- SELECT * FROM users
abbrev select_all : SelectStmt
select_all = record {
  table_name = codes "users";
  select_star = true;
  columns = [];
  where_clause = [];
}

abbrev one_selected : QueryResult
one_selected = one_row users insert_ann.values

selected : execute_select reference_engine select_all with_ann ≡ ok (with_ann, one_selected)
unfolding program
selected = refl

select-delete_count_example :
    (one_selected.rows_affected ≡ 1)
    × ((reported one_selected ≡ 1)
        × ((after_delete : Database reference_engine) × ((deleted : QueryResult)
              × ((execute_delete_stmt reference_engine
                      (record { table_name = codes "users"; where_clause = [] })
                      with_ann
                    ≡ ok (after_delete, deleted))
                  × ((deleted.rows_affected ≡ 1) × (reported deleted ≡ 1))))))
select-delete_count_example =
    select-delete_count reference_engine select_all with_ann with_ann one_selected selected
