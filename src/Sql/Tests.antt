-- ===== src/Sql/Tests.antt =====
-- Concrete tables, rows, queries and keys of the SQL layer.
use cpp_database_engine.Common.{
  ◌+◌, ◌%◌, ◌^◌, ◌≡◌, refl, ◌≢◌, ◌∙◌, sym, Bool, true, false, some, List, [], ◌∷◌, arith, ltb,
  if◌then◌else◌,
}
use cpp_database_engine.Common.Int.{pos, negsuc, int64_max, ltb_ℤ, ◌<ℤ◌}
use cpp_database_engine.Common.Bytes.{Bytes, codes, le_bytes, le_value}
use cpp_database_engine.Common.SortedMap.{lookup}
use cpp_database_engine.Engine.Reference.{Content, reference_engine}
use cpp_database_engine.Sql.Error.{ok}
use cpp_database_engine.Sql.Value.{
  Value, int, text, integer_type, text_type, compare_values, le_op, gt_op, Predicate,
}
use cpp_database_engine.Sql.Keys.{word_of, int_of, encode_key, decode_row_key, decode_table_id}
use cpp_database_engine.Sql.Keys.Order.{
  decode-encode_key, row_key_lt, other_table_of_lt, encode_key-decode,
}
use cpp_database_engine.Sql.Schema.{ColumnDef, TableSchema, column_index, column_index_from, HasKey}
use cpp_database_engine.Sql.Rows.{
  append_integer, append_text, read_integer, read_text, append_value, encode_from, encode_row,
  read_value, decode_from, decode_row,
}
use cpp_database_engine.Sql.Rows.RoundTrip.{decode-encode_row}
use cpp_database_engine.Sql.Catalog.{
  Catalog, empty_catalog, find_table, has_table, get_table, create_table,
}
use cpp_database_engine.Sql.Catalog.Ids.{
  IsValid, create_table-IsValid, create_table-never_exhausted,
}
use cpp_database_engine.Sql.Planner.{
  Plan, point_lookup, range_scan, default_plan, validate_comparison, validate, find_point, Bounds,
  start_bounds, tighten, collect_bounds, plan_query,
}
use cpp_database_engine.Sql.Planner.Range.{Within, collect_bounds-Within}
use cpp_database_engine.Sql.Executor.{
  compare_op_matches, matches_comparison, matches_predicate, fetch_loop, fetch_point, execute_fetch,
}
use cpp_database_engine.Sql.Executor.Typing.{matches_predicate-total}
use cpp_database_engine.Sql.Executor.Select.{matching, Readable}
use cpp_database_engine.Sql.Executor.Plans.{KeyInRange, execute_fetch-matching}
use cpp_database_engine.Sql.Executor.Alias.{execute_fetch-alias}

program : Unit {0}
unfolding word_of int_of encode_key decode_row_key decode_table_id column_index column_index_from
    le_bytes le_value append_integer append_text read_integer read_text append_value encode_from
    encode_row read_value decode_from decode_row find_table has_table get_table create_table
    validate_comparison validate find_point tighten collect_bounds plan_query compare_values
    compare_op_matches matches_comparison matches_predicate fetch_loop fetch_point execute_fetch
program = tt

abbrev id_column : ColumnDef
id_column = record { name = codes "id"; type = integer_type }

abbrev name_column : ColumnDef
name_column = record { name = codes "name"; type = text_type }

abbrev users : TableSchema
users = record { name = codes "users"; table_id = 1; columns = id_column ∷ name_column ∷ [] }

abbrev users-HasKey : HasKey users
users-HasKey = record { key = id_column; rest = name_column ∷ []; shape = refl; is_integer = refl }

abbrev ann : List Value
ann = text (codes "ann") ∷ []

-- 'ann' with its two length bytes
abbrev ann_payload : Bytes
ann_payload = 3 ∷ 0 ∷ 97 ∷ 110 ∷ 110 ∷ []

encode_ann : encode_row users (int (pos 5) ∷ ann) ≡ ok ann_payload
unfolding program
encode_ann = refl

-- row 5 of table 1, and row 0 of table 2
abbrev content : Content
content = record {
  entries = (pos (2 ^ 48 + 5), ann_payload) ∷ (pos (2 ^ 49), []) ∷ [];
  ascending = ((omega arith, tt), (tt, tt));
  keys = ((omega arith, omega arith), ((omega arith, omega arith), tt));
}

content-Readable : Readable users content.entries
unfolding program
content-Readable = ((λ e. (int (pos 5) ∷ ann, refl)), ((λ e. absurd (omega arith)), tt))

abbrev where_range : Predicate
where_range =
    record { column = codes "id"; op = gt_op; literal = int (pos 2) }
    ∷ record { column = codes "name"; op = le_op; literal = text (codes "bob") }
    ∷ []

abbrev range_plan : Plan
range_plan = record default_plan {
  access_path = range_scan;
  range_lo = pos 3;
  range_hi = int64_max;
  residual = where_range;
}

plan_range : plan_query users where_range ≡ ok range_plan
unfolding program
plan_range = refl

range_plan-KeyInRange : KeyInRange range_plan
range_plan-KeyInRange path = cc

execute_fetch-matching_example :
    execute_fetch reference_engine users range_plan content
    ≡ matching users where_range content.entries
execute_fetch-matching_example =
    execute_fetch-matching reference_engine users where_range range_plan content users-HasKey
      (omega arith) content-Readable plan_range range_plan-KeyInRange

-- the query returns the row
fetch_range :
    execute_fetch reference_engine users range_plan content ≡ ok ((int (pos 5) ∷ ann) ∷ [])
unfolding program
fetch_range = refl

decode-encode_row_example : decode_row users (pos 5) ann_payload ≡ ok (int (pos 5) ∷ ann)
decode-encode_row_example = decode-encode_row users (pos 5) ann ann_payload (tt, tt) encode_ann

decode-encode_key_example :
    (decode_table_id (encode_key 1 (pos 5)) ≡ 1) × (decode_row_key (encode_key 1 (pos 5)) ≡ pos 5)
decode-encode_key_example = decode-encode_key 1 5 (omega arith) (omega arith)

table_of_row : decode_table_id (pos (2 ^ 48 + 5)) ≡ 1
unfolding program
table_of_row = refl

table_of_next_row : decode_table_id (pos (2 ^ 48 + 6)) ≡ 1
unfolding program
table_of_next_row = refl

row_key_lt_example :
    ltb_ℤ (decode_row_key (pos (2 ^ 48 + 5))) (decode_row_key (pos (2 ^ 48 + 6)))
    ≡ ltb_ℤ (pos (2 ^ 48 + 5)) (pos (2 ^ 48 + 6))
row_key_lt_example =
    row_key_lt (pos (2 ^ 48 + 5)) (pos (2 ^ 48 + 6)) (omega arith, omega arith)
      (omega arith, omega arith) (table_of_row ∙ sym table_of_next_row)

above_first_key : ¬ (pos (2 ^ 49) <ℤ encode_key 1 (pos 0))
unfolding program
above_first_key h = omega arith

table_two : decode_table_id (pos (2 ^ 49)) ≢ 1
unfolding program
table_two h = omega arith

other_table_of_lt_example : decode_table_id (pos (2 ^ 49 + 1)) ≢ 1
other_table_of_lt_example =
    other_table_of_lt 1 0 (pos (2 ^ 49)) (pos (2 ^ 49 + 1)) (omega arith) (omega arith)
      (omega arith, omega arith) (omega arith, omega arith) above_first_key table_two (omega arith)

encode_key-decode_example :
    encode_key (decode_table_id (negsuc 41)) (decode_row_key (negsuc 41)) ≡ negsuc 41
encode_key-decode_example = encode_key-decode (negsuc 41) (omega arith, omega arith)

abbrev range_bounds : Bounds
range_bounds = record { lo = pos 3; hi = int64_max; found_bound = true }

bounds_range : collect_bounds (codes "id") where_range start_bounds ≡ ok range_bounds
unfolding program
bounds_range = refl

ann_matches : matches_predicate users (int (pos 5) ∷ ann) where_range ≡ ok true
unfolding program
ann_matches = refl

collect_bounds-Within_example : Within range_bounds (pos 5)
collect_bounds-Within_example =
    collect_bounds-Within users users-HasKey (pos 5) ann where_range start_bounds range_bounds
      (omega arith, omega arith) bounds_range ann_matches (omega arith, omega arith)

valid_range : validate users where_range ≡ ok tt
unfolding program
valid_range = refl

matches_predicate-total_example :
    (b : Bool) × (matches_predicate users (int (pos 5) ∷ ann) where_range ≡ ok b)
matches_predicate-total_example =
    matches_predicate-total users (int (pos 5) ∷ ann) where_range (refl, (refl, tt)) valid_range

empty_catalog-IsValid : IsValid empty_catalog
empty_catalog-IsValid = record { below = tt; distinct = tt; room = omega arith }

abbrev first_table : TableSchema
first_table = record { name = codes "users"; table_id = 0; columns = [] }

abbrev one_table : Catalog
one_table = record { tables = (codes "users", first_table) ∷ []; next_table_id = 1 }

create_first : create_table empty_catalog (codes "users") [] ≡ ok (one_table, first_table)
unfolding program
create_first = refl

create_table-IsValid_example :
    IsValid one_table
    × (get_table one_table (codes "users") ≡ ok first_table)
    × ((other : Bytes)
        → other ≢ codes "users"
        → get_table one_table other ≡ get_table empty_catalog other)
create_table-IsValid_example =
    create_table-IsValid empty_catalog one_table (codes "users") [] first_table
      empty_catalog-IsValid (omega arith) create_first

abbrev last_catalog : Catalog
last_catalog = record { tables = []; next_table_id = 65535 }

no_table : has_table last_catalog (codes "users") ≡ false
unfolding program
no_table = refl

create_table-never_exhausted_example :
    (c' : Catalog) × (schema : TableSchema) × (create_table last_catalog (codes "users") []
      ≡ ok (c', schema))
    × (schema.table_id ≡ 65535)
    × (c'.next_table_id ≡ (if ltb 65535 65535 then 65536 else 0))
create_table-never_exhausted_example =
    create_table-never_exhausted last_catalog (codes "users") [] (omega arith) no_table

-- WHERE id = 2 ^ 48 + 5
abbrev alias_plan : Plan
alias_plan = record default_plan { access_path = point_lookup; point_key = pos (2 ^ 48 + 5) }

alias_low : word_of (pos (2 ^ 48 + 5)) % 2 ^ 48 ≡ 5
unfolding program
alias_low = refl

alias_stored : lookup (encode_key 1 (pos 5)) content.entries ≡ some ann_payload
unfolding program
alias_stored = refl

alias_read : decode_row users (pos (2 ^ 48 + 5)) ann_payload ≡ ok (int (pos (2 ^ 48 + 5)) ∷ ann)
unfolding program
alias_read = refl

alias_passes : matches_predicate users (int (pos (2 ^ 48 + 5)) ∷ ann) [] ≡ ok true
unfolding program
alias_passes = refl

execute_fetch-alias_example :
    execute_fetch reference_engine users alias_plan content
    ≡ ok ((int (pos (2 ^ 48 + 5)) ∷ ann) ∷ [])
execute_fetch-alias_example =
    execute_fetch-alias reference_engine users alias_plan content 5 ann_payload
      (int (pos (2 ^ 48 + 5)) ∷ ann) refl (omega arith) alias_low alias_stored alias_read
      alias_passes
