-- ===== src/Sql/Planner.antt =====
-- sql/planner.h and sql/planner.cpp: the choice of an access path.
pub mod Range
use cpp_database_engine.Common.{
  ℕ, Bool, true, false, Option, none, some, List, [], ◌∷◌, ◌++◌, get_elem?, if◌then◌else◌, ◌&&◌,
}
use cpp_database_engine.Common.Int.{
  ℤ, pos, negsuc, pred_ℤ, suc_ℤ, min_ℤ, max_ℤ, eqb_ℤ, int64_max, int64_min,
}
use cpp_database_engine.Common.Bytes.{Bytes, eqb_bytes}
use cpp_database_engine.Sql.Error.{
  Result, ok, err, ◌>>=◌, ◌>>◌, guard, no_such_column, type_mismatch, bad_index,
}
use cpp_database_engine.Sql.Value.{
  Value, ColumnType, integer_type, text_type, CompareOp, eq_op, lt_op, le_op, gt_op, ge_op,
  Comparison, Predicate, get_int, holds_int,
}
use cpp_database_engine.Sql.Schema.{ColumnDef, TableSchema, column_index}

pub data AccessPathType : Type 0 where
  point_lookup range_scan full_scan : AccessPathType

pub record Plan : Type 0 where
  pub access_path : AccessPathType
  pub point_key : ℤ
  pub range_lo : ℤ
  pub range_hi : ℤ
  pub residual : Predicate

-- `Plan plan;` with its default member initializers.
abbrev pub default_plan : Plan
default_plan = record {
  access_path = full_scan;
  point_key = pos 0;
  range_lo = pos 0;
  range_hi = int64_max;
  residual = [];
}

-- `(col_type == ColumnType::INTEGER) == literal_is_int`
abbrev pub type_fits : ColumnType → Value → Bool
type_fits integer_type v = holds_int v
type_fits text_type v = if holds_int v then false else true

abbrev pub column_at : List ColumnDef → ℕ → Result ColumnDef
column_at columns i = elim (get_elem? columns i) [ none ↦ err bad_index | some c ↦ ok c ]

unfoldable pub validate_comparison : TableSchema → Comparison → Result (Unit {0})
validate_comparison schema cmp = elim (column_index schema cmp.column) [
  | none ↦ err no_such_column
  | some idx ↦ do
    c ← column_at schema.columns idx
    guard (type_fits c.type cmp.literal) type_mismatch
]

unfoldable pub validate : TableSchema → Predicate → Result (Unit {0})
validate schema [] = ok tt
validate schema (cmp ∷ where') = do validate_comparison schema cmp; validate schema where'

abbrev pub is_eq : CompareOp → Bool
is_eq eq_op = true
is_eq _ = false

-- Pass 1: the first EQ on the primary key, with the comparisons `seen` before it and those after
-- it as the residual. `none` means that the loop ends without a return.
unfoldable pub find_point : Bytes → Predicate → Predicate → Option (Result Plan)
find_point pk_name seen [] = none
find_point pk_name seen (cmp ∷ rest) =
    if eqb_bytes cmp.column pk_name && is_eq cmp.op
    then some (do
      key ← get_int cmp.literal
      ok (record default_plan {
        access_path = point_lookup;
        point_key = key;
        residual = seen ++ rest;
      }))
    else find_point pk_name (seen ++ cmp ∷ []) rest

pub record Bounds : Type 0 where
  pub lo : ℤ
  pub hi : ℤ
  pub found_bound : Bool

-- The `switch` of pass 2 on a comparison of the primary key with `v`.
unfoldable pub tighten : CompareOp → ℤ → Bounds → Bounds
tighten lt_op v b = record b {
  hi = min_ℤ b.hi (if eqb_ℤ v int64_min then v else pred_ℤ v);
  found_bound = true;
}
tighten le_op v b = record b { hi = min_ℤ b.hi v; found_bound = true }
tighten gt_op v b = record b {
  lo = max_ℤ b.lo (if eqb_ℤ v int64_max then v else suc_ℤ v);
  found_bound = true;
}
tighten ge_op v b = record b { lo = max_ℤ b.lo v; found_bound = true }
tighten eq_op v b = b

-- Pass 2.
unfoldable pub collect_bounds : Bytes → Predicate → Bounds → Result Bounds
collect_bounds pk_name [] b = ok b
collect_bounds pk_name (cmp ∷ rest) b =
    if eqb_bytes cmp.column pk_name
    then (do v ← get_int cmp.literal; collect_bounds pk_name rest (tighten cmp.op v b))
    else collect_bounds pk_name rest b

abbrev pub range_or_full : Predicate → Bounds → Plan
range_or_full where' b =
    if b.found_bound
    then record default_plan {
      access_path = range_scan;
      range_lo = max_ℤ b.lo (pos 0);
      range_hi = b.hi;
      residual = where';
    }
    else record default_plan { residual = where' }

abbrev pub start_bounds : Bounds
start_bounds = record { lo = pos 0; hi = int64_max; found_bound = false }

unfoldable pub plan_query : TableSchema → Predicate → Result Plan
plan_query schema where' = do
  validate schema where'
  pk ← column_at schema.columns 0
  elim (find_point pk.name [] where') [
    | some plan ↦ plan
    | none ↦ do b ← collect_bounds pk.name where' start_bounds; ok (range_or_full where' b)
  ]
