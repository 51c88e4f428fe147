-- ===== src/Sql/Value.antt =====
-- sql/value.h and the comparison part of sql/ast.h.
use Prim.Native.Nat.{Ordering}
use cpp_database_engine.Common.{Bool, true, false, List, if◌then◌else◌}
use cpp_database_engine.Common.Int.{ℤ, ltb_ℤ}
use cpp_database_engine.Common.Bytes.{Bytes, ltb_bytes}
use cpp_database_engine.Sql.Error.{Result, ok, err, bad_variant_access}

-- `std::variant<int64_t, std::string>`
pub data Value : Type 0 where
  int : ℤ → Value
  text : Bytes → Value

pub data ColumnType : Type 0 where
  integer_type text_type : ColumnType

-- The results -1, 0 and 1 of `CompareValues` are `lt`, `eq` and `gt`. The second `std::get` throws
-- where the two values hold different types.
unfoldable pub compare_values : Value → Value → Result Ordering
compare_values (int x) (int y) =
    ok (if ltb_ℤ x y then Ordering.lt else if ltb_ℤ y x then Ordering.gt else Ordering.eq)
compare_values (text x) (text y) =
    ok (if ltb_bytes x y then Ordering.lt else if ltb_bytes y x then Ordering.gt else Ordering.eq)
compare_values (int x) (text y) = err bad_variant_access
compare_values (text x) (int y) = err bad_variant_access

pub data CompareOp : Type 0 where
  eq_op lt_op le_op gt_op ge_op : CompareOp

pub record Comparison : Type 0 where
  pub column : Bytes
  pub op : CompareOp
  pub literal : Value

abbrev pub Predicate : Type 0
Predicate = List Comparison

-- `std::get<int64_t>`
abbrev pub get_int : Value → Result ℤ
get_int (int v) = ok v
get_int (text s) = err bad_variant_access

abbrev pub holds_int : Value → Bool
holds_int (int v) = true
holds_int (text s) = false
