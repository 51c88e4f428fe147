-- ===== src/Sql/Executor/Typing.antt =====
-- Comparisons that the planner validates never fault on rows that the codec reads.
use Prim.Native.Nat.{Ordering}
use cpp_database_engine.Common.{
  ℕ, zero, suc, ◌≡◌, refl, Bool, true, false, some, List, [], ◌∷◌, arith, get_elem?, drop,
  Option-cases, Bool-cases, inl, inr,
}
use cpp_database_engine.Common.Int.{ℤ}
use cpp_database_engine.Common.Bytes.{Bytes}
use cpp_database_engine.Sql.Error.{ok, >>=-eq-ok}
use cpp_database_engine.Sql.Value.{
  Value, int, text, ColumnType, integer_type, text_type, compare_values, Comparison, Predicate,
}
use cpp_database_engine.Sql.Schema.{ColumnDef, TableSchema, HasKey, column_index}
use cpp_database_engine.Sql.Rows.{read_value, decode_from, decode_row}
use cpp_database_engine.Sql.Planner.{type_fits, validate_comparison, validate}
use cpp_database_engine.Sql.Executor.{
  Row, compare_op_matches, matches_comparison, matches_predicate,
}

-- Each cell has the type of its column.
abbrev pub Fits : List ColumnDef → Row → Type 0
Fits [] [] = Unit
Fits [] (v ∷ row) = ⊥
Fits (c ∷ columns) [] = ⊥
Fits (c ∷ columns) (v ∷ row) = (type_fits c.type v ≡ true) × Fits columns row

read_value-type_fits :
    (type : ColumnType) (payload : Bytes) (offset : ℕ) (v : Value) (next : ℕ)
    → read_value type payload offset ≡ ok (v, next)
    → type_fits type v ≡ true
unfolding read_value
read_value-type_fits integer_type payload offset v next h = ground arith
read_value-type_fits text_type payload offset v next h = ground arith

decode_from-Fits :
    (columns : List ColumnDef) (payload : Bytes) (offset : ℕ) (row : Row)
    → decode_from columns payload offset ≡ ok row
    → Fits columns row
unfolding decode_from
decode_from-Fits [] payload offset [] h = tt
decode_from-Fits [] payload offset (v ∷ row) h = cc
decode_from-Fits (c ∷ columns) payload offset row h =
    let ((v, next), first, h') = >>=-eq-ok (read_value c.type payload offset) _ h in
    let (rest, tail, done) = >>=-eq-ok (decode_from columns payload next) _ h' in
    split v rest row next first (decode_from-Fits columns payload next rest tail) done
  where
    split :
        (v : Value) (rest row : Row) (next : ℕ)
        → read_value c.type payload offset ≡ ok (v, next)
        → Fits columns rest
        → ok (v ∷ rest) ≡ ok row
        → Fits (c ∷ columns) row
    split v rest [] next first fits done = cc
    split v rest (v' ∷ rest') next first fits done =
        let same : v ≡ v' = cc in
        let same' : rest ≡ rest' = cc in
        (rw (← same) (read_value-type_fits c.type payload offset v next first), rw (← same') fits)

pub decode_row-Fits :
    (schema : TableSchema) (k : HasKey schema) (pk : ℤ) (payload : Bytes) (row : Row)
    → decode_row schema pk payload ≡ ok row
    → (cells : Row) × (row ≡ int pk ∷ cells) × Fits schema.columns row
unfolding decode_row
decode_row-Fits schema k pk payload row h =
    let (cells, read, done) = >>=-eq-ok (decode_from (drop 1 schema.columns) payload 0) _ h in
    let shape : row ≡ int pk ∷ cells = cc in
    (
      cells,
      shape,
      rw (shape, k.shape)
          (rw k.is_integer refl, decode_from-Fits k.rest payload 0 cells (rw k.shape at read)),
    )

cell_of_Fits :
    (columns : List ColumnDef) (row : Row) (i : ℕ) (c : ColumnDef)
    → Fits columns row
    → get_elem? columns i ≡ some c
    → (v : Value) × (get_elem? row i ≡ some v) × (type_fits c.type v ≡ true)
cell_of_Fits [] row i c f h = cc
cell_of_Fits (d ∷ columns) [] i c f h = absurd f
cell_of_Fits (d ∷ columns) (v ∷ row) zero c f h =
    let same : d ≡ c = cc in (v, refl, rw (← same) f.0)
cell_of_Fits (d ∷ columns) (v ∷ row) (suc i) c f h = cell_of_Fits columns row i c f.1 h

comparable :
    (type : ColumnType) (v w : Value)
    → type_fits type v ≡ true
    → type_fits type w ≡ true
    → (o : Ordering) × (compare_values v w ≡ ok o)
unfolding compare_values
comparable integer_type (int x) (int y) p q = (_, refl)
comparable integer_type (int x) (text t) p q = cc
comparable integer_type (text s) w p q = cc
comparable text_type (text s) (text t) p q = (_, refl)
comparable text_type (text s) (int y) p q = cc
comparable text_type (int x) w p q = cc

pub matches_comparison-total :
    (schema : TableSchema) (row : Row) (cmp : Comparison)
    → Fits schema.columns row
    → validate_comparison schema cmp ≡ ok tt
    → (b : Bool) × (matches_comparison schema row cmp ≡ ok b)
unfolding validate_comparison matches_comparison
matches_comparison-total schema row cmp f h = elim (Option-cases (column_index schema cmp.column)) [
  | inl miss ↦ absurd (ground arith)
  | inr (i, hit) ↦ elim (Option-cases (get_elem? schema.columns i)) [
    | inl out ↦ absurd (ground arith)
    | inr (c, found) ↦
        let (v, cell, vt) = cell_of_Fits schema.columns row i c f found in
        let (o, order) = comparable c.type v cmp.literal vt (ground arith) in
        (compare_op_matches cmp.op o, ground arith)
  ]
]

-- On a row whose cells have the types of the columns, a clause that the planner has validated is
-- true or false: it throws nothing.
pub matches_predicate-total :
    (schema : TableSchema) (row : Row) (where' : Predicate)
    → Fits schema.columns row
    → validate schema where' ≡ ok tt
    → (b : Bool) × (matches_predicate schema row where' ≡ ok b)
unfolding validate matches_predicate
matches_predicate-total schema row [] f h = (true, refl)
matches_predicate-total schema row (cmp ∷ rest) f h =
    let (u, first, later) = >>=-eq-ok (validate_comparison schema cmp) _ h in
    let (b, e) = matches_comparison-total schema row cmp f first in
    let (b', e') = matches_predicate-total schema row rest f later in
    elim (Bool-cases b) [ inl yes' ↦ (b', rw (e, yes') e') | inr no' ↦ (false, rw (e, no')) ]
