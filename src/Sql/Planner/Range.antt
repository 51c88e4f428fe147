-- ===== src/Sql/Planner/Range.antt =====
-- The range that pass 2 of `PlanQuery` collects holds the key of every row that passes.
use Prim.Native.Nat.{Ordering}
use cpp_database_engine.Common.{
  ◌≡◌, refl, ap, sym, ◌∙◌, some, Bool, true, false, List, [], ◌∷◌, arith, if◌then◌else◌, Bool-cases,
  inl, inr,
}
use cpp_database_engine.Common.Int.{ℤ, ◌≤ℤ◌, ltb_ℤ, IsInt64}
use cpp_database_engine.Common.Bytes.{Bytes, eqb_bytes, eqb_bytes_iff}
use cpp_database_engine.Sql.Error.{ok, >>=-eq-ok}
use cpp_database_engine.Sql.Value.{
  Value, int, text, compare_values, CompareOp, eq_op, lt_op, le_op, gt_op, ge_op, Comparison,
  Predicate, get_int,
}
use cpp_database_engine.Sql.Schema.{ColumnDef, TableSchema, HasKey, column_index, column_index_from}
use cpp_database_engine.Sql.Planner.{Bounds, tighten, collect_bounds}
use cpp_database_engine.Sql.Executor.{
  Row, compare_op_matches, matches_comparison, matches_predicate,
}

abbrev pub order_of : ℤ → ℤ → Ordering
order_of x y = if ltb_ℤ x y then Ordering.lt else if ltb_ℤ y x then Ordering.gt else Ordering.eq

abbrev pub Within : Bounds → ℤ → Type 0
Within b p = (b.lo ≤ℤ p) × (p ≤ℤ b.hi)

tighten-Within :
    (op : CompareOp) (v p : ℤ) (b : Bounds)
    → IsInt64 p
    → compare_op_matches op (order_of p v) ≡ true
    → Within b p
    → Within (tighten op v b) p
unfolding compare_op_matches tighten
tighten-Within eq_op v p b i m w = w
tighten-Within lt_op v p b i m w = ground arith
tighten-Within le_op v p b i m w = ground arith
tighten-Within gt_op v p b i m w = ground arith
tighten-Within ge_op v p b i m w = ground arith

column_index-key :
    (schema : TableSchema) (k : HasKey schema) (name : Bytes)
    → eqb_bytes k.key.name name ≡ true
    → column_index schema name ≡ some 0
unfolding column_index
column_index-key schema k name h =
    ap (λ (columns : List ColumnDef). column_index_from 0 columns name) k.shape ∙ rw h

get_int-eq-ok : (w : Value) (v : ℤ) → get_int w ≡ ok v → w ≡ int v
get_int-eq-ok (int x) v h = cc
get_int-eq-ok (text s) v h = cc

-- A comparison of the primary key that a row passes, as an order of integers.
pub key_comparison :
    (schema : TableSchema) (k : HasKey schema) (p v : ℤ) (cells : Row) (cmp : Comparison)
    → eqb_bytes cmp.column k.key.name ≡ true
    → get_int cmp.literal ≡ ok v
    → matches_comparison schema (int p ∷ cells) cmp ≡ ok (compare_op_matches cmp.op (order_of p v))
unfolding matches_comparison compare_values
key_comparison schema k p v cells cmp named lit =
    let name : cmp.column ≡ k.key.name = (eqb_bytes_iff cmp.column k.key.name).0 named in
    let first : eqb_bytes k.key.name cmp.column ≡ true =
      (eqb_bytes_iff k.key.name cmp.column).1 (sym name) in
    let value : cmp.literal ≡ int v = get_int-eq-ok cmp.literal v lit in
    ground (arith, column_index-key schema k cmp.column first)

-- For a row whose first value is a 64-bit primary key within the bounds that pass 2 starts from: if
-- the row satisfies the clause, its key is within the bounds that pass 2 collects from the clause.
pub collect_bounds-Within :
    (schema : TableSchema) (k : HasKey schema) (p : ℤ) (cells : Row) (where' : Predicate)
    (b b' : Bounds)
    → IsInt64 p
    → collect_bounds k.key.name where' b ≡ ok b'
    → matches_predicate schema (int p ∷ cells) where' ≡ ok true
    → Within b p
    → Within b' p
unfolding collect_bounds matches_predicate
collect_bounds-Within schema k p cells [] b b' i h m w = let same : b ≡ b' = cc in rw (← same) w
collect_bounds-Within schema k p cells (cmp ∷ rest) b b' i h m w =
    elim (Bool-cases (eqb_bytes cmp.column k.key.name)) [
      | inl named ↦
          let (v, lit, h') = >>=-eq-ok (get_int cmp.literal) _ (rw named at h) in
          let (passed, first, later) =
            >>=-eq-ok (matches_comparison schema (int p ∷ cells) cmp) _ m in
          let both = key_comparison schema k p v cells cmp named lit in
          let (yes', later') = passes passed later in
          collect_bounds-Within schema k p cells rest (tighten cmp.op v b) b' i h' later'
            (tighten-Within cmp.op v p b i (ground arith) w)
      | inr other ↦
          let (passed, first, later) =
            >>=-eq-ok (matches_comparison schema (int p ∷ cells) cmp) _ m in
          let (yes', later') = passes passed later in
          collect_bounds-Within schema k p cells rest b b' i (rw other at h) later' w
    ]
  where
    passes :
        (passed : Bool)
        → (if passed then matches_predicate schema (int p ∷ cells) rest else ok false) ≡ ok true
        → (passed ≡ true) × (matches_predicate schema (int p ∷ cells) rest ≡ ok true)
    passes true h = (refl, h)
    passes false h = cc
