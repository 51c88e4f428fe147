-- ===== src/Sql/Executor/Point.antt =====
-- The point lookup of `PlanQuery` and `ExecuteFetch` against the meaning of a query.
use mathlib.Core.List.{append_assoc}
use cpp_database_engine.Common.{
  ◌≡◌, ◌≢◌, refl, sym, ap, ◌∙◌, Bool, true, false, some, [], ◌∷◌, ◌++◌, arith, Bool-cases, inl, inr,
  ◌&&◌,
}
use cpp_database_engine.Common.Bytes.{Bytes, eqb_bytes}
use cpp_database_engine.Sql.Error.{Result, ok, ◌>>=◌, >>=-eq-ok}
use cpp_database_engine.Sql.Value.{
  CompareOp, eq_op, lt_op, le_op, gt_op, ge_op, Comparison, Predicate, get_int,
}
use cpp_database_engine.Sql.Schema.{TableSchema}
use cpp_database_engine.Sql.Planner.{Plan, default_plan, point_lookup, is_eq, find_point}
use cpp_database_engine.Sql.Executor.{Row, matches_comparison, matches_predicate}

-- What pass 1 finds: an equation of the primary key, and the other comparisons in order.
pub record Point (pk_name : Bytes) (seen where' : Predicate) (plan : Plan) : Type 0 where
  pub before : Predicate
  pub cmp : Comparison
  pub after : Predicate
  pub split : where' ≡ before ++ cmp ∷ after
  pub names_key : eqb_bytes cmp.column pk_name ≡ true
  pub equates : cmp.op ≡ eq_op
  pub literal : get_int cmp.literal ≡ ok plan.point_key
  pub path : plan.access_path ≡ point_lookup
  pub residual : plan.residual ≡ seen ++ (before ++ after)

eq_of_is_eq : (op : CompareOp) → is_eq op ≡ true → op ≡ eq_op
eq_of_is_eq eq_op h = refl
eq_of_is_eq lt_op h = cc
eq_of_is_eq le_op h = cc
eq_of_is_eq gt_op h = cc
eq_of_is_eq ge_op h = cc

ok_injective : (a b : Plan) → ok a ≡ ok b → a ≡ b
ok_injective a b h = cc

some_injective : (a b : Result Plan) → some a ≡ some b → a ≡ b
some_injective a b h = cc

and_parts : (a b : Bool) → (a && b) ≡ true → (a ≡ true) × (b ≡ true)
and_parts a b h = ground arith

found_here :
    (pk_name : Bytes) (seen : Predicate) (cmp : Comparison) (rest : Predicate) (plan : Plan)
    → (eqb_bytes cmp.column pk_name && is_eq cmp.op) ≡ true
    → (do
      key ← get_int cmp.literal
      ok (record default_plan {
        access_path = point_lookup;
        point_key = key;
        residual = seen ++ rest;
      }))
      ≡ ok plan
    → Point pk_name seen (cmp ∷ rest) plan
found_here pk_name seen cmp rest plan test h =
    let (key, lit, done) = >>=-eq-ok (get_int cmp.literal) _ h in
    let same = ok_injective _ plan done in
    record {
      before = [];
      cmp = cmp;
      after = rest;
      split = refl;
      names_key = (and_parts _ _ test).0;
      equates = eq_of_is_eq cmp.op (and_parts _ _ test).1;
      literal = lit ∙ ap (λ (p : Plan). ok p.point_key) same;
      path = sym (ap (λ (p : Plan). p.access_path) same);
      residual = sym (ap (λ (p : Plan). p.residual) same);
    }

pub find_point-Point :
    (pk_name : Bytes) (seen where' : Predicate) (plan : Plan)
    → find_point pk_name seen where' ≡ some (ok plan)
    → Point pk_name seen where' plan
unfolding find_point
find_point-Point pk_name seen [] plan h = cc
find_point-Point pk_name seen (cmp ∷ rest) plan h =
    elim (Bool-cases (eqb_bytes cmp.column pk_name && is_eq cmp.op)) [
      | inl here ↦ found_here pk_name seen cmp rest plan here (some_injective _ _ (rw here at h))
      | inr later ↦
          let p = find_point-Point pk_name (seen ++ cmp ∷ []) rest plan (rw later at h) in
          record {
            before = cmp ∷ p.before;
            cmp = p.cmp;
            after = p.after;
            split = ap (◌∷◌ cmp) p.split;
            names_key = p.names_key;
            equates = p.equates;
            literal = p.literal;
            path = p.path;
            residual = p.residual ∙ append_assoc seen (cmp ∷ []) (p.before ++ p.after);
          }
    ]

-- A comparison that the row passes can be left out of the clause; one that it fails decides it.
module _ (schema : TableSchema) (row : Row) (cmp : Comparison) where
  pub matches-without :
      (before after : Predicate)
      → matches_comparison schema row cmp ≡ ok true
      → matches_predicate schema row (before ++ cmp ∷ after)
        ≡ matches_predicate schema row (before ++ after)
  unfolding matches_predicate
  matches-without [] after h = rw h
  matches-without (c ∷ before) after h = rw (matches-without before after h)

  pub matches-failing :
      (before after : Predicate)
      → matches_comparison schema row cmp ≡ ok false
      → matches_predicate schema row (before ++ cmp ∷ after) ≢ ok true
  unfolding matches_predicate
  matches-failing [] after h e = cc (rw h at e)
  matches-failing (c ∷ before) after h e = ground (arith, matches-failing before after h)
