-- ===== src/Sql/Executor/Delete/Collected.antt =====
-- The keys that `ExecuteDelete` (sql/executor.cpp) collects are there, once each.
use cpp_database_engine.Common.{
  ◌≡◌, refl, sym, subst, ◌⊎◌, ◌∙◌, Bool, true, false, none, some, List, [], ◌∷◌, inl, inr, arith,
  ◌==◌, if◌then◌else◌, Bool-cases, All,
}
use cpp_database_engine.Common.Int.{eqb_ℤ_iff, ℤ, ltb_ℤ, eqb_ℤ, ◌<ℤ◌}
use cpp_database_engine.Common.Bytes.{Bytes}
use cpp_database_engine.Common.SortedMap.{lookup, erase, from, Above, Ascending}
use cpp_database_engine.Sql.Error.{Result, ok, err, ◌>>=◌}
use cpp_database_engine.Sql.Value.{Predicate}
use cpp_database_engine.Sql.Keys.{decode_row_key, decode_table_id}
use cpp_database_engine.Sql.Schema.{TableSchema}
use cpp_database_engine.Sql.Rows.{decode_row}
use cpp_database_engine.Sql.Executor.{Row, matches_predicate}
use cpp_database_engine.Sql.Executor.Delete.{collect_keys}

-- The content without the entries of some keys.
abbrev pub erase_all : List ℤ → List (ℤ × Bytes) → List (ℤ × Bytes)
erase_all [] m = m
erase_all (k ∷ ks) m = erase_all ks (erase k m)

abbrev pub HasKey : List (ℤ × Bytes) → ℤ → Type 0
HasKey [] k = ⊥
HasKey ((j, v) ∷ m) k = (j ≡ k) ⊎ HasKey m k

abbrev pub StrictKeys : List ℤ → Type 0
StrictKeys [] = Unit
StrictKeys (k ∷ ks) = All (λ j. k <ℤ j) ks × StrictKeys ks

pub All-map : {P Q : ℤ → Type 0} (ks : List ℤ) → ((k : ℤ) → P k → Q k) → All P ks → All Q ks
All-map [] f a = tt
All-map (k ∷ ks) f (p, a) = (f k p, All-map ks f a)

pub HasKey-Above : (k j : ℤ) (m : List (ℤ × Bytes)) → Above k m → HasKey m j → k <ℤ j
HasKey-Above k j [] a h = absurd h
HasKey-Above k j ((i, w) ∷ m) (lt, a) (inl e) = subst (λ x. k <ℤ x) e lt
HasKey-Above k j ((i, w) ∷ m) (lt, a) (inr h) = HasKey-Above k j m a h

pub HasKey-if :
    (j : ℤ) (m n : List (ℤ × Bytes)) (b : Bool)
    → (b ≡ true → HasKey m j)
    → (b ≡ false → HasKey n j)
    → HasKey (if b then m else n) j
HasKey-if j m n true f g = f refl
HasKey-if j m n false f g = g refl

pub of_HasKey-if :
    (j : ℤ) (m n : List (ℤ × Bytes)) (b : Bool)
    → HasKey (if b then m else n) j
    → HasKey m j ⊎ HasKey n j
of_HasKey-if j m n true h = inl h
of_HasKey-if j m n false h = inr h

pub HasKey-from : (k j : ℤ) (m : List (ℤ × Bytes)) → HasKey (from k m) j → HasKey m j
HasKey-from k j [] h = h
HasKey-from k j ((i, w) ∷ m) h = elim (of_HasKey-if j (from k m) ((i, w) ∷ m) (ltb_ℤ i k) h) [
  | inl later ↦ inr (HasKey-from k j m later)
  | inr here ↦ here
]

pub irreflexive : (k j : ℤ) → k <ℤ j → ¬ (k ≡ j)
irreflexive k j lt e = let same : j <ℤ j = subst (λ x. x <ℤ j) e lt in omega arith

pub HasKey-erase : (k j : ℤ) (m : List (ℤ × Bytes)) → k <ℤ j → HasKey m j → HasKey (erase k m) j
HasKey-erase k j [] lt h = h
HasKey-erase k j ((i, w) ∷ m) lt (inl e) =
    HasKey-if j m ((i, w) ∷ erase k m) (eqb_ℤ i k)
      (λ same. absurd (irreflexive k j lt (sym ((eqb_ℤ_iff i k).0 same) ∙ e))) (λ other. inl e)
HasKey-erase k j ((i, w) ∷ m) lt (inr h) =
    HasKey-if j m ((i, w) ∷ erase k m) (eqb_ℤ i k) (λ same. h)
      (λ other. inr (HasKey-erase k j m lt h))

-- A key that is there is found, and looked up.
pub found_of_HasKey :
    (k : ℤ) (m : List (ℤ × Bytes))
    → HasKey m k
    → elim (lookup k m) as (λ o. Bool) [ none ↦ false | some _ ↦ true ] ≡ true
found_of_HasKey k ((i, w) ∷ m) (inl e) = rw ((eqb_ℤ_iff i k).1 e) refl
found_of_HasKey k ((i, w) ∷ m) (inr h) = elim (Bool-cases (eqb_ℤ i k)) [
  | inl same ↦ rw same refl
  | inr other ↦ rw other (found_of_HasKey k m h)
]
found_of_HasKey k [] h = absurd h

-- Collected keys are keys of the entries, in strictly ascending order.
abbrev pub Picked : List (ℤ × Bytes) → Result (List ℤ) → Type 0
Picked entries (err e) = Unit
Picked entries (ok keys) = All (HasKey entries) keys × StrictKeys keys

-- One round of the loop.
pub round-Picked :
    (key : ℤ) (payload : Bytes) (entries : List (ℤ × Bytes)) (found : Result Row)
    (test : Row → Result Bool) (keys : Result (List ℤ)) (here over : Bool)
    → Above key entries
    → Picked entries keys
    → Picked ((key, payload) ∷ entries) (
        if here
        then (if over
            then ok []
            else (found >>= λ row.
                test row >>= λ passed. keys >>= λ ks. ok (if passed then key ∷ ks else ks)))
        else ok [])
round-Picked key payload entries found test keys false over above rest = (tt, tt)
round-Picked key payload entries found test keys true true above rest = (tt, tt)
round-Picked key payload entries (err e) test keys true false above rest = tt
round-Picked key payload entries (ok row) test keys true false above rest =
    test_picked (test row) keys rest
  where
    test_picked :
        (answer : Result Bool) (keys' : Result (List ℤ))
        → Picked entries keys'
        → Picked
            ((key, payload) ∷ entries)
            (answer >>= λ passed. keys' >>= λ ks. ok (if passed then key ∷ ks else ks))
    test_picked (err e) keys' rest' = tt
    test_picked (ok passed) (err e) rest' = tt
    test_picked (ok false) (ok ks) (there, strict) = (All-map ks (λ k h. inr h) there, strict)
    test_picked (ok true) (ok ks) (there, strict) = (
      (inl refl, All-map ks (λ k h. inr h) there),
      (All-map ks (λ k h. HasKey-Above key k entries above h) there, strict),
    )

pub collect_keys-Picked :
    (schema : TableSchema) (hi : ℤ) (residual : Predicate) (entries : List (ℤ × Bytes))
    → Ascending entries
    → Picked entries (collect_keys schema hi residual entries)
unfolding collect_keys
collect_keys-Picked schema hi residual [] s = (tt, tt)
collect_keys-Picked schema hi residual ((key, payload) ∷ entries) (above, s) =
    round-Picked key payload entries (decode_row schema (decode_row_key key) payload)
      (λ row. matches_predicate schema row residual) (collect_keys schema hi residual entries)
      (decode_table_id key == schema.table_id) (ltb_ℤ hi (decode_row_key key)) above
      (collect_keys-Picked schema hi residual entries s)
