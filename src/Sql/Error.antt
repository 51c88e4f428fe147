-- ===== src/Sql/Error.antt =====
-- sql/sql_exception.h: what the SQL layer throws, and functions that may throw.
use cpp_database_engine.Common.{Bool, true, false, ◌≡◌, refl}

-- One constructor for each `throw SqlException`, and the two faults of the standard library that
-- the code could meet: `std::get` on the wrong alternative, and an index outside a vector.
pub data SqlError : Type 0 where
  no_such_column type_mismatch expects_integer expects_text wrong_arity row_too_long : SqlError
  text_too_long truncated_integer truncated_length truncated_text table_exists : SqlError
  table_ids_exhausted no_such_table key_not_integer key_out_of_range value_too_long : SqlError
  bad_variant_access bad_index : SqlError
  unterminated_string unexpected_character literal_out_of_range : SqlError
  expected_statement trailing_input expected_keyword expected_token : SqlError
  expected_column_type expected_literal expected_operator no_columns first_not_integer : SqlError
  out_of_fuel : SqlError

-- A value, or what was thrown in its place.
pub data Result {ℓ} (T : Type ℓ) : Type ℓ where
  err : SqlError → Result T
  ok : T → Result T

-- `if (!passed) throw thrown;`
abbrev pub guard : (passed : Bool) (thrown : SqlError) → Result (Unit {0})
guard false thrown = err thrown
guard true thrown = ok tt

-- The call after a call that may throw.
infixl 5 ◌>>=◌
abbrev pub ◌>>=◌ {κ ℓ} : {T : Type κ} {U : Type ℓ} → Result T → (T → Result U) → Result U
err thrown >>= next = err thrown
ok value >>= next = next value

infixl 5 ◌>>◌
abbrev pub ◌>>◌ {ℓ} : {U : Type ℓ} → Result (Unit {0}) → Result U → Result U
first >> second = first >>= λ done. second

-- A chain that returns a value has returned one from each of its two calls.
pub >>=-eq-ok {κ ℓ} :
    {T : Type κ} {U : Type ℓ} (first : Result T) (next : T → Result U) {result : U}
    → ◌>>=◌ first next ≡ ok result
    → (value : T) × (first ≡ ok value) × (next value ≡ ok result)
>>=-eq-ok (err thrown) next h = cc
>>=-eq-ok (ok value) next h = (value, refl, h)

pub ok_injective {ℓ} : {T : Type ℓ} (a b : T) → ok a ≡ ok b → a ≡ b
ok_injective a b h = cc
