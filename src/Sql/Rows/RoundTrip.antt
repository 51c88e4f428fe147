-- ===== src/Sql/Rows/RoundTrip.antt =====
-- Rows are read back as they were written (`EncodeRow`, `DecodeRow` of sql/catalog.cpp).
use mathlib.Core.List.{append_assoc, append-nil}
use cpp_database_engine.Common.{
  ℕ, suc, ◌+◌, ◌-◌, ◌%◌, ◌^◌, ◌≤◌, ◌≡◌, refl, ap, ◌∙◌, List, [], ◌∷◌, ◌++◌, arith, length, take,
  drop, length-append, drop-length-append, take-length-append, leb, true, ◌==◌,
}
use cpp_database_engine.Common.Int.{ℤ, IsInt64}
use cpp_database_engine.Common.Bytes.{Bytes, le_bytes, le_value, length-le_bytes, le_value-le_bytes}
use cpp_database_engine.Sql.Error.{ok, >>=-eq-ok, guard, wrong_arity}
use cpp_database_engine.Sql.Value.{Value, int, text, ColumnType, integer_type, text_type}
use cpp_database_engine.Sql.Keys.{word_of, word_of-lt, int_of-word_of}
use cpp_database_engine.Sql.Schema.{ColumnDef, TableSchema}
use cpp_database_engine.Sql.Rows.{
  append_integer, append_text, read_integer, read_text, append_value, read_value, encode_from,
  encode_row, decode_from, decode_row,
}

-- A value as the program holds it: an integer has 64 bits.
abbrev pub IsStorable : Value → Type 0
IsStorable (int v) = IsInt64 v
IsStorable (text s) = Unit

abbrev pub AllStorable : List Value → Type 0
AllStorable [] = Unit
AllStorable (v ∷ values) = IsStorable v × AllStorable values

-- What stands at an offset behind a prefix of that length.
drop-field :
    (before field after : Bytes)
    → drop (length before) ((before ++ field) ++ after) ≡ field ++ after
drop-field before field after =
    rw (append_assoc before field after) (drop-length-append before (field ++ after))

take-field : (n : ℕ) (field after : Bytes) → length field ≡ n → take n (field ++ after) ≡ field
take-field n field after e = rw (← e) (take-length-append field after)

field-fits :
    (n : ℕ) (before field after : Bytes)
    → length field ≡ n
    → leb (length before + n) (length ((before ++ field) ++ after)) ≡ true
field-fits n before field after e =
    ground (arith, length-append (before ++ field) after, length-append before field)

read-append_integer :
    (before after : Bytes) (v : ℤ)
    → IsInt64 v
    → read_integer (append_integer before v ++ after) (length before) ≡ ok (v, length before + 8)
unfolding read_integer append_integer
read-append_integer before after v h =
    let field = le_bytes 8 (word_of v) in
    rw (
      field-fits 8 before field after (length-le_bytes 8 (word_of v)),
      drop-field before field after,
      take-field 8 field after (length-le_bytes 8 (word_of v)),
      le_value-le_bytes 8 (word_of v) (word_of-lt v),
      int_of-word_of v h,
    )

drop-text :
    (n : ℕ) (before pre s after : Bytes)
    → length pre ≡ n
    → drop (length before + n) (((before ++ pre) ++ s) ++ after) ≡ s ++ after
drop-text n before pre s after e =
    let total : length before + n ≡ length (before ++ pre) =
      omega (arith, length-append before pre, e) in
    rw total (drop-field (before ++ pre) s after)

-- The bytes before the text of a TEXT field.
abbrev length_prefix : Bytes → Bytes
length_prefix s = le_bytes 2 (length s % 2 ^ 16)

append_text-eq-ok :
    (before s out : Bytes)
    → append_text before s ≡ ok out
    → (out ≡ (before ++ length_prefix s) ++ s) × (length s ≤ 0xFFFF)
unfolding append_text
append_text-eq-ok before s out h = ground arith

module _ (before pre s after : Bytes) (two : length pre ≡ 2) where
  text-layout : ((before ++ pre) ++ s) ++ after ≡ (before ++ pre) ++ (s ++ after)
  text-layout = append_assoc (before ++ pre) s after

  text-fits :
      (leb (length before + 2) (length (((before ++ pre) ++ s) ++ after)) ≡ true)
      × (leb (length before + 2 + length s) (length (((before ++ pre) ++ s) ++ after)) ≡ true)
  text-fits = ground (
    arith,
    length-append ((before ++ pre) ++ s) after,
    length-append (before ++ pre) s,
    length-append before pre,
  )

  take-length_prefix : take 2 (drop (length before) (((before ++ pre) ++ s) ++ after)) ≡ pre
  take-length_prefix =
      rw (text-layout, drop-field before pre (s ++ after), take-field 2 pre (s ++ after) two)

read-append_text :
    (before s after : Bytes)
    → length s ≤ 0xFFFF
    → read_text (((before ++ length_prefix s) ++ s) ++ after) (length before)
      ≡ ok (s, length before + 2 + length s)
unfolding read_text
read-append_text before s after fits =
    let pre = length_prefix s in
    let two : length pre ≡ 2 = length-le_bytes 2 (length s % 2 ^ 16) in
    let small : length s % 2 ^ 16 ≡ length s = omega arith in
    let len : le_value pre ≡ length s =
      le_value-le_bytes 2 (length s % 2 ^ 16) (omega arith) ∙ small in
    rw (
      (text-fits before pre s after two).0,
      take-length_prefix before pre s after two,
      len,
      (text-fits before pre s after two).1,
      drop-text 2 before pre s after two,
      take-field (length s) s after refl,
    )

length-append_integer :
    (before : Bytes) (v : ℤ) → length (append_integer before v) ≡ length before + 8
unfolding append_integer
length-append_integer before v =
    omega (arith, length-append before (le_bytes 8 (word_of v)), length-le_bytes 8 (word_of v))

length-text :
    (before s : Bytes) → length ((before ++ length_prefix s) ++ s) ≡ length before + 2 + length s
length-text before s = omega (
  arith,
  length-append (before ++ length_prefix s) s,
  length-append before (length_prefix s),
  length-le_bytes 2 (length s % 2 ^ 16),
)

-- What one round of the writer appends, one round of the reader takes off.
record Reads (type : ColumnType) (v : Value) (before out : Bytes) : Type 0 where
  field : Bytes
  appended : out ≡ before ++ field
  reads : (after : Bytes) → read_value type (out ++ after) (length before) ≡ ok (v, length out)

read-append_value :
    (type : ColumnType) (v : Value) (before out : Bytes)
    → IsStorable v
    → append_value type v before ≡ ok out
    → Reads type v before out
unfolding append_value read_value
read-append_value integer_type (int v) before out h e =
    let out' : out ≡ append_integer before v = cc in
    record {
      field = le_bytes 8 (word_of v);
      appended = out' ∙ unfold append_integer in refl;
      reads =
          λ after. rw (out', read-append_integer before after v h, length-append_integer before v);
    }
read-append_value integer_type (text s) before out h e = cc
read-append_value text_type (int v) before out h e = cc
read-append_value text_type (text s) before out h e =
    let (out', fits) = append_text-eq-ok before s out e in
    record {
      field = length_prefix s ++ s;
      appended = out' ∙ append_assoc before (length_prefix s) s;
      reads = λ after. rw (out', read-append_text before s after fits, length-text before s);
    }

record Decodes (columns : List ColumnDef) (values : List Value) (before out : Bytes) : Type 0 where
  fields : Bytes
  appended : out ≡ before ++ fields
  decodes : decode_from columns out (length before) ≡ ok values

decode-encode_from :
    (columns : List ColumnDef) (values : List Value) (before out : Bytes)
    → length values ≡ length columns
    → AllStorable values
    → encode_from columns values before ≡ ok out
    → Decodes columns values before out
unfolding encode_from decode_from
decode-encode_from [] [] before out l h e = record {
  fields = [];
  appended = cc (append-nil before);
  decodes = refl;
}
decode-encode_from [] (v ∷ values) before out l h e = absurd (omega arith)
decode-encode_from (c ∷ columns) [] before out l h e = absurd (omega arith)
decode-encode_from (c ∷ columns) (v ∷ values) before out l h e =
    let (mid, appended, rest) = >>=-eq-ok (append_value c.type v before) _ e in
    let step = read-append_value c.type v before mid h.0 appended in
    let ih = decode-encode_from columns values mid out (omega arith) h.1 rest in
    record {
      fields = step.field ++ ih.fields;
      appended =
          ih.appended
          ∙ ap (λ (t : Bytes). t ++ ih.fields) step.appended
          ∙ append_assoc before step.field ih.fields;
      decodes = let read = rw (← ih.appended) at (step.reads ih.fields) in rw (read, ih.decodes);
    }

length-drop_one : (columns : List ColumnDef) → length (drop 1 columns) ≡ length columns - 1
length-drop_one [] = refl
length-drop_one (c ∷ columns) = omega arith

-- A row that is stored is read back: whenever `EncodeRow` accepts the values of a row whose first
-- value is the primary key and whose integers have 64 bits, `DecodeRow` of the payload, with that
-- primary key, returns exactly these values.
pub decode-encode_row :
    (schema : TableSchema) (pk : ℤ) (values : List Value) (payload : Bytes)
    → AllStorable values
    → encode_row schema (int pk ∷ values) ≡ ok payload
    → decode_row schema pk payload ≡ ok (int pk ∷ values)
unfolding encode_row decode_row
decode-encode_row schema pk values payload h e =
    let (u, arity, e') =
      >>=-eq-ok (guard (suc (length values) == length schema.columns) wrong_arity) _ e in
    let (out, written, e'') = >>=-eq-ok (encode_from (drop 1 schema.columns) values []) _ e' in
    let same : out ≡ payload = ground arith in
    let count : length values ≡ length (drop 1 schema.columns) =
      ground (arith, length-drop_one schema.columns) in
    let whole = decode-encode_from (drop 1 schema.columns) values [] out count h written in
    rw (← same) (rw whole.decodes)
