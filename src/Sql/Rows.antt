-- ===== src/Sql/Rows.antt =====
-- The row codec of sql/catalog.cpp: `EncodeRow` and `DecodeRow`. Integers are the 8 bytes that
-- `memcpy` gives on a little-endian machine.
pub mod RoundTrip
use cpp_database_engine.Common.{
  ℕ, ◌+◌, ◌%◌, ◌^◌, List, [], ◌∷◌, ◌++◌, length, take, drop, leb, ◌==◌,
}
use cpp_database_engine.Common.Int.{ℤ}
use cpp_database_engine.Common.Bytes.{Bytes, le_bytes, le_value}
use cpp_database_engine.Sql.Error.{
  Result, ok, err, ◌>>=◌, ◌>>◌, guard, expects_integer, expects_text, wrong_arity, row_too_long,
  text_too_long, truncated_integer, truncated_length, truncated_text, bad_index,
}
use cpp_database_engine.Sql.Value.{Value, int, text, ColumnType, integer_type, text_type}
use cpp_database_engine.Sql.Keys.{word_of, int_of}
use cpp_database_engine.Sql.Schema.{ColumnDef, TableSchema}

-- `MAX_VALUE_SIZE` of common/config.h.
abbrev pub max_value_size : ℕ
max_value_size = 64

unfoldable pub append_integer : Bytes → ℤ → Bytes
append_integer out v = out ++ le_bytes 8 (word_of v)

unfoldable pub append_text : Bytes → Bytes → Result Bytes
append_text out s = do
  guard (leb (length s) 0xFFFF) text_too_long
  ok (out ++ le_bytes 2 (length s % 2 ^ 16) ++ s)

unfoldable pub read_integer : Bytes → ℕ → Result (ℤ × ℕ)
read_integer payload offset = do
  guard (leb (offset + 8) (length payload)) truncated_integer
  ok (int_of (le_value (take 8 (drop offset payload))), offset + 8)

unfoldable pub read_text : Bytes → ℕ → Result (Bytes × ℕ)
read_text payload offset = do
  guard (leb (offset + 2) (length payload)) truncated_length
  let len = le_value (take 2 (drop offset payload))
  guard (leb (offset + 2 + len) (length payload)) truncated_text
  ok (take len (drop (offset + 2) payload), offset + 2 + len)

-- One round of the loop of `EncodeRow`.
unfoldable pub append_value : ColumnType → Value → Bytes → Result Bytes
append_value integer_type (int v) payload = ok (append_integer payload v)
append_value integer_type (text s) payload = err expects_integer
append_value text_type (int v) payload = err expects_text
append_value text_type (text s) payload = append_text payload s

-- The loop over the columns after the first; `values` has as many members (the arity check).
unfoldable pub encode_from : List ColumnDef → List Value → Bytes → Result Bytes
encode_from [] values payload = ok payload
encode_from (c ∷ columns) [] payload = err bad_index
encode_from (c ∷ columns) (v ∷ values) payload = do
  payload' ← append_value c.type v payload
  encode_from columns values payload'

unfoldable pub encode_row : TableSchema → List Value → Result Bytes
encode_row schema values = do
  guard (length values == length schema.columns) wrong_arity
  payload ← encode_from (drop 1 schema.columns) (drop 1 values) []
  guard (leb (length payload) max_value_size) row_too_long
  ok payload

-- One round of the loop of `DecodeRow`: the value, and the offset behind it.
unfoldable pub read_value : ColumnType → Bytes → ℕ → Result (Value × ℕ)
read_value integer_type payload offset = do
  (v, offset') ← read_integer payload offset
  ok (int v, offset')
read_value text_type payload offset = do
  (s, offset') ← read_text payload offset
  ok (text s, offset')

unfoldable pub decode_from : List ColumnDef → Bytes → ℕ → Result (List Value)
decode_from [] payload offset = ok []
decode_from (c ∷ columns) payload offset = do
  (v, offset') ← read_value c.type payload offset
  rest ← decode_from columns payload offset'
  ok (v ∷ rest)

unfoldable pub decode_row : TableSchema → ℤ → Bytes → Result (List Value)
decode_row schema primary_key payload = do
  rest ← decode_from (drop 1 schema.columns) payload 0
  ok (int primary_key ∷ rest)
