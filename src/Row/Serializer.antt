-- ===== src/Row/Serializer.antt =====
-- src/row/serializer.h and serializer.cpp: rows as bytes. A position in the buffer is the list of
-- the bytes that follow it.
pub mod Bits
pub mod Marks
pub mod RoundTrip
use gs_dbengine.Base.{
  ℕ, zero, suc, ◌+◌, ◌*◌, ◌/◌, ◌%◌, ◌^◌, Bool, true, false, not, List, [], ◌∷◌, ◌++◌, Bytes, length,
  Result, ok, err, ◌>>=◌, if◌then◌else◌, ◌==◌, ltb, get_elem?, set, take, drop, replicate, Option,
  none, some, le_bytes, le_value, column_count_mismatch, null_in_non_nullable, type_mismatch,
  varchar_too_long, buffer_too_short,
}
use gs_dbengine.Row.{Value, null, int, float, bool, string, Row, is_null}
use gs_dbengine.Catalog.Schema.{ColumnType, Column, TableSchema}

unfoldable pub bitmap_size : ℕ → ℕ
bitmap_size num_columns = (num_columns + 7) / 8

-- `(byte >> k) & 1`
unfoldable pub get_bit : ℕ → ℕ → Bool
get_bit zero byte = byte % 2 == 1
get_bit (suc k) byte = get_bit k (byte / 2)

-- `byte | (1 << k)`
unfoldable pub set_bit : ℕ → ℕ → ℕ
set_bit zero byte = byte / 2 * 2 + 1
set_bit (suc k) byte = byte % 2 + 2 * set_bit k (byte / 2)

unfoldable pub byte_or_zero : Option ℕ → ℕ
byte_or_zero none = 0
byte_or_zero (some b) = b

-- The callers stay within the bitmap; past it these read 0 and write nothing.
unfoldable pub get_null_bit : Bytes → ℕ → Bool
get_null_bit bitmap col_idx = get_bit (col_idx % 8) (byte_or_zero (get_elem? bitmap (col_idx / 8)))

unfoldable pub set_null_bit : Bytes → ℕ → Bytes
set_null_bit bitmap col_idx =
    set bitmap (col_idx / 8) (set_bit (col_idx % 8) (byte_or_zero (get_elem? bitmap (col_idx / 8))))

-- The first loop of `serialize`, from column `i` on.
unfoldable pub null_bitmap : ℕ → List Column → List Value → Bytes → Result Bytes
null_bitmap i (col ∷ columns) (v ∷ values) bitmap =
    let marked = null_bitmap (suc i) columns values (set_null_bit bitmap i) in
    let same = null_bitmap (suc i) columns values bitmap in
    if is_null v then (if col.is_nullable then marked else err null_in_non_nullable) else same
null_bitmap i columns values bitmap = ok bitmap

unfoldable pub encode_bool : Bool → Bytes
encode_bool b = (if b then 1 else 0) ∷ []

-- `static_cast<uint16_t>(val.size())` wraps.
unfoldable pub encode_varchar : Bytes → Bytes
encode_varchar s = le_bytes 2 (length s % 2 ^ 16) ++ s

-- The `switch` of `serialize`.
unfoldable pub encode_as : ColumnType → ℕ → Value → Result Bytes
encode_as ColumnType.int max_length (int raw) = ok (le_bytes 4 raw)
encode_as ColumnType.float max_length (float raw) = ok (le_bytes 4 raw)
encode_as ColumnType.boolean max_length (bool b) = ok (encode_bool b)
encode_as ColumnType.varchar max_length (string s) =
    if ltb max_length (length s) then err varchar_too_long else ok (encode_varchar s)
encode_as type max_length v = err type_mismatch

-- The second loop of `serialize`.
unfoldable pub encode_values : Bytes → ℕ → List Column → List Value → Result Bytes
encode_values bitmap i (col ∷ columns) (v ∷ values) =
    let rest = encode_values bitmap (suc i) columns values in
    if get_null_bit bitmap i
    then rest
    else (do bytes ← encode_as col.type col.max_length v; more ← rest; ok (bytes ++ more))
encode_values bitmap i columns values = ok []

unfoldable pub serialize : Row → TableSchema → Result Bytes
serialize row schema =
    if length row.values == length schema.columns
    then (do
      bitmap ←
          null_bitmap 0 schema.columns row.values
            (replicate (bitmap_size (length schema.columns)) 0)
      buf ← encode_values bitmap 0 schema.columns row.values
      ok (bitmap ++ buf))
    else err column_count_mismatch

-- `pos + n > buf.size()` throws.
unfoldable pub take_checked : ℕ → Bytes → Result (Bytes × Bytes)
take_checked n buf =
    if ltb (length buf) n then err buffer_too_short else ok (take n buf, drop n buf)

unfoldable pub decode_word : ℕ → Bytes → Result (ℕ × Bytes)
decode_word n buf = do (raw, rest) ← take_checked n buf; ok (le_value raw, rest)

unfoldable pub decode_bool : Bytes → Result (Bool × Bytes)
decode_bool [] = err buffer_too_short
decode_bool (b ∷ rest) = ok (not (b == 0), rest)

unfoldable pub decode_varchar : Bytes → Result (Bytes × Bytes)
decode_varchar buf = do (len, rest) ← decode_word 2 buf; take_checked len rest

unfoldable pub decode_as : ColumnType → Bytes → Result (Value × Bytes)
decode_as ColumnType.int buf = do (raw, rest) ← decode_word 4 buf; ok (int raw, rest)
decode_as ColumnType.float buf = do (raw, rest) ← decode_word 4 buf; ok (float raw, rest)
decode_as ColumnType.boolean buf = do (b, rest) ← decode_bool buf; ok (bool b, rest)
decode_as ColumnType.varchar buf = do (s, rest) ← decode_varchar buf; ok (string s, rest)

unfoldable pub decode_values : Bytes → ℕ → List Column → Bytes → Result (List Value)
decode_values bitmap i [] buf = ok []
decode_values bitmap i (col ∷ columns) buf =
    let null_rest = decode_values bitmap (suc i) columns buf in
    if get_null_bit bitmap i then (do values ← null_rest; ok (null ∷ values)) else (do
      (v, rest) ← decode_as col.type buf
      values ← decode_values bitmap (suc i) columns rest
      ok (v ∷ values))

unfoldable pub deserialize : Bytes → TableSchema → Result Row
deserialize bytes schema =
    let bm_size = bitmap_size (length schema.columns) in
    if ltb (length bytes) bm_size then err buffer_too_short else (do
      values ← decode_values (take bm_size bytes) 0 schema.columns (drop bm_size bytes)
      ok (record { values = values }))
