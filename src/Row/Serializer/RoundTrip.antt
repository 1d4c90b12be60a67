-- ===== src/Row/Serializer/RoundTrip.antt =====
-- `deserialize` after `serialize`.
use gs_dbengine.Base.{
  ℕ, suc, ◌^◌, ◌<◌, ◌≡◌, refl, ap, ◌∙◌, sym, inl, inr, ◌⊎◌, true, false, List, [], ◌∷◌, ◌++◌, Bytes,
  length, ltb-false, replicate, length-replicate, arith, ok, take-append, drop-append,
  length-append, le_bytes, le_value-le_bytes, length-le_bytes, append_assoc, ==_refl,
}
use native.Mathlib.Nat.{mod-eq_of_lt}
use gs_dbengine.Row.{Value, null, int, float, bool, string, Row, is_null}
use gs_dbengine.Catalog.Schema.{Column, TableSchema}
use gs_dbengine.Row.Serializer.{
  bitmap_size, get_null_bit, encode_bool, encode_varchar, encode_as, encode_values, serialize,
  take_checked, decode_word, decode_bool, decode_varchar, decode_as, decode_values, deserialize,
}
use gs_dbengine.Row.Serializer.Bits.{get_null_bit-zeros}
use gs_dbengine.Row.Serializer.Marks.{
  FitsColumn, FitsColumns, length-FitsColumns, IsMarked, Marked, null_bitmap-Marked,
}

take_checked-append : (s rest : Bytes) → take_checked (length s) (s ++ rest) ≡ ok (s, rest)
unfolding take_checked
take_checked-append s rest = rw (
  ltb-false (length (s ++ rest)) (length s) (omega (arith, length-append s rest)),
  take-append,
  drop-append,
)

decode_word-le_bytes :
    (n v : ℕ) (rest : Bytes) → v < 256 ^ n → decode_word n (le_bytes n v ++ rest) ≡ ok (v, rest)
unfolding decode_word
decode_word-le_bytes n v rest h =
    let e : take_checked n (le_bytes n v ++ rest) ≡ ok (le_bytes n v, rest) =
      rw length-le_bytes at (take_checked-append (le_bytes n v) rest) in
    rw (e, le_value-le_bytes n v h)

decode_varchar-encode_varchar :
    (s rest : Bytes) → length s < 2 ^ 16 → decode_varchar (encode_varchar s ++ rest) ≡ ok (s, rest)
unfolding decode_varchar encode_varchar
decode_varchar-encode_varchar s rest h = rw (
  mod-eq_of_lt h,
  append_assoc,
  decode_word-le_bytes 2 (length s) (s ++ rest) h,
  take_checked-append,
)

-- Bytes that decode to `v`, whatever follows them.
record Encoded (col : Column) (v : Value) : Type 0 where
  bytes : Bytes
  runs : encode_as col.type col.max_length v ≡ ok bytes
  back : (rest : Bytes) → decode_as col.type (bytes ++ rest) ≡ ok (v, rest)

encode_as-Encoded :
    (col : Column) (v : Value) → is_null v ≡ false → FitsColumn col v → Encoded col v
unfolding encode_as decode_as is_null
encode_as-Encoded col null e f = absurd (cc)
encode_as-Encoded col (int raw) e f = record {
  bytes = le_bytes 4 raw;
  runs = rw f.0;
  back = λ rest. rw (f.0, decode_word-le_bytes 4 raw rest f.1);
}
encode_as-Encoded col (float raw) e f = record {
  bytes = le_bytes 4 raw;
  runs = rw f.0;
  back = λ rest. rw (f.0, decode_word-le_bytes 4 raw rest f.1);
}
encode_as-Encoded col (bool true) e f = record {
  bytes = encode_bool true;
  runs = rw f;
  back = λ rest. rw f (unfold encode_bool decode_bool in refl);
}
encode_as-Encoded col (bool false) e f = record {
  bytes = encode_bool false;
  runs = rw f;
  back = λ rest. rw f (unfold encode_bool decode_bool in refl);
}
encode_as-Encoded col (string s) e f = record {
  bytes = encode_varchar s;
  runs = rw (f.0, ltb-false col.max_length (length s) f.1);
  back = λ rest. rw (f.0, decode_varchar-encode_varchar s rest f.2);
}

-- The same of the values of a row under their bitmap.
record EncodedAll (bitmap : Bytes) (i : ℕ) (columns : List Column) (values : List Value)
    : Type 0 where
  bytes : Bytes
  runs : encode_values bitmap i columns values ≡ ok bytes
  back : (rest : Bytes) → decode_values bitmap i columns (bytes ++ rest) ≡ ok values

is_null-cases : (v : Value) → (v ≡ null) ⊎ (is_null v ≡ false)
unfolding is_null
is_null-cases null = inl refl
is_null-cases (int raw) = inr refl
is_null-cases (float raw) = inr refl
is_null-cases (bool b) = inr refl
is_null-cases (string s) = inr refl

encode_values-EncodedAll :
    (bitmap : Bytes) (i : ℕ) (columns : List Column) (values : List Value)
    → FitsColumns columns values
    → IsMarked bitmap i values
    → EncodedAll bitmap i columns values
unfolding encode_values decode_values
encode_values-EncodedAll bitmap i [] [] f m = record {
  bytes = [];
  runs = refl;
  back = λ rest. refl;
}
encode_values-EncodedAll bitmap i [] (v ∷ values) f m = elim f [ ]
encode_values-EncodedAll bitmap i (col ∷ columns) [] f m = elim f [ ]
encode_values-EncodedAll bitmap i (col ∷ columns) (v ∷ values) f m =
    let r : EncodedAll bitmap (suc i) columns values =
      encode_values-EncodedAll bitmap (suc i) columns values f.1 m.1 in
    elim (is_null-cases v) [
      | inl e ↦
          let bit : get_null_bit bitmap i ≡ true = m.0 ∙ ap is_null e ∙ (unfold is_null in refl) in
          record {
            bytes = r.bytes;
            runs = rw bit r.runs;
            back = λ rest. rw (bit, r.back rest) (ap (λ t. ok (t ∷ values)) (sym e));
          }
      | inr e ↦
          let bit : get_null_bit bitmap i ≡ false = m.0 ∙ e in
          let c : Encoded col v = encode_as-Encoded col v e f.0 in
          record {
            bytes = c.bytes ++ r.bytes;
            runs = rw (bit, c.runs, r.runs);
            back = λ rest.
                rw (bit, append_assoc c.bytes r.bytes rest, c.back (r.bytes ++ rest), r.back rest);
          }
    ]

-- A row whose values fit the columns, with texts below 65536 bytes, is serialized, and its bytes,
-- whatever follows them, are deserialized to the row.
pub deserialize-serialize :
    (row : Row) (schema : TableSchema)
    → FitsColumns schema.columns row.values
    → (bytes : Bytes) × (serialize row schema ≡ ok bytes)
      × ((rest : Bytes) → deserialize (bytes ++ rest) schema ≡ ok row)
unfolding serialize deserialize
deserialize-serialize row schema f =
    let n : ℕ = length schema.columns in
    let same : length row.values ≡ n = length-FitsColumns schema.columns row.values f in
    let zeros : Bytes = replicate (bitmap_size n) 0 in
    let size : length zeros ≡ bitmap_size n = length-replicate {A = ℕ} (bitmap_size n) 0 in
    let m : Marked 0 schema.columns row.values zeros =
      null_bitmap-Marked 0 schema.columns row.values zeros f
        (unfold bitmap_size in omega (arith, size, same))
        (λ j l. get_null_bit-zeros (bitmap_size n) j) in
    let r : EncodedAll m.result 0 schema.columns row.values =
      encode_values-EncodedAll m.result 0 schema.columns row.values f m.marked in
    let long : length m.result ≡ bitmap_size n = m.size ∙ size in
    (
      m.result ++ r.bytes,
      rw (same, ==_refl n, m.runs, r.runs),
      λ rest. rw (
        append_assoc m.result r.bytes rest,
        ← long,
        ltb-false (length (m.result ++ (r.bytes ++ rest))) (length m.result)
            (omega (arith, length-append m.result (r.bytes ++ rest))),
        take-append,
        drop-append,
        r.back rest,
      ),
    )
