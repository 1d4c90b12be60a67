-- ===== src/Btree/Key/RoundTrip.antt =====
-- `KeyCodec::decode` after `KeyCodec::encode`.
use gs_dbengine.Base.{
  ℕ, ◌^◌, ◌<◌, ◌≡◌, refl, true, false, [], ◌∷◌, ◌++◌, Bytes, length, ok, All, append_assoc,
  load-le_bytes, read_bytes-append,
}
use native.Mathlib.Nat.{mod-eq_of_lt}
use gs_dbengine.Row.{Value, null, int, float, bool, string}
use gs_dbengine.Btree.Key.{
  Key, append_u32, read_u32, encode_value, encode_elements, encode, decode_value, decode_elements,
  decode, FitsValue, FitsKey,
}

pub read_u32-append_u32 :
    (v : ℕ) (rest : Bytes) → v < 2 ^ 32 → read_u32 (append_u32 v ++ rest) ≡ ok (v, rest)
unfolding read_u32 append_u32
read_u32-append_u32 v rest h = load-le_bytes 4 v rest h

decode-encode_value :
    (v : Value) (rest : Bytes) → FitsValue v → decode_value (encode_value v ++ rest) ≡ ok (v, rest)
unfolding decode_value encode_value
decode-encode_value null rest h = refl
decode-encode_value (int raw) rest h = rw (read_u32-append_u32 raw rest h)
decode-encode_value (float raw) rest h = rw (read_u32-append_u32 raw rest h)
decode-encode_value (bool true) rest h = refl
decode-encode_value (bool false) rest h = refl
decode-encode_value (string s) rest h =
    rw (
      mod-eq_of_lt h,
      append_assoc,
      read_u32-append_u32 (length s) (s ++ rest) h,
      read_bytes-append,
    )

decode-encode_elements :
    (key : Key) (rest : Bytes)
    → All FitsValue key
    → decode_elements (length key) (encode_elements key ++ rest) ≡ ok (key, rest)
unfolding decode_elements encode_elements
decode-encode_elements [] rest h = refl
decode-encode_elements (v ∷ key) rest h =
    rw (append_assoc, decode-encode_value v _ h.0, decode-encode_elements key rest h.1)

-- KeyCodec::decode on what encode wrote, whatever bytes follow, returns the key and stops exactly
-- behind it, for keys within the widths of the length fields.
pub decode-encode :
    (key : Key) (rest : Bytes) → FitsKey key → decode (encode key ++ rest) ≡ ok (key, rest)
unfolding decode encode
decode-encode key rest h = rw (
  mod-eq_of_lt h.0,
  append_assoc,
  load-le_bytes 2 (length key) _ h.0,
  decode-encode_elements key rest h.1,
)
