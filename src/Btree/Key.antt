-- ===== src/Btree/Key.antt =====
-- src/btree/key.h and key.cpp: composite keys and `KeyCodec`. A pointer into a buffer is the list
-- of the bytes that follow it.
pub mod RoundTrip
use gs_dbengine.Base.{
  ℕ, zero, suc, ◌+◌, ◌%◌, ◌^◌, ◌<◌, ◌≡◌, Bool, true, false, not, List, [], ◌∷◌, ◌++◌, Bytes, length,
  Result, ok, err, ◌>>=◌, corrupt_type_tag, buffer_overrun, le_bytes, load, read_bytes,
  if◌then◌else◌, ◌==◌, All,
}
use gs_dbengine.Row.{Value, null, int, float, bool, string, lex_lt, list_eq, value_lt, value_eq}
use gs_dbengine.Row.Order.{IsOrder, IsOrdered, lex-IsOrder, value-IsOrder}

abbrev pub Key : Type 0
Key = List Value

-- `operator<` and `operator==` of std::vector<Value>.
unfoldable pub key_lt : Key → Key → Bool
unfolding lex_lt value_lt
key_lt = lex_lt value_lt

unfoldable pub key_eq : Key → Key → Bool
unfolding list_eq value_eq
key_eq = list_eq value_eq

-- On keys without NaN, the order of std::vector<Value> is asymmetric and transitive, keys that
-- neither precedes are equal, and equal keys compare alike with any third key.
pub key-IsOrder : IsOrder (All IsOrdered) key_lt key_eq
unfolding key_lt key_eq
key-IsOrder = lex-IsOrder value-IsOrder

unfoldable pub append_u16 : ℕ → Bytes
append_u16 v = le_bytes 2 v

unfoldable pub append_u32 : ℕ → Bytes
append_u32 v = le_bytes 4 v

unfoldable pub read_u16 : Bytes → Result (ℕ × Bytes)
read_u16 ptr = load 2 ptr

unfoldable pub read_u32 : Bytes → Result (ℕ × Bytes)
read_u32 ptr = load 4 ptr

-- One element: its tag and its payload. `static_cast<uint32_t>(s.size())` wraps.
unfoldable pub encode_value : Value → Bytes
encode_value null = 0 ∷ []
encode_value (int raw) = 1 ∷ append_u32 raw
encode_value (float raw) = 2 ∷ append_u32 raw
encode_value (bool b) = 3 ∷ (if b then 1 else 0) ∷ []
encode_value (string s) = 4 ∷ (append_u32 (length s % 2 ^ 32) ++ s)

unfoldable pub encode_elements : Key → Bytes
encode_elements [] = []
encode_elements (v ∷ key) = encode_value v ++ encode_elements key

-- `KeyCodec::encode`
unfoldable pub encode : Key → Bytes
unfolding encode_elements encode_value append_u16 append_u32
encode key = append_u16 (length key % 2 ^ 16) ++ encode_elements key

unfoldable pub read_bool : Bytes → Result (Value × Bytes)
read_bool [] = err buffer_overrun
read_bool (b ∷ rest) = ok (bool (not (b == 0)), rest)

-- The body of the loop of `KeyCodec::decode`.
unfoldable pub decode_value : Bytes → Result (Value × Bytes)
unfolding read_bool read_u32
decode_value [] = err buffer_overrun
decode_value (tag ∷ ptr) =
    if tag == 0
    then ok (null, ptr)
    else if tag == 1
    then (do (raw, rest) ← read_u32 ptr; ok (int raw, rest))
    else if tag == 2
    then (do (raw, rest) ← read_u32 ptr; ok (float raw, rest))
    else if tag == 3
    then read_bool ptr
    else if tag == 4
    then (do (len, rest) ← read_u32 ptr; (s, rest) ← read_bytes len rest; ok (string s, rest))
    else err corrupt_type_tag

unfoldable pub decode_elements : ℕ → Bytes → Result (Key × Bytes)
decode_elements zero ptr = ok ([], ptr)
decode_elements (suc n) ptr = do
  (v, rest) ← decode_value ptr
  (key, rest) ← decode_elements n rest
  ok (v ∷ key, rest)

-- `KeyCodec::decode`
unfoldable pub decode : Bytes → Result (Key × Bytes)
unfolding decode_elements decode_value read_u16
decode ptr = do (num_elements, rest) ← read_u16 ptr; decode_elements num_elements rest

-- What the C++ types of the elements give, and a text that fits its length field.
abbrev pub FitsValue : Value → Type 0
FitsValue null = Unit {0}
FitsValue (int raw) = raw < 2 ^ 32
FitsValue (float raw) = raw < 2 ^ 32
FitsValue (bool _) = Unit {0}
FitsValue (string s) = length s < 2 ^ 32

abbrev pub FitsKey : Key → Type 0
FitsKey key = (length key < 2 ^ 16) × All FitsValue key
