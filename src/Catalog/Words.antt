-- ===== src/Catalog/Words.antt =====
-- src/catalog/catalog_manager.cpp, the helpers of the codec: numbers, texts, values and vectors. A
-- position in the buffer is the list of the bytes that follow it.
use gs_dbengine.Base.{
  ℕ, zero, suc, ◌%◌, ◌^◌, Bool, not, List, [], ◌∷◌, ◌++◌, Bytes, length, Result, ok, err, ◌>>=◌,
  if◌then◌else◌, ◌==◌, le_bytes, load, read_bytes, buffer_overrun, unknown_value_tag,
}
use gs_dbengine.Row.{Value, null, int, float, bool, string}

unfoldable pub write_uint32 : ℕ → Bytes
write_uint32 val = le_bytes 4 val

unfoldable pub write_uint8 : ℕ → Bytes
write_uint8 val = val ∷ []

-- `static_cast<uint32_t>(str.size())` wraps.
unfoldable pub write_string : Bytes → Bytes
write_string str = write_uint32 (length str % 2 ^ 32) ++ str

unfoldable pub write_flag : Bool → Bytes
write_flag b = write_uint8 (if b then 1 else 0)

unfoldable pub read_uint32 : Bytes → Result (ℕ × Bytes)
read_uint32 buf = load 4 buf

unfoldable pub read_uint8 : Bytes → Result (ℕ × Bytes)
read_uint8 [] = err buffer_overrun
read_uint8 (b ∷ rest) = ok (b, rest)

unfoldable pub read_string : Bytes → Result (Bytes × Bytes)
read_string buf = do (len, rest) ← read_uint32 buf; read_bytes len rest

unfoldable pub read_flag : Bytes → Result (Bool × Bytes)
read_flag buf = do (b, rest) ← read_uint8 buf; ok (not (b == 0), rest)

unfoldable pub write_value : Value → Bytes
write_value null = write_uint8 0
write_value (int raw) = write_uint8 1 ++ write_uint32 raw
write_value (float raw) = write_uint8 2 ++ write_uint32 raw
write_value (bool b) = write_uint8 3 ++ write_flag b
write_value (string s) = write_uint8 4 ++ write_string s

unfoldable pub read_tagged : ℕ → Bytes → Result (Value × Bytes)
read_tagged tag buf =
    if tag == 0
    then ok (null, buf)
    else if tag == 1
    then (do (raw, rest) ← read_uint32 buf; ok (int raw, rest))
    else if tag == 2
    then (do (raw, rest) ← read_uint32 buf; ok (float raw, rest))
    else if tag == 3
    then (do (b, rest) ← read_flag buf; ok (bool b, rest))
    else if tag == 4
    then (do (s, rest) ← read_string buf; ok (string s, rest))
    else err unknown_value_tag

unfoldable pub read_value : Bytes → Result (Value × Bytes)
read_value buf = do (tag, rest) ← read_uint8 buf; read_tagged tag rest

-- A vector: its size, which wraps, and its elements.
module _ {ℓ} {A : Type ℓ} where
  unfoldable pub write_each : (A → Bytes) → List A → Bytes
  write_each w [] = []
  write_each w (a ∷ xs) = w a ++ write_each w xs

  unfoldable pub write_list : (A → Bytes) → List A → Bytes
  write_list w xs = write_uint32 (length xs % 2 ^ 32) ++ write_each w xs

  unfoldable pub read_each : (Bytes → Result (A × Bytes)) → ℕ → Bytes → Result (List A × Bytes)
  read_each r zero buf = ok ([], buf)
  read_each r (suc n) buf = do (a, rest) ← r buf; (xs, rest) ← read_each r n rest; ok (a ∷ xs, rest)

  unfoldable pub read_list : (Bytes → Result (A × Bytes)) → Bytes → Result (List A × Bytes)
  read_list r buf = do (n, rest) ← read_uint32 buf; read_each r n rest
