-- ===== src/Base/Wire.antt =====
-- Byte strings, and numbers as little-endian bytes: what `memcpy` between a fixed-width integer
-- and a buffer does on the machines that the file format is written for.
use Prim.Native.Nat.{ℕ, zero, suc, ◌+◌, ◌*◌, ◌/◌, ◌%◌, ◌^◌, ◌<◌}
use mathlib.Core.Path.{◌≡◌, refl, ap}
use mathlib.Core.List.{List, [], ◌∷◌, ◌++◌}
use native.Mathlib.Omega.{arith}
use gs_dbengine.Base.Tests.{ltb, ltb-false, if◌then◌else◌}
use gs_dbengine.Base.Lists.{length, take, drop, length-append, take-append, drop-append}
use gs_dbengine.Base.Outcome.{Result, ok, err, buffer_overrun, ◌>>=◌}

abbrev pub Bytes : Type 0
Bytes = List ℕ

-- The `w` low bytes of `v`, lowest first.
unfoldable pub le_bytes : ℕ → ℕ → Bytes
le_bytes zero v = []
le_bytes (suc w) v = (v % 256) ∷ le_bytes w (v / 256)

unfoldable pub le_value : Bytes → ℕ
le_value [] = 0
le_value (b ∷ bs) = b + 256 * le_value bs

pub length-le_bytes : (w v : ℕ) → length (le_bytes w v) ≡ w
unfolding le_bytes
length-le_bytes zero v = refl
length-le_bytes (suc w) v = ap suc (length-le_bytes w (v / 256))

pub le_value-le_bytes : (w v : ℕ) → v < 256 ^ w → le_value (le_bytes w v) ≡ v
unfolding le_bytes le_value
le_value-le_bytes zero v h = omega arith
le_value-le_bytes (suc w) v h = omega (arith, le_value-le_bytes w (v / 256) (omega arith))

pub take-le_bytes : (w v : ℕ) (rest : Bytes) → take w (le_bytes w v ++ rest) ≡ le_bytes w v
unfolding le_bytes
take-le_bytes zero v rest = refl
take-le_bytes (suc w) v rest = ap (λ t. (v % 256) ∷ t) (take-le_bytes w (v / 256) rest)

-- What stands at a cursor is a list: a read takes bytes from its front and leaves the rest.
unfoldable pub read_bytes : ℕ → Bytes → Result (Bytes × Bytes)
read_bytes n bs = if ltb (length bs) n then err buffer_overrun else ok (take n bs, drop n bs)

unfoldable pub load : ℕ → Bytes → Result (ℕ × Bytes)
load w bs = do (raw, rest) ← read_bytes w bs; ok (le_value raw, rest)

pub read_bytes-append : (s rest : Bytes) → read_bytes (length s) (s ++ rest) ≡ ok (s, rest)
unfolding read_bytes
read_bytes-append s rest = rw (
  ltb-false (length (s ++ rest)) (length s) (omega (arith, length-append s rest)),
  take-append,
  drop-append,
)

pub load-le_bytes :
    (w v : ℕ) (rest : Bytes) → v < 256 ^ w → load w (le_bytes w v ++ rest) ≡ ok (v, rest)
unfolding load
load-le_bytes w v rest h =
    let e : read_bytes w (le_bytes w v ++ rest) ≡ ok (le_bytes w v, rest) =
      rw length-le_bytes at (read_bytes-append (le_bytes w v) rest) in
    rw (e, le_value-le_bytes w v h)
