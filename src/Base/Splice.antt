-- ===== src/Base/Splice.antt =====
-- Writes into a buffer of fixed length: `memcpy` to an offset, and the fields of a packed struct.
use Prim.Native.Nat.{ℕ, zero, suc, ◌+◌, ◌-◌, ◌^◌, ◌≤◌, ◌<◌}
use mathlib.Core.Path.{◌≡◌, refl, ap, ◌∙◌}
use mathlib.Core.Logic.{◌⊎◌, inl, inr}
use mathlib.Core.List.{List, [], ◌∷◌, ◌++◌}
use native.Mathlib.Omega.{arith}
use gs_dbengine.Base.Lists.{length, take, drop, length-append, length-take, length-drop, drop-drop}
use gs_dbengine.Base.Wire.{
  Bytes, le_bytes, le_value, length-le_bytes, le_value-le_bytes, take-le_bytes,
}

module _ {ℓ} {A : Type ℓ} where
  pub drop-append_le :
      (k : ℕ) (xs ys : List A) → k ≤ length xs → drop k (xs ++ ys) ≡ drop k xs ++ ys
  drop-append_le zero xs ys h = refl
  drop-append_le (suc k) [] ys h = absurd (omega arith)
  drop-append_le (suc k) (x ∷ xs) ys h = drop-append_le k xs ys (omega arith)

  pub drop-append_add : (k : ℕ) (xs ys : List A) → drop (length xs + k) (xs ++ ys) ≡ drop k ys
  drop-append_add k [] ys = ap (λ (n : ℕ). drop n ys) (omega arith)
  drop-append_add k (x ∷ xs) ys =
      ap (λ (n : ℕ). drop n (x ∷ (xs ++ ys))) {y = suc (length xs + k)} (omega arith)
      ∙ drop-append_add k xs ys

  pub take-append_le : (k : ℕ) (xs ys : List A) → k ≤ length xs → take k (xs ++ ys) ≡ take k xs
  take-append_le zero xs ys h = refl
  take-append_le (suc k) [] ys h = absurd (omega arith)
  take-append_le (suc k) (x ∷ xs) ys h = ap (λ t. x ∷ t) (take-append_le k xs ys (omega arith))

  pub slice-take :
      (o n m : ℕ) (xs : List A) → o + n ≤ m → take n (drop o (take m xs)) ≡ take n (drop o xs)
  slice-take zero zero m xs h = refl
  slice-take zero (suc n) zero xs h = absurd (omega arith)
  slice-take zero (suc n) (suc m) [] h = refl
  slice-take zero (suc n) (suc m) (x ∷ xs) h =
      ap (λ t. x ∷ t) (slice-take zero n m xs (omega arith))
  slice-take (suc o) n zero xs h = absurd (omega arith)
  slice-take (suc o) n (suc m) [] h = refl
  slice-take (suc o) n (suc m) (x ∷ xs) h = slice-take o n m xs (omega arith)

-- `memcpy(p + off, bs, length bs)`, within the buffer.
unfoldable pub splice : ℕ → Bytes → Bytes → Bytes
splice off bs p = take off p ++ (bs ++ drop (off + length bs) p)

module _ (off : ℕ) (bs p : Bytes) (fits : off + length bs ≤ length p) where
  front : length (take off p) ≡ off
  front = length-take off p (omega arith)

  pub length-splice : length (splice off bs p) ≡ length p
  unfolding splice
  length-splice = omega (
    arith,
    front,
    length-append (take off p) (bs ++ drop (off + length bs) p),
    length-append bs (drop (off + length bs) p),
    length-drop (off + length bs) p,
  )

  drop-splice_add :
      (k : ℕ) → drop (off + k) (splice off bs p) ≡ drop k (bs ++ drop (off + length bs) p)
  unfolding splice
  drop-splice_add k = rw front at (drop-append_add k (take off p) (bs ++ drop (off + length bs) p))

  pub drop-splice_self : drop off (splice off bs p) ≡ bs ++ drop (off + length bs) p
  drop-splice_self =
      ap (λ (n : ℕ). drop n (splice off bs p)) {y = off + 0} (omega arith) ∙ drop-splice_add 0

  pub drop-splice_after : (k : ℕ) → off + length bs ≤ k → drop k (splice off bs p) ≡ drop k p
  drop-splice_after k h =
      let d : ℕ = k - (off + length bs) in
      ap (λ (n : ℕ). drop n (splice off bs p)) {y = off + (length bs + d)} (omega arith)
      ∙ drop-splice_add (length bs + d)
      ∙ drop-append_add d bs (drop (off + length bs) p)
      ∙ drop-drop (off + length bs) d p
      ∙ ap (λ (n : ℕ). drop n p) {x = off + length bs + d} (omega arith)

  pub slice-splice_before :
      (o n : ℕ) → o + n ≤ off → take n (drop o (splice off bs p)) ≡ take n (drop o p)
  unfolding splice
  slice-splice_before o n h =
      ap (take n)
        (drop-append_le o (take off p) (bs ++ drop (off + length bs) p) (omega (arith, front)))
      ∙ take-append_le n (drop o (take off p)) (bs ++ drop (off + length bs) p)
          (omega (arith, front, length-drop o (take off p)))
      ∙ slice-take o n off p h

-- A field of `w` bytes at an offset of a packed struct.
unfoldable pub field : ℕ → ℕ → Bytes → ℕ
field w off p = le_value (take w (drop off p))

unfoldable pub set_field : ℕ → ℕ → ℕ → Bytes → Bytes
set_field w off v p = splice off (le_bytes w v) p

module _ (w off v : ℕ) (p : Bytes) (fits : off + w ≤ length p) where
  fits_bytes : off + length (le_bytes w v) ≤ length p
  fits_bytes = omega (arith, length-le_bytes w v)

  pub length-set_field : length (set_field w off v p) ≡ length p
  unfolding set_field
  length-set_field = length-splice off (le_bytes w v) p fits_bytes

  pub drop-set_field_after : (k : ℕ) → off + w ≤ k → drop k (set_field w off v p) ≡ drop k p
  unfolding set_field
  drop-set_field_after k h =
      drop-splice_after off (le_bytes w v) p fits_bytes k (omega (arith, length-le_bytes w v))

  pub field-set_field : v < 256 ^ w → field w off (set_field w off v p) ≡ v
  unfolding field set_field
  field-set_field h =
      let e : take w (drop off (splice off (le_bytes w v) p)) ≡ le_bytes w v =
        ap (take w) (drop-splice_self off (le_bytes w v) p fits_bytes)
        ∙ take-le_bytes w v (drop (off + length (le_bytes w v)) p) in
      ap le_value e ∙ le_value-le_bytes w v h

  pub field-set_field_ne :
      (w' off' : ℕ)
      → (off' + w' ≤ off) ⊎ (off + w ≤ off')
      → field w' off' (set_field w off v p) ≡ field w' off' p
  unfolding field set_field
  field-set_field_ne w' off' (inl h) =
      ap le_value (slice-splice_before off (le_bytes w v) p fits_bytes off' w' h)
  field-set_field_ne w' off' (inr h) =
      ap (λ (t : Bytes). le_value (take w' t)) (drop-set_field_after off' h)
