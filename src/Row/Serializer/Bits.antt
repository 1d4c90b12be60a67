-- ===== src/Row/Serializer/Bits.antt =====
-- The bits of the null bitmap.
use gs_dbengine.Base.{
  ℕ, zero, suc, ◌*◌, ◌/◌, ◌%◌, ◌<◌, ◌≡◌, refl, ap, ◌∙◌, inl, inr, true, false, [], ◌∷◌, Bytes,
  length, if◌then◌else◌, ◌==◌, get_elem?, set, replicate, arith, Bool-cases,
}
use gs_dbengine.Row.Serializer.{get_bit, set_bit, byte_or_zero, get_null_bit, set_null_bit}

get-set_bit : (j k b : ℕ) → get_bit j (set_bit k b) ≡ (if j == k then true else get_bit j b)
unfolding get_bit set_bit
get-set_bit zero zero b = ground arith
get-set_bit (suc j) zero b = ap (get_bit j) {y = b / 2} (omega arith) ∙ ground arith
get-set_bit zero (suc k) b = ap (λ (n : ℕ). n == 1) {y = b % 2} (omega arith) ∙ ground arith
get-set_bit (suc j) (suc k) b =
    ap (get_bit j) {y = set_bit k (b / 2)} (omega arith) ∙ get-set_bit j k (b / 2) ∙ ground arith

get_bit-zero : (j : ℕ) → get_bit j 0 ≡ false
unfolding get_bit
get_bit-zero zero = refl
get_bit-zero (suc j) = ap (get_bit j) {y = 0} (omega arith) ∙ get_bit-zero j

get_elem-set :
    (xs : Bytes) (i j v : ℕ)
    → i < length xs
    → byte_or_zero (get_elem? (set xs i v) j)
      ≡ (if j == i then v else byte_or_zero (get_elem? xs j))
get_elem-set [] i j v h = absurd (omega arith)
get_elem-set (x ∷ xs) zero zero v h = unfold byte_or_zero in refl
get_elem-set (x ∷ xs) zero (suc j) v h = ground arith
get_elem-set (x ∷ xs) (suc i) zero v h = ground arith
get_elem-set (x ∷ xs) (suc i) (suc j) v h = get_elem-set xs i j v (omega arith) ∙ ground arith

pub length-set : (xs : Bytes) (i v : ℕ) → length (set xs i v) ≡ length xs
length-set [] i v = refl
length-set (x ∷ xs) zero v = refl
length-set (x ∷ xs) (suc i) v = ap suc (length-set xs i v)

pub get-set_null_bit :
    (bitmap : Bytes) (i j : ℕ)
    → i < 8 * length bitmap
    → get_null_bit (set_null_bit bitmap i) j ≡ (if j == i then true else get_null_bit bitmap j)
unfolding get_null_bit set_null_bit
get-set_null_bit bitmap i j h =
    ap (get_bit (j % 8)) (
      get_elem-set bitmap (i / 8) (j / 8)
        (set_bit (i % 8) (byte_or_zero (get_elem? bitmap (i / 8)))) (omega arith))
    ∙ elim (Bool-cases (j / 8 == i / 8)) [
      | inl e ↦
          let same : j / 8 ≡ i / 8 = ground arith in
          rw (e, same)
            (get-set_bit (j % 8) (i % 8) (byte_or_zero (get_elem? bitmap (i / 8))) ∙ ground arith)
      | inr e ↦ ground arith
    ]

get_elem-replicate : (n j : ℕ) → byte_or_zero (get_elem? (replicate n 0) j) ≡ 0
unfolding byte_or_zero
get_elem-replicate zero j = refl
get_elem-replicate (suc n) zero = refl
get_elem-replicate (suc n) (suc j) = get_elem-replicate n j

pub get_null_bit-zeros : (n j : ℕ) → get_null_bit (replicate n 0) j ≡ false
unfolding get_null_bit
get_null_bit-zeros n j = ap (get_bit (j % 8)) (get_elem-replicate n (j / 8)) ∙ get_bit-zero (j % 8)
