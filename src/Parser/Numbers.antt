-- ===== src/Parser/Numbers.antt =====
-- Decimal texts, as the parser reads them.
use gs_dbengine.Base.{
  ℕ, zero, suc, ◌+◌, ◌-◌, ◌*◌, ◌/◌, ◌%◌, ◌^◌, ◌≤◌, ◌<◌, ◌≡◌, refl, inl, inr, true, [], ◌∷◌, ◌++◌,
  Bytes, ok, if◌then◌else◌, ltb, Bool-cases, arith, ltb-false, All,
}
use gs_dbengine.Tokenizer.Scan.{is_digit}
use gs_dbengine.Parser.Words.{leading_digits, begins_with_digit, to_number, stoi}

-- The digits of a number, with fuel for the places.
unfoldable pub digits_in : ℕ → ℕ → Bytes
digits_in zero n = (b'0' + n % 10) ∷ []
digits_in (suc places) n =
    let front = digits_in places (n / 10) in
    if ltb n 10 then (b'0' + n % 10) ∷ [] else front ++ (b'0' + n % 10) ∷ []

abbrev pub digits : ℕ → Bytes
digits n = digits_in n n

abbrev pub Digits : Bytes → Type 0
Digits = All (λ (c : ℕ). is_digit c ≡ true)

leading_digits-snoc :
    (n c : ℕ) (text : Bytes)
    → Digits text
    → is_digit c ≡ true
    → leading_digits n (text ++ c ∷ []) ≡ leading_digits n text * 10 + (c - b'0')
unfolding leading_digits
leading_digits-snoc n c [] h d = rw d refl
leading_digits-snoc n c (b ∷ text) (x, h) d =
    rw x (leading_digits-snoc (n * 10 + (b - b'0')) c text h d)

digit : (n : ℕ) → is_digit (b'0' + n % 10) ≡ true
unfolding is_digit
digit n = ground arith

Digits-snoc : (text : Bytes) (c : ℕ) → Digits text → is_digit c ≡ true → Digits (text ++ c ∷ [])
Digits-snoc [] c h d = (d, tt)
Digits-snoc (b ∷ text) c (x, h) d = (x, Digits-snoc text c h d)

pub digits_in-Digits : (places n : ℕ) → Digits (digits_in places n)
unfolding digits_in
digits_in-Digits zero n = (digit n, tt)
digits_in-Digits (suc places) n = elim (Bool-cases (ltb n 10)) [
  | inl x ↦ rw x (digit n, tt)
  | inr x ↦
      rw x (Digits-snoc (digits_in places (n / 10)) _ (digits_in-Digits places (n / 10)) (digit n))
]

leading_digits-digits_in : (places n : ℕ) → n ≤ places → leading_digits 0 (digits_in places n) ≡ n
unfolding digits_in leading_digits
leading_digits-digits_in zero n l = rw (digit n) (omega arith)
leading_digits-digits_in (suc places) n l = elim (Bool-cases (ltb n 10)) [
  | inl x ↦ rw (x, digit n) (ground arith)
  | inr x ↦
      let small : n / 10 ≤ places = ground arith in
      let front = leading_digits-digits_in places (n / 10) small in
      let all =
        leading_digits-snoc 0 (b'0' + n % 10) (digits_in places (n / 10))
          (digits_in-Digits places (n / 10)) (digit n) in
      rw x (omega (arith, all, front))
]

begins-append :
    (text more : Bytes) → begins_with_digit text ≡ true → begins_with_digit (text ++ more) ≡ true
unfolding begins_with_digit
begins-append [] more h = cc
begins-append (c ∷ text) more h = h

pub begins-digits_in : (places n : ℕ) → begins_with_digit (digits_in places n) ≡ true
unfolding begins_with_digit digits_in
begins-digits_in zero n = digit n
begins-digits_in (suc places) n = elim (Bool-cases (ltb n 10)) [
  | inl x ↦ rw x (digit n)
  | inr x ↦ rw x (begins-append (digits_in places (n / 10)) _ (begins-digits_in places (n / 10)))
]

pub stoi-digits : (n : ℕ) → n < 2 ^ 31 → stoi (digits n) ≡ ok n
unfolding stoi to_number
stoi-digits n h =
    rw
      (
        begins-digits_in n n,
        leading_digits-digits_in n n (omega arith),
        ltb-false (2 ^ 31 - 1) n (omega arith),
      )
      refl
