-- ===== src/Parser/Bounds/Values.antt =====
-- The values that the parser returns, and the lists of INSERT.
use gs_dbengine.Base.{
  ℕ, ◌-◌, ◌^◌, ◌<◌, ◌≤◌, ◌≡◌, ◌≢◌, refl, inl, inr, Bool, true, false, List, [], ◌∷◌, ◌++◌, length,
  length-append, All, All-append, Bytes, Result, if◌then◌else◌, ltb, Bool-cases, arith,
  unexpected_token,
}
use gs_dbengine.Base.Action.{throw}
use gs_dbengine.Row.{Value, null, int, float, bool, string}
use gs_dbengine.Tokenizer.Types.{TokenType}
use gs_dbengine.Parser.Words.{
  begins_with_digit, leading_digits, to_number, stoi, integer_value, float_value, parse_other_value,
  parse_signed, parse_value, next_value, parse_value_list,
}
use gs_dbengine.Parser.Bounds.{
  Holds, Ensures, done-Ensures, throw-Ensures, if_check-Ensures, bind-Ensures, then-Ensures,
  if_match-Ensures, while_comma-Ensures, attempt-Ensures,
}

-- An integer from -2147483647 to 2147483647 as its bits, or a float as its bits.
abbrev pub InRange : Value → Type 0
InRange null = Unit {0}
InRange (int w) = (w < 2 ^ 32) × (w ≢ 2 ^ 31)
InRange (float w) = w < 2 ^ 32
InRange (bool b) = Unit {0}
InRange (string text) = Unit {0}

to_number-Holds : (last : ℕ) (text : Bytes) → Holds (λ n. n ≤ last) (to_number last text)
unfolding to_number
to_number-Holds last text = elim (Bool-cases (begins_with_digit text)) [
  | inr x ↦ rw x tt
  | inl x ↦ elim (Bool-cases (ltb last (leading_digits 0 text))) [
    | inl y ↦ rw (x, y) tt
    | inr y ↦ rw (x, y) (ground (arith, y))
  ]
]

integer_value-InRange :
    (negative : Bool) (v : ℕ) → v ≤ 2 ^ 31 - 1 → InRange (integer_value negative v)
unfolding integer_value
integer_value-InRange true v h = (omega arith, λ e. omega arith)
integer_value-InRange false v h = (omega arith, λ e. omega arith)

float_value-InRange : (negative : Bool) (v : ℕ) → v < 2 ^ 32 → InRange (float_value negative v)
unfolding float_value
float_value-InRange true v h = omega arith
float_value-InRange false v h = h

other-InRange : Ensures InRange parse_other_value
unfolding parse_other_value
other-InRange =
    if_check-Ensures TokenType.string_literal (then-Ensures _ (λ text. done-Ensures _ tt)) (
      if_match-Ensures TokenType.true_kw (done-Ensures _ tt) (
        if_match-Ensures TokenType.false_kw (done-Ensures _ tt)
          (if_match-Ensures TokenType.null_kw (done-Ensures _ tt) (throw-Ensures _))))

-- Values with as many marks for DEFAULT.
abbrev pub Parallel : List Value × List Bool → Type 0
Parallel (vals, defaults) = (length vals ≡ length defaults) × All InRange vals

abbrev pub Filled : List Value × List Bool → Type 0
Filled (vals, defaults) = (length vals ≡ length defaults) × All InRange vals × (0 < length vals)

added :
    (vals : List Value) (defaults : List Bool) (v : Value) (mark : Bool)
    → length vals ≡ length defaults
    → All InRange vals
    → InRange v
    → Filled (vals ++ v ∷ [], defaults ++ mark ∷ [])
added vals defaults v mark same fits fit = (
  omega (arith, length-append vals (v ∷ []), length-append defaults (mark ∷ [])),
  All-append InRange vals (v ∷ []) fits (fit, tt),
  omega (arith, length-append vals (v ∷ [])),
)

-- `std::stof` returns the bits of a float, where it returns.
abbrev pub StofBits : (Bytes → Result ℕ) → Type 0
StofBits stof = (text : Bytes) → Holds (λ v. v < 2 ^ 32) (stof text)

module _ (stof : Bytes → Result ℕ) (bits : StofBits stof) where
  refused :
      (negative : Bool)
      → Ensures InRange (if negative then throw unexpected_token else parse_other_value)
  refused true = throw-Ensures unexpected_token
  refused false = other-InRange

  signed-InRange : (negative : Bool) → Ensures InRange (parse_signed stof negative)
  unfolding parse_signed stoi
  signed-InRange negative =
      if_check-Ensures TokenType.integer_literal
        (then-Ensures _ (λ text.
          bind-Ensures (attempt-Ensures _ (to_number-Holds (2 ^ 31 - 1) text))
            (λ v l. done-Ensures _ (integer_value-InRange negative v l))))
        (if_check-Ensures TokenType.float_literal
          (then-Ensures _ (λ text.
            bind-Ensures (attempt-Ensures (stof text) (bits text))
              (λ v l. done-Ensures _ (float_value-InRange negative v l))))
          (refused negative))

  pub value-InRange : Ensures InRange (parse_value stof)
  unfolding parse_value
  value-InRange = then-Ensures _ signed-InRange

  next_value-Parallel :
      (both : List Value × List Bool) → Parallel both → Ensures Filled (next_value stof both)
  unfolding next_value
  next_value-Parallel (vals, defaults) (same, fits) =
      if_match-Ensures TokenType.default
        (done-Ensures _ (added vals defaults null true same fits tt))
        (bind-Ensures value-InRange
          (λ v fit. done-Ensures _ (added vals defaults v false same fits fit)))

  pub value_list-Filled : Ensures Filled (parse_value_list stof)
  unfolding parse_value_list
  value_list-Filled = then-Ensures _ (λ u.
      bind-Ensures
        (while_comma-Ensures {I = Parallel} (next_value stof) ([], []) next_value-Parallel
          (λ both filled. (filled.0, filled.1)) (refl, tt))
        (λ both filled. then-Ensures _ (λ u. done-Ensures both filled)))
