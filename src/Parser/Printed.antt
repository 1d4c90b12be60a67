-- ===== src/Parser/Printed.antt =====
-- Literals, lists and INSERT statements as tokens, and what the parser makes of them.
use gs_dbengine.Base.{
  ℕ, zero, suc, ◌-◌, ◌^◌, ◌≤◌, ◌<◌, ◌≡◌, ◌≢◌, refl, ap, ◌∙◌, inl, inr, Bool, true, false, List, [],
  ◌∷◌, ◌++◌, append_assoc, length, length-append, All, Bytes, Result, ok, Option, none, some,
  if◌then◌else◌, ltb, Bool-cases, arith,
}
use gs_dbengine.Row.{Value, null, int, float, bool, string}
use gs_dbengine.Tokenizer.Types.{TokenType, Token}
use gs_dbengine.Parser.Cursor.{
  Parser, ◌>>=◌, type_code, peek_type, peek_value, later, advance, check, match, expect, branch,
  if_check, if_match, comma_rounds, while_comma,
}
use gs_dbengine.Parser.Words.{
  parse_value, parse_signed, parse_other_value, integer_value, next_value, next_name,
}
use gs_dbengine.Parser.Precedence.{keyword, if_match-keyword, if_match-other}
use gs_dbengine.Parser.Takes.{Moves}
use gs_dbengine.Parser.Numbers.{digits, stoi-digits}

abbrev pub word : TokenType → Bytes → Token
word type value = record { type = type; value = value; line = 1; col = 1 }

-- A literal, with its minus sign.
unfoldable pub value_tokens : Value → List Token
value_tokens null = keyword TokenType.null_kw ∷ []
value_tokens (int w) =
    if ltb w (2 ^ 31)
    then word TokenType.integer_literal (digits w) ∷ []
    else keyword TokenType.minus ∷ word TokenType.integer_literal (digits (2 ^ 32 - w)) ∷ []
value_tokens (float w) = []
value_tokens (bool true) = keyword TokenType.true_kw ∷ []
value_tokens (bool false) = keyword TokenType.false_kw ∷ []
value_tokens (string text) = word TokenType.string_literal text ∷ []

-- The values that a literal can write: no float, and no -2147483648.
abbrev pub IsLiteral : Value → Type 0
IsLiteral null = Unit {0}
IsLiteral (int w) = (w < 2 ^ 32) × (w ≢ 2 ^ 31)
IsLiteral (float w) = ⊥
IsLiteral (bool b) = Unit {0}
IsLiteral (string text) = Unit {0}

module _ (stof : Bytes → Result ℕ) where
  parse_value-int :
      (w : ℕ) (rest : List Token)
      → w < 2 ^ 32
      → w ≢ 2 ^ 31
      → parse_value stof (value_tokens (int w) ++ rest) ≡ (ok (int w), rest)
  unfolding parse_value parse_signed value_tokens ◌>>=◌ match check peek_type peek_value later
      advance if_check branch type_code integer_value
  parse_value-int w rest h n = elim (Bool-cases (ltb w (2 ^ 31))) [
    | inl x ↦ rw (x, stoi-digits w (ground arith)) refl
    | inr x ↦
        let small : 2 ^ 32 - w < 2 ^ 31 = ground arith in
        rw (x, stoi-digits (2 ^ 32 - w) small) (ap (λ (v : ℕ). (ok (int v), rest)) (omega arith))
  ]

  parse_value-tokens :
      (v : Value) (rest : List Token)
      → IsLiteral v
      → parse_value stof (value_tokens v ++ rest) ≡ (ok v, rest)
  unfolding parse_value parse_signed parse_other_value value_tokens ◌>>=◌ match check peek_type
      peek_value later advance if_check if_match branch type_code
  parse_value-tokens null rest h = refl
  parse_value-tokens (int w) rest (h, n) = parse_value-int w rest h n
  parse_value-tokens (float w) rest h = absurd h
  parse_value-tokens (bool true) rest h = refl
  parse_value-tokens (bool false) rest h = refl
  parse_value-tokens (string text) rest h = refl

comma_moves : Moves TokenType.comma
unfolding type_code
comma_moves = refl

-- Elements, each behind a comma.
abbrev pub separated : {X : Type 0} → (X → List Token) → List X → List Token
separated show [] = []
separated show (x ∷ xs) = keyword TokenType.comma ∷ (show x ++ separated show xs)

abbrev pub added : {S X : Type 0} → (S → X → S) → S → List X → S
added add s [] = s
added add s (x ∷ xs) = added add (add s x) xs

-- What a loop over commas makes of printed elements.
module _ {S X : Type 0} (round : S → Parser S) (show : X → List Token) (add : S → X → S)
    (Good : X → Type 0)
    (reads : (s : S) (x : X) (rest : List Token)
      → Good x
      → round s (show x ++ rest) ≡ (ok (add s x), rest)) where
  length-elements : (xs : List X) → length xs ≤ length (separated show xs)
  length-elements [] = omega arith
  length-elements (x ∷ xs) =
      omega (arith, length-elements xs, length-append (show x) (separated show xs))

  comma_rounds-elements :
      (fuel : ℕ) (x : X) (xs : List X) (s : S) (rest : List Token)
      → length xs < fuel
      → Good x
      → All Good xs
      → check TokenType.comma rest ≡ false
      → comma_rounds fuel round s (show x ++ (separated show xs ++ rest))
        ≡ (ok (added add (add s x) xs), rest)
  unfolding comma_rounds ◌>>=◌
  comma_rounds-elements zero x xs s rest l g gs other = absurd (omega arith)
  comma_rounds-elements (suc fuel) x [] s rest l g gs other =
      rw (reads s x rest g) (if_match-other TokenType.comma _ _ rest other)
  comma_rounds-elements (suc fuel) x (y ∷ xs) s rest l g (h, gs) other =
      rw (reads s x (separated show (y ∷ xs) ++ rest) g) (
        if_match-keyword TokenType.comma _ _ ((show y ++ separated show xs) ++ rest) comma_moves
        ∙ rw (append_assoc (show y) (separated show xs) rest)
            (comma_rounds-elements fuel y xs (add s x) rest (omega arith) h gs other))

  pub while_comma-elements :
      (x : X) (xs : List X) (s : S) (rest : List Token)
      → Good x
      → All Good xs
      → check TokenType.comma rest ≡ false
      → while_comma round s (show x ++ (separated show xs ++ rest))
        ≡ (ok (added add (add s x) xs), rest)
  unfolding while_comma
  while_comma-elements x xs s rest g gs other =
      comma_rounds-elements (suc (length (show x ++ (separated show xs ++ rest)))) x xs s rest
        (omega (
          arith,
          length-elements xs,
          length-append (show x) (separated show xs ++ rest),
          length-append (separated show xs) rest,
        ))
        g gs other

abbrev pub element_tokens : Option Value → List Token
element_tokens none = keyword TokenType.default ∷ []
element_tokens (some v) = value_tokens v

-- DEFAULT has NULL in its place.
abbrev pub element_value : Option Value → Value
element_value none = null
element_value (some v) = v

abbrev pub is_default : Option Value → Bool
is_default none = true
is_default (some v) = false

abbrev pub IsElement : Option Value → Type 0
IsElement none = Unit {0}
IsElement (some v) = IsLiteral v

abbrev pub add_value : List Value × List Bool → Option Value → List Value × List Bool
add_value (vals, defaults) x = (vals ++ element_value x ∷ [], defaults ++ is_default x ∷ [])

abbrev pub add_name : List Bytes → Bytes → List Bytes
add_name names name = names ++ name ∷ []

pub next_name-word :
    (names : List Bytes) (name : Bytes) (rest : List Token)
    → next_name names (word TokenType.identifier name ∷ rest) ≡ (ok (add_name names name), rest)
unfolding next_name ◌>>=◌ expect check peek_type peek_value type_code advance later
next_name-word names name rest = refl

value_begins :
    (v : Value) (rest : List Token)
    → IsLiteral v
    → check TokenType.default (value_tokens v ++ rest) ≡ false
unfolding value_tokens check peek_type type_code
value_begins null rest h = refl
value_begins (int w) rest h = elim (Bool-cases (ltb w (2 ^ 31))) [
  | inl x ↦ rw x refl
  | inr x ↦ rw x refl
]
value_begins (float w) rest h = absurd h
value_begins (bool true) rest h = refl
value_begins (bool false) rest h = refl
value_begins (string text) rest h = refl

pub next_value-element :
    (stof : Bytes → Result ℕ) (s : List Value × List Bool) (x : Option Value) (rest : List Token)
    → IsElement x
    → next_value stof s (element_tokens x ++ rest) ≡ (ok (add_value s x), rest)
unfolding next_value ◌>>=◌
next_value-element stof (vals, defaults) none rest h =
    if_match-keyword TokenType.default _ _ rest (unfold type_code in refl)
next_value-element stof (vals, defaults) (some v) rest h =
    if_match-other TokenType.default _ _ (value_tokens v ++ rest) (value_begins v rest h)
    ∙ rw (parse_value-tokens stof v rest h) refl
