-- ===== src/Parser/Plain.antt =====
-- What the parser does not look at: the places of tokens, and the texts of all tokens but identifiers and
-- literals. A method that is blind to them does the same on tokens without them.
pub mod Steps
pub mod Words
pub mod Select
pub mod Statements
use gs_dbengine.Base.{
  ℕ, zero, suc, ◌≡◌, refl, sym, ap, ◌∙◌, inl, inr, Bool, true, false, List, [], ◌∷◌, map, length,
  Bytes, Result, ok, err, if◌then◌else◌, Bool-cases, Error, ◌||◌, arith, out_of_fuel,
}
use gs_dbengine.Base.Action.{done, throw, attempt, continue}
use gs_dbengine.Tokenizer.Types.{TokenType, Token}
use gs_dbengine.Parser.Cursor.{
  ◌>>=◌, Parser, type_code, is_type, peek_type, peek_value, later, advance, check, check_two, match,
  expect, expect_, branch, if_check, if_match, if_two, comma_rounds, while_comma,
}

-- The tokens whose text counts.
unfoldable pub has_text : TokenType → Bool
has_text type =
    is_type type TokenType.identifier
    || (is_type type TokenType.integer_literal
        || (is_type type TokenType.float_literal || is_type type TokenType.string_literal))

abbrev pub plain_token : Token → Token
plain_token t = record {
  type = t.type;
  value = if has_text t.type then t.value else [];
  line = 1;
  col = 1;
}

unfoldable pub plain : List Token → List Token
plain [] = []
plain (t ∷ tokens) = plain_token t ∷ plain tokens

abbrev pub erase : {A : Type 0} → Result A × List Token → Result A × List Token
erase (r, tokens) = (r, plain tokens)

pub record Blind {A : Type 0} (p : Parser A) : Type 0 where
  pub run : (tokens : List Token) → p (plain tokens) ≡ erase (p tokens)

pub length-plain : (tokens : List Token) → length (plain tokens) ≡ length tokens
unfolding plain
length-plain [] = refl
length-plain (t ∷ tokens) = ap suc (length-plain tokens)

pub check-plain :
    (type : TokenType) (tokens : List Token) → check type (plain tokens) ≡ check type tokens
unfolding plain check peek_type
check-plain type [] = refl
check-plain type (t ∷ tokens) = refl

pub check_two-plain :
    (type next : TokenType) (tokens : List Token)
    → check_two type next (plain tokens) ≡ check_two type next tokens
unfolding plain check_two
check_two-plain type next [] = refl
check_two-plain type next (t ∷ []) = refl
check_two-plain type next (t ∷ u ∷ tokens) = refl

pub later-plain : (tokens : List Token) → later (plain tokens) ≡ plain (later tokens)
unfolding plain later
later-plain [] = refl
later-plain (t ∷ tokens) = elim (Bool-cases (is_type t.type TokenType.end_of_file)) [
  | inl x ↦ rw x refl
  | inr x ↦ rw x refl
]

-- A text that counts stays.
pub peek_value-plain :
    (type : TokenType) (tokens : List Token)
    → has_text type ≡ true
    → check type tokens ≡ true
    → peek_value (plain tokens) ≡ peek_value tokens
unfolding plain check peek_type peek_value has_text
peek_value-plain type [] h c = refl
peek_value-plain type (t ∷ tokens) h c =
    let x : has_text t.type ≡ true = unfold has_text in ground (arith, h, c) in
    unfold has_text in rw x refl
