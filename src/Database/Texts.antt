-- ===== src/Database/Texts.antt =====
-- The texts of keywords, names, operators and literals.
use gs_dbengine.Base.{
  ℕ, ◌-◌, ◌^◌, ◌≡◌, refl, ap, ◌∙◌, subst, inl, inr, Bool, true, false, [], ◌∷◌, ◌++◌, all, All,
  Bytes, ok, if◌then◌else◌, ltb, Bool-cases, arith,
}
use gs_dbengine.Row.{Value, null, int, float, bool, string, list_eq}
use gs_dbengine.Catalog.Schema.{text_eq}
use gs_dbengine.Tokenizer.Types.{TokenType, Token, token_type_name}
use gs_dbengine.Tokenizer.Keywords.{keyword_or_identifier, find_keyword, to_upper}
use gs_dbengine.Tokenizer.Scan.{is_alpha, is_digit, is_word, is_end, single_operator}
use gs_dbengine.Tokenizer.Words.{is_keyword}
use gs_dbengine.Parser.Cursor.{type_code, is_type}
use gs_dbengine.Parser.Plain.{has_text, plain_token}
use gs_dbengine.Parser.Precedence.{keyword}
use gs_dbengine.Parser.Words.{begins_with_digit}
use gs_dbengine.Parser.Numbers.{digits, Digits, digits_in-Digits, begins-digits_in}
use gs_dbengine.Parser.Printed.{word, value_tokens, IsLiteral}
use gs_dbengine.Database.Spelled.{doubled}
use gs_dbengine.Database.Scans.{
  Scans, begins_word, Scans-word, Scans-digits, Scans-string, Scans-operator,
}

-- The text of a token without its place.
unfoldable pub spelling : Token → Bytes
spelling u =
    if is_type u.type TokenType.string_literal
    then b'\'' ∷ (doubled u.value ++ b'\'' ∷ [])
    else if has_text u.type
    then u.value
    else token_type_name u.type

abbrev pub starts_word : Bytes → Bool
starts_word [] = false
starts_word (c ∷ w) = begins_word c

all-All : (w : Bytes) → all is_word w ≡ true → All (λ b. is_word b ≡ true) w
all-All [] h = tt
all-All (b ∷ w) h =
    let x : is_word b ≡ true = ground (arith, h) in
    let xs : all is_word w ≡ true = ground (arith, h) in (x, all-All w xs)

Scans-name :
    (w : Bytes) (t : TokenType)
    → starts_word w ≡ true
    → all is_word w ≡ true
    → keyword_or_identifier w ≡ t
    → is_end t ≡ false
    → Scans (plain_token (word t w)) w
Scans-name [] t b h e g = cc
Scans-name (c ∷ w) t b h e g =
    let x : All (λ b. is_word b ≡ true) (c ∷ w) = all-All (c ∷ w) h in
    let ends : is_end (keyword_or_identifier (c ∷ w)) ≡ false = ap is_end e ∙ g in
    subst (λ u. Scans (plain_token (word u (c ∷ w))) (c ∷ w)) e (Scans-word c w b x.1 ends)

keyword_is_word :
    (t : TokenType)
    → is_keyword t ≡ true
    → (starts_word (token_type_name t) ≡ true) × (all is_word (token_type_name t) ≡ true)
unfolding token_type_name is_word is_alpha is_digit
keyword_is_word TokenType.identifier h = cc
keyword_is_word _ h = ground arith

keyword_or_identifier-keyword :
    (t : TokenType) → is_keyword t ≡ true → keyword_or_identifier (token_type_name t) ≡ t
unfolding token_type_name keyword_or_identifier find_keyword text_eq list_eq to_upper
keyword_or_identifier-keyword TokenType.identifier h = cc
keyword_or_identifier-keyword _ h = ground arith

keyword_types :
    (t : TokenType)
    → is_keyword t ≡ true
    → (has_text t ≡ false) × (is_end t ≡ false) × (is_type t TokenType.string_literal ≡ false)
unfolding has_text type_code is_end
keyword_types TokenType.identifier h = cc
keyword_types _ h = ground arith

-- Tokens whose text the tokenizer reads.
abbrev pub IsSpelled : Token → Type 0
IsSpelled u = Scans u (spelling u)

pub keyword-IsSpelled : (t : TokenType) → is_keyword t ≡ true → IsSpelled (keyword t)
unfolding spelling
keyword-IsSpelled t h =
    let (no_text, goes_on, no_string) = keyword_types t h in
    let (begins, words) = keyword_is_word t h in
    let scans =
      Scans-name (token_type_name t) t begins words (keyword_or_identifier-keyword t h) goes_on in
    rw (no_string, no_text) (rw no_text at scans)

pub operator-IsSpelled :
    (t : TokenType) (c : ℕ)
    → token_type_name t ≡ c ∷ []
    → single_operator c ≡ ok t
    → (has_text t ≡ false) × (is_end t ≡ false) × (is_type t TokenType.string_literal ≡ false)
    → IsSpelled (keyword t)
unfolding spelling
operator-IsSpelled t c name single (no_text, goes_on, no_string) =
    rw (no_string, no_text, name) (Scans-operator c t single no_text goes_on)

-- A name that is no keyword.
abbrev pub IsName : Bytes → Type 0
IsName w =
    (starts_word w ≡ true)
    × (all is_word w ≡ true)
    × (keyword_or_identifier w ≡ TokenType.identifier)

pub name-IsSpelled : (w : Bytes) → IsName w → IsSpelled (word TokenType.identifier w)
unfolding spelling has_text type_code is_end
name-IsSpelled w (begins, words, same) = Scans-name w TokenType.identifier begins words same refl

Scans-number :
    (w : Bytes) → begins_with_digit w ≡ true → Digits w → Scans (word TokenType.integer_literal w) w
unfolding begins_with_digit
Scans-number [] b h = cc
Scans-number (c ∷ w) b (x, h) = Scans-digits c w x h

number-IsSpelled : (n : ℕ) → IsSpelled (word TokenType.integer_literal (digits n))
unfolding spelling has_text type_code
number-IsSpelled n = Scans-number (digits n) (begins-digits_in n n) (digits_in-Digits n n)

pub value_tokens-IsSpelled : (v : Value) → IsLiteral v → All IsSpelled (value_tokens v)
unfolding value_tokens
value_tokens-IsSpelled null h = (keyword-IsSpelled TokenType.null_kw refl, tt)
value_tokens-IsSpelled (int w) h = elim (Bool-cases (ltb w (2 ^ 31))) [
  | inl x ↦ rw x (number-IsSpelled w, tt)
  | inr x ↦ rw x (
    operator-IsSpelled TokenType.minus b'-' (unfold token_type_name in refl)
        (unfold single_operator in refl) (unfold has_text type_code is_end in (refl, refl, refl)),
    (number-IsSpelled (2 ^ 32 - w), tt),
  )
]
value_tokens-IsSpelled (float w) h = absurd h
value_tokens-IsSpelled (bool true) h = (keyword-IsSpelled TokenType.true_kw refl, tt)
value_tokens-IsSpelled (bool false) h = (keyword-IsSpelled TokenType.false_kw refl, tt)
value_tokens-IsSpelled (string text) h = (unfold spelling type_code in Scans-string text, tt)
