-- ===== src/Tokenizer/Scan.antt =====
-- src/parser/tokenizer.h and tokenizer.cpp. The position `pos_` in the input is the list of the bytes
-- that follow it, and `at_end` is its being empty; the input is shorter than 2 ^ 64 bytes, so that
-- the line and the column do not wrap. A method returns the state that it leaves.
use gs_dbengine.Base.{
  ℕ, zero, suc, ◌+◌, ◌-◌, Bool, true, false, not, ◌&&◌, ◌||◌, List, [], ◌∷◌, ◌++◌, Bytes, Option,
  none, some, Result, ok, err, ◌>>=◌, if◌then◌else◌, ◌==◌, leb, length, out_of_fuel,
  unterminated_string, unknown_character,
}
use gs_dbengine.Tokenizer.Types.{TokenType, Token}
use gs_dbengine.Tokenizer.Keywords.{keyword_or_identifier}

pub record Tokenizer : Type 0 where
  pub rest : Bytes
  pub line : ℕ
  pub col : ℕ

-- `std::isspace`, `std::isdigit` and `std::isalpha` of the C locale
unfoldable pub is_space : ℕ → Bool
is_space c = c == b' ' || leb 9 c && leb c 13

unfoldable pub is_digit : ℕ → Bool
is_digit c = leb b'0' c && leb c b'9'

unfoldable pub is_alpha : ℕ → Bool
is_alpha c = leb b'A' c && leb c b'Z' || leb b'a' c && leb c b'z'

-- `advance` past `c`, the first byte of what follows
unfoldable pub advance : ℕ → Bytes → Tokenizer → Tokenizer
advance c rest s =
    if c == b'\n'
    then record { rest = rest; line = s.line + 1; col = 1 }
    else record { rest = rest; line = s.line; col = s.col + 1 }

-- `while (!at_end() && peek() != '\n') advance();`
unfoldable pub skip_line : Bytes → Tokenizer → Tokenizer
skip_line [] s = s
skip_line (c ∷ rest) s =
    let later = skip_line rest (advance c rest s) in if c == b'\n' then s else later

-- One round of the loop of `skip_whitespace_and_comments`; `none` is its `break` or the end.
unfoldable pub starts_comment : ℕ → Bytes → Bool
starts_comment c [] = false
starts_comment c (d ∷ _) = c == b'-' && d == b'-'

unfoldable pub skip_round : Bytes → Tokenizer → Option Tokenizer
unfolding is_space starts_comment
skip_round [] s = none
skip_round (c ∷ rest) s =
    if is_space c
    then some (advance c rest s)
    else if starts_comment c rest
    then some (skip_line (c ∷ rest) s)
    else none

unfoldable pub skip_rounds : ℕ → Option Tokenizer → Tokenizer → Result Tokenizer
skip_rounds fuel none s = ok s
skip_rounds zero (some t) s = err out_of_fuel
skip_rounds (suc fuel) (some t) s = skip_rounds fuel (skip_round t.rest t) t

-- The fuel is the number of the bytes left: a round takes one at least.
unfoldable pub skip_whitespace_and_comments : Tokenizer → Result Tokenizer
skip_whitespace_and_comments s = skip_rounds (length s.rest) (skip_round s.rest s) s

abbrev pub token : TokenType → Bytes → Tokenizer → Token
token t v s = record { type = t; value = v; line = s.line; col = s.col }

-- The loop of `read_string_literal`. The flag says that the byte just read was a quote, which ends
-- the literal unless another one follows it.
unfoldable pub string_loop : Bool → Bytes → Bytes → Tokenizer → Result (Bytes × Tokenizer)
string_loop false value [] s = err unterminated_string
string_loop true value [] s = ok (value, s)
string_loop false value (c ∷ rest) s =
    string_loop (c == b'\'') (if c == b'\'' then value else value ++ c ∷ []) rest (advance c rest s)
string_loop true value (c ∷ rest) s =
    let later = string_loop false (value ++ b'\'' ∷ []) rest (advance c rest s) in
    if c == b'\'' then later else ok (value, s)

unfoldable pub read_string_literal : Tokenizer → Result (Token × Tokenizer)
read_string_literal s = do
  (value, t) ← string_loop false [] s.rest s
  ok (token TokenType.string_literal value s, t)

-- The flag is `is_float`; the second dot stops the loop.
unfoldable pub number_loop : Bool → Bytes → Bytes → Tokenizer → Bool × Bytes × Tokenizer
unfolding is_digit
number_loop is_float value [] s = (is_float, value, s)
number_loop is_float value (c ∷ rest) s =
    let later = number_loop (is_float || c == b'.') (value ++ c ∷ []) rest (advance c rest s) in
    if (is_digit c || c == b'.') && not (c == b'.' && is_float) then later else (is_float, value, s)

unfoldable pub read_number : Tokenizer → Token × Tokenizer
read_number s =
    let (is_float, value, t) = number_loop false [] s.rest s in
    (token (if is_float then TokenType.float_literal else TokenType.integer_literal) value s, t)

unfoldable pub is_word : ℕ → Bool
unfolding is_alpha is_digit
is_word c = is_alpha c || is_digit c || c == b'_'

unfoldable pub word_loop : Bytes → Bytes → Tokenizer → Bytes × Tokenizer
unfolding is_word
word_loop value [] s = (value, s)
word_loop value (c ∷ rest) s =
    let later = word_loop (value ++ c ∷ []) rest (advance c rest s) in
    if is_word c then later else (value, s)

unfoldable pub read_identifier_or_keyword : Tokenizer → Token × Tokenizer
read_identifier_or_keyword s =
    let (value, t) = word_loop [] s.rest s in (token (keyword_or_identifier value) value s, t)

-- The operators of one byte.
unfoldable pub single_operator : ℕ → Result TokenType
single_operator c =
    if c == b'='
    then ok TokenType.eq
    else if c == b'<'
    then ok TokenType.lt
    else if c == b'>'
    then ok TokenType.gt
    else if c == b'+'
    then ok TokenType.plus
    else if c == b'-'
    then ok TokenType.minus
    else if c == b'('
    then ok TokenType.lparen
    else if c == b')'
    then ok TokenType.rparen
    else if c == b','
    then ok TokenType.comma
    else if c == b';'
    then ok TokenType.semicolon
    else if c == b'*'
    then ok TokenType.star
    else if c == b'.'
    then ok TokenType.dot
    else err unknown_character

-- The operators of two bytes, by their first one; the second is `=`.
unfoldable pub double_operator : ℕ → Option TokenType
double_operator first =
    if first == b'!'
    then some TokenType.neq
    else if first == b'<'
    then some TokenType.lte
    else if first == b'>'
    then some TokenType.gte
    else none

-- `col_ - 1`: the column of `first`, which has been read
abbrev pub before : Tokenizer → Tokenizer
before s = record s { col = s.col - 1 }

unfoldable pub read_single : ℕ → Tokenizer → Result (Token × Tokenizer)
read_single first s = do t ← single_operator first; ok (token t (first ∷ []) (before s), s)

unfoldable pub read_double : Option TokenType → ℕ → Bytes → Tokenizer → Result (Token × Tokenizer)
unfolding read_single
read_double none first rest s = read_single first s
read_double (some t) first rest s = ok (token t (first ∷ b'=' ∷ []) (before s), advance b'=' rest s)

unfoldable pub read_operator_at : ℕ → Bytes → Tokenizer → Result (Token × Tokenizer)
unfolding double_operator
read_operator_at first [] s = read_single first s
read_operator_at first (c ∷ rest) s =
    if c == b'=' then read_double (double_operator first) first rest s else read_single first s

unfoldable pub read_operator : ℕ → Tokenizer → Result (Token × Tokenizer)
read_operator first s = read_operator_at first s.rest s

-- `pos_--; col_--;`
unfoldable pub put_back : ℕ → Tokenizer → Tokenizer
put_back c s = record s { rest = c ∷ s.rest; col = s.col - 1 }

unfoldable pub token_from : Bytes → Tokenizer → Result (Token × Tokenizer)
token_from [] s = ok (token TokenType.end_of_file [] s, s)
token_from (c ∷ rest) s =
    let s' = advance c rest s in
    if c == b'\''
    then read_string_literal s'
    else if is_digit c
    then ok (read_number (put_back c s'))
    else if is_alpha c || c == b'_'
    then ok (read_identifier_or_keyword (put_back c s'))
    else read_operator c s'

unfoldable pub next_token : Tokenizer → Result (Token × Tokenizer)
next_token s = do t ← skip_whitespace_and_comments s; token_from t.rest t

unfoldable pub is_end : TokenType → Bool
is_end TokenType.end_of_file = true
is_end _ = false

-- The loop of `tokenize`, after a call of `next_token`.
unfoldable pub tokenize_loop : ℕ → Result (Token × Tokenizer) → Result (List Token)
tokenize_loop fuel (err e) = err e
tokenize_loop zero (ok (t, s)) = if is_end t.type then ok (t ∷ []) else err out_of_fuel
tokenize_loop (suc fuel) (ok (t, s)) =
    let later = tokenize_loop fuel (next_token s) in
    if is_end t.type then ok (t ∷ []) else (do ts ← later; ok (t ∷ ts))

abbrev pub start : Bytes → Tokenizer
start input = record { rest = input; line = 1; col = 1 }

unfoldable pub tokenize : Bytes → Result (List Token)
tokenize input = tokenize_loop (length input) (next_token (start input))
