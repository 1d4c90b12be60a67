-- ===== src/Database/Scans.antt =====
-- The texts of single tokens, followed by a blank, and what the tokenizer makes of them.
use gs_dbengine.Base.{
  ℕ, ◌≡◌, refl, ap, ◌∙◌, Bool, true, false, ◌||◌, ◌+◌, ◌==◌, [], ◌∷◌, ◌++◌, append_assoc, Bytes, ok,
  All, arith, none,
}
use gs_dbengine.Tokenizer.Types.{TokenType, Token}
use gs_dbengine.Tokenizer.Keywords.{keyword_or_identifier}
use gs_dbengine.Tokenizer.Scan.{
  Tokenizer, advance, is_space, is_digit, is_alpha, is_word, starts_comment, skip_round,
  read_string_literal, read_number, read_identifier_or_keyword, single_operator, read_single,
  read_operator_at, read_operator, put_back, token_from, is_end, token, before, word_loop,
  number_loop,
}
use gs_dbengine.Tokenizer.Loops.{advance-rest}
use gs_dbengine.Parser.Cursor.{type_code}
use gs_dbengine.Parser.Plain.{has_text, plain_token}
use gs_dbengine.Parser.Precedence.{keyword}
use gs_dbengine.Parser.Printed.{word}
use gs_dbengine.Database.Spelled.{
  gap, doubled, word_loop-word, number_loop-digits, string_loop-doubled,
}

-- The tokenizer reads the text for the token, but for its place and the text of a keyword.
abbrev pub Reads : Token → Bytes → Bytes → Tokenizer → Type 0
Reads u text more s =
    (t : Token) × (s' : Tokenizer) × (token_from (text ++ gap more) s ≡ ok (t, s'))
    × (s'.rest ≡ gap more)
    × (plain_token t ≡ u)

pub record Scans (u : Token) (text : Bytes) : Type 0 where
  pub run : (more : Bytes) (s : Tokenizer) → Reads u text more s
  -- It begins neither with a blank nor with a comment.
  pub begins : (more : Bytes) (s : Tokenizer) → skip_round (text ++ gap more) s ≡ none
  pub goes_on : is_end u.type ≡ false

-- A letter or an underscore.
abbrev pub begins_word : ℕ → Bool
begins_word c = is_alpha c || c == b'_'

not_comment : (c : ℕ) (rest : Bytes) → (c == b'-') ≡ false → starts_comment c rest ≡ false
unfolding starts_comment
not_comment c [] h = refl
not_comment c (d ∷ rest) h = rw h refl

read_word :
    (w more : Bytes) (s : Tokenizer)
    → All (λ b. is_word b ≡ true) w
    → s.rest ≡ w ++ gap more
    → (t : Token) × (s' : Tokenizer) × (read_identifier_or_keyword s ≡ (t, s'))
      × (s'.rest ≡ gap more)
      × (plain_token t ≡ plain_token (word (keyword_or_identifier w) w))
unfolding read_identifier_or_keyword
read_word w more s h e =
    let (s', run, rest) = word_loop-word [] w more s h e in
    let whole : word_loop [] s.rest s ≡ (w, s') = ap (λ r. word_loop [] r s) e ∙ run in
    (token (keyword_or_identifier w) w s, s', rw whole refl, rest, refl)

pub Scans-word :
    (c : ℕ) (w : Bytes)
    → begins_word c ≡ true
    → All (λ b. is_word b ≡ true) w
    → is_end (keyword_or_identifier (c ∷ w)) ≡ false
    → Scans (plain_token (word (keyword_or_identifier (c ∷ w)) (c ∷ w))) (c ∷ w)
unfolding token_from put_back skip_round
Scans-word c w b h g =
    let no_quote : (c == b'\'') ≡ false = unfold is_alpha in ground (arith, b) in
    let no_digit : is_digit c ≡ false = unfold is_digit is_alpha in ground (arith, b) in
    let no_space : is_space c ≡ false = unfold is_space is_alpha in ground (arith, b) in
    let no_dash : (c == b'-') ≡ false = unfold is_alpha in ground (arith, b) in
    let first : is_word c ≡ true = unfold is_word in ground (arith, b) in
    record {
      run = λ more s.
          let at = put_back c (advance c (w ++ gap more) s) in
          let here : at.rest ≡ c ∷ (w ++ gap more) =
            ap (λ r. c ∷ r) (advance-rest c (w ++ gap more) s) in
          let (t, s', run, rest, same) = read_word (c ∷ w) more at (first, h) here in
          (t, s', rw (no_quote, no_digit, b) (ap ok run), rest, same);
      begins = λ more s. rw (no_space, not_comment c (w ++ gap more) no_dash) refl;
      goes_on = g;
    }

read_digits :
    (w more : Bytes) (s : Tokenizer)
    → All (λ b. is_digit b ≡ true) w
    → s.rest ≡ w ++ gap more
    → (t : Token) × (s' : Tokenizer) × (read_number s ≡ (t, s'))
      × (s'.rest ≡ gap more)
      × (plain_token t ≡ word TokenType.integer_literal w)
unfolding read_number has_text type_code
read_digits w more s h e =
    let (s', run, rest) = number_loop-digits [] w more s h e in
    let whole : number_loop false [] s.rest s ≡ (false, w, s') =
      ap (λ r. number_loop false [] r s) e ∙ run in
    (token TokenType.integer_literal w s, s', rw whole refl, rest, refl)

pub Scans-digits :
    (c : ℕ) (w : Bytes)
    → is_digit c ≡ true
    → All (λ b. is_digit b ≡ true) w
    → Scans (word TokenType.integer_literal (c ∷ w)) (c ∷ w)
unfolding token_from put_back skip_round is_end
Scans-digits c w d h =
    let no_quote : (c == b'\'') ≡ false = unfold is_digit in ground (arith, d) in
    let no_space : is_space c ≡ false = unfold is_space is_digit in ground (arith, d) in
    let no_dash : (c == b'-') ≡ false = unfold is_digit in ground (arith, d) in
    record {
      run = λ more s.
          let at = put_back c (advance c (w ++ gap more) s) in
          let here : at.rest ≡ c ∷ (w ++ gap more) =
            ap (λ r. c ∷ r) (advance-rest c (w ++ gap more) s) in
          let (t, s', run, rest, same) = read_digits (c ∷ w) more at (d, h) here in
          (t, s', rw (no_quote, d) (ap ok run), rest, same);
      begins = λ more s. rw (no_space, not_comment c (w ++ gap more) no_dash) refl;
      goes_on = refl;
    }

pub Scans-string :
    (text : Bytes)
    → Scans (word TokenType.string_literal text) (b'\'' ∷ (doubled text ++ b'\'' ∷ []))
unfolding token_from skip_round is_end read_string_literal has_text type_code advance is_space
Scans-string text = record {
  run = λ more s.
      let tail = doubled text ++ b'\'' ∷ gap more in
      let at = advance b'\'' tail s in
      let (s', run, rest) = string_loop-doubled [] text more at refl in
      (
        token TokenType.string_literal text at,
        s',
        rw (append_assoc (doubled text) (b'\'' ∷ []) (gap more), run) refl,
        rest,
        refl,
      );
  begins = λ more s. rw (not_comment b'\'' ((doubled text ++ b'\'' ∷ []) ++ gap more) refl) refl;
  goes_on = refl;
}

-- No operator begins another token.
operator_alone :
    (c : ℕ) (t : TokenType)
    → single_operator c ≡ ok t
    → ((c == b'\'') ≡ false)
      × (is_digit c ≡ false)
      × (begins_word c ≡ false)
      × (is_space c ≡ false)
      × ((c == b'\n') ≡ false)
unfolding single_operator is_digit is_alpha is_space
operator_alone c t h = ground (arith, h)

pub Scans-operator :
    (c : ℕ) (t : TokenType)
    → single_operator c ≡ ok t
    → has_text t ≡ false
    → is_end t ≡ false
    → Scans (keyword t) (c ∷ [])
unfolding token_from skip_round read_operator read_operator_at read_single advance
Scans-operator c t h no_text goes_on =
    let (no_quote, no_digit, no_word, no_space, no_newline) = operator_alone c t h in
    record {
      run = λ more s.
          let at : Tokenizer = record { rest = gap more; line = s.line; col = s.col + 1 } in
          (
            token t (c ∷ []) (before at),
            at,
            rw (no_quote, no_digit, no_word, no_newline, h) refl,
            refl,
            rw no_text refl,
          );
      begins = λ more s. rw (no_space) (unfold starts_comment in ground arith);
      goes_on = goes_on;
    }
