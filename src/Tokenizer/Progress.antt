-- ===== src/Tokenizer/Progress.antt =====
-- What reading one token leaves of the input.
use gs_dbengine.Base.{
  ℕ, suc, ◌-◌, ◌≤◌, ◌<◌, ◌≡◌, refl, ◌⊎◌, inl, inr, Bool, true, false, not, ◌||◌, List, [], ◌∷◌,
  ◌++◌, ◌==◌, Bytes, Option, none, some, Result, ok, err, ◌>>=◌, length, all, arith, Bool-cases,
  unterminated_string, unknown_character, if◌then◌else◌,
}
use gs_dbengine.Tokenizer.Types.{TokenType, Token}
use gs_dbengine.Tokenizer.Keywords.{keyword_or_identifier, find_keyword, keywords}
use gs_dbengine.Tokenizer.Scan.{
  Tokenizer, advance, is_digit, is_alpha, string_loop, read_string_literal, number_loop,
  read_number, word_loop, read_identifier_or_keyword, single_operator, double_operator, read_single,
  read_double, read_operator_at, read_operator, put_back, token_from, is_end, token, is_word,
}
use gs_dbengine.Tokenizer.Loops.{
  advance-rest, Within, string_loop-Within, word_loop-le, number_loop-le,
}

-- What a token leaves: it is shorter than the text, but for the END_OF_FILE token.
abbrev pub Progress : ℕ → Result (Token × Tokenizer) → Type 0
Progress n (err e) = (e ≡ unterminated_string) ⊎ (e ≡ unknown_character)
Progress n (ok (t, s)) = (is_end t.type ≡ true) ⊎ ((is_end t.type ≡ false) × (length s.rest < n))

pub Progress-weaken :
    (m n : ℕ) (r : Result (Token × Tokenizer)) → m ≤ n → Progress m r → Progress n r
Progress-weaken m n (err e) h p = p
Progress-weaken m n (ok (t, s)) h (inl e) = inl e
Progress-weaken m n (ok (t, s)) h (inr (e, l)) = inr (e, omega arith)

pub find_keyword-is_end :
    (upper : Bytes) (table : List (Bytes × TokenType))
    → all (λ r. not (is_end r.1)) table ≡ true
    → is_end (find_keyword upper table) ≡ false
unfolding find_keyword is_end
find_keyword-is_end upper [] h = refl
find_keyword-is_end upper ((name, t) ∷ table) h = ground (arith, find_keyword-is_end upper table)

pub keyword-is_end : (word : Bytes) → is_end (keyword_or_identifier word) ≡ false
unfolding keyword_or_identifier is_end
keyword-is_end word = find_keyword-is_end _ keywords refl

-- An operator's type, or the error for a byte that begins none.
abbrev pub Operator : Result TokenType → Type 0
Operator (ok t) = is_end t ≡ false
Operator (err e) = e ≡ unknown_character

pub single-Operator : (c : ℕ) → Operator (single_operator c)
unfolding single_operator is_end
single-Operator c = ground arith

pub read_single-Progress :
    (n c : ℕ) (s : Tokenizer) → length s.rest < n → Progress n (read_single c s)
unfolding read_single
read_single-Progress n c s h = at (single_operator c) (single-Operator c)
  where
    at :
        (r : Result TokenType)
        → Operator r
        → Progress n (r >>= λ t. ok (token t (c ∷ []) (record s { col = s.col - 1 }), s))
    at (ok t) o = inr (o, h)
    at (err e) o = inr o

pub double-is_end : (c : ℕ) (t : TokenType) → double_operator c ≡ some t → is_end t ≡ false
unfolding double_operator is_end
double-is_end c t h = ground arith

pub read_double-Progress :
    (n c : ℕ) (rest : Bytes) (s : Tokenizer) (o : Option TokenType)
    → length s.rest < n
    → length rest < n
    → ((t : TokenType) → o ≡ some t → is_end t ≡ false)
    → Progress n (read_double o c rest s)
unfolding read_double
read_double-Progress n c rest s none h l g = read_single-Progress n c s h
read_double-Progress n c rest s (some t) h l g = inr (g t refl, rw (advance-rest b'=' rest s) l)

pub read_operator-Progress :
    (n c : ℕ) (rest : Bytes) (s : Tokenizer)
    → s.rest ≡ rest
    → length rest < n
    → Progress n (read_operator_at c rest s)
unfolding read_operator_at
read_operator-Progress n c [] s h l = read_single-Progress n c s (rw h l)
read_operator-Progress n c (d ∷ rest) s h l = elim (Bool-cases (d == b'=')) [
  | inl e ↦
      rw e (
        read_double-Progress n c rest s (double_operator c) (rw h l) (omega arith)
          (double-is_end c))
  | inr e ↦ rw e (read_single-Progress n c s (rw h l))
]

pub operator-Progress :
    (n c : ℕ) (s : Tokenizer) → length s.rest < n → Progress n (read_operator c s)
unfolding read_operator
operator-Progress n c s l = read_operator-Progress n c s.rest s refl l

pub string-Progress :
    (n : ℕ) (s : Tokenizer) → length s.rest < n → Progress n (read_string_literal s)
unfolding read_string_literal is_end
string-Progress n s h =
    at (string_loop false [] s.rest s) (string_loop-Within false [] s.rest s refl)
  where
    at :
        (r : Result (Bytes × Tokenizer))
        → Within (length s.rest) r
        → Progress n (r >>= λ v. ok (token TokenType.string_literal v.0 s, v.1))
    at (err e) w = inl w
    at (ok (v, t)) w = inr (refl, omega arith)

-- The byte that is put back is read again.
pub word_loop_next :
    (value rest : Bytes) (c : ℕ) (s : Tokenizer)
    → is_word c ≡ true
    → word_loop value (c ∷ rest) s ≡ word_loop (value ++ c ∷ []) rest (advance c rest s)
unfolding word_loop
word_loop_next value rest c s h = rw h refl

pub number_loop_next :
    (value rest : Bytes) (c : ℕ) (s : Tokenizer)
    → is_digit c ≡ true
    → number_loop false value (c ∷ rest) s
      ≡ number_loop (c == b'.') (value ++ c ∷ []) rest (advance c rest s)
unfolding number_loop
number_loop_next value rest c s h = elim (Bool-cases (c == b'.')) [
  | inl e ↦ rw (h, e) refl
  | inr e ↦ rw (h, e) refl
]

pub word-Progress :
    (n c : ℕ) (s : Tokenizer)
    → is_word c ≡ true
    → length s.rest < n
    → Progress n (ok (read_identifier_or_keyword (put_back c s)))
unfolding read_identifier_or_keyword put_back
word-Progress n c s h l =
    let t : Tokenizer = put_back c s in
    inr (
      keyword-is_end _,
      rw (word_loop_next [] s.rest c t h) (
          omega
            (arith, word_loop-le (c ∷ []) s.rest (advance c s.rest t) (advance-rest c s.rest t))),
    )

pub literal-is_end :
    (b : Bool) → is_end (if b then TokenType.float_literal else TokenType.integer_literal) ≡ false
unfolding is_end
literal-is_end true = refl
literal-is_end false = refl

pub number-Progress :
    (n c : ℕ) (s : Tokenizer)
    → is_digit c ≡ true
    → length s.rest < n
    → Progress n (ok (read_number (put_back c s)))
unfolding read_number put_back
number-Progress n c s h l =
    let t : Tokenizer = put_back c s in
    inr (
      literal-is_end _,
      rw (number_loop_next [] s.rest c t h) (
          omega (
            arith,
            number_loop-le (c == b'.') (c ∷ []) s.rest (advance c s.rest t)
                (advance-rest c s.rest t),
          )),
    )

pub word-letter : (c : ℕ) → (is_alpha c || c == b'_') ≡ true → is_word c ≡ true
unfolding is_word
word-letter c h = ground arith

pub token_from-Progress :
    (rest : Bytes) (s : Tokenizer) → s.rest ≡ rest → Progress (length rest) (token_from rest s)
unfolding token_from is_end
token_from-Progress [] s e = inl refl
token_from-Progress (c ∷ rest) s e =
    let t : Tokenizer = advance c rest s in
    let l : length t.rest < suc (length rest) = rw (advance-rest c rest s) (omega arith) in
    elim (Bool-cases (c == b'\'')) [
      | inl q ↦ rw q (string-Progress _ t l)
      | inr q ↦ elim (Bool-cases (is_digit c)) [
        | inl d ↦ rw (q, d) (number-Progress _ c t d l)
        | inr d ↦ elim (Bool-cases (is_alpha c || c == b'_')) [
          | inl a ↦ rw (q, d, a) (word-Progress _ c t (word-letter c a) l)
          | inr a ↦ rw (q, d, a) (operator-Progress _ c t l)
        ]
      ]
    ]
