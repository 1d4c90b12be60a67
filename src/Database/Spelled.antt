-- ===== src/Database/Spelled.antt =====
-- The texts of tokens, with blanks between them, and what the tokenizer makes of them.
use gs_dbengine.Base.{
  ◌≡◌, refl, inl, inr, true, false, ◌==◌, [], ◌∷◌, ◌++◌, append_assoc, append-nil, Bytes, ok, All,
  if◌then◌else◌, Bool-cases, arith,
}
use gs_dbengine.Tokenizer.Scan.{
  Tokenizer, advance, is_digit, is_alpha, is_word, string_loop, number_loop, word_loop,
}
use gs_dbengine.Tokenizer.Loops.{advance-rest}

-- What follows a token: a blank.
abbrev pub gap : Bytes → Bytes
gap more = b' ' ∷ more

pub word_loop-word :
    (value w more : Bytes) (s : Tokenizer)
    → All (λ c. is_word c ≡ true) w
    → s.rest ≡ w ++ gap more
    → (t : Tokenizer) × (word_loop value (w ++ gap more) s ≡ (value ++ w, t)) × (t.rest ≡ gap more)
unfolding word_loop
word_loop-word value [] more s h e =
    (s, unfold is_word is_alpha is_digit in rw (append-nil value) refl, e)
word_loop-word value (c ∷ w) more s (x, h) e =
    let (t, run, rest) =
      word_loop-word (value ++ c ∷ []) w more (advance c (w ++ gap more) s) h
        (advance-rest c (w ++ gap more) s) in
    (t, rw (x, run, append_assoc value (c ∷ []) w) refl, rest)

pub number_loop-digits :
    (value w more : Bytes) (s : Tokenizer)
    → All (λ c. is_digit c ≡ true) w
    → s.rest ≡ w ++ gap more
    → (t : Tokenizer) × (number_loop false value (w ++ gap more) s ≡ (false, value ++ w, t))
      × (t.rest ≡ gap more)
unfolding number_loop
number_loop-digits value [] more s h e = (s, unfold is_digit in rw (append-nil value) refl, e)
number_loop-digits value (c ∷ w) more s (x, h) e =
    let no_dot : (c == b'.') ≡ false = unfold is_digit in ground (arith, x) in
    let (t, run, rest) =
      number_loop-digits (value ++ c ∷ []) w more (advance c (w ++ gap more) s) h
        (advance-rest c (w ++ gap more) s) in
    (t, rw (x, no_dot, run, append_assoc value (c ∷ []) w) refl, rest)

-- A text between quotes, with its quotes doubled.
unfoldable pub doubled : Bytes → Bytes
doubled [] = []
doubled (c ∷ text) =
    let rest = doubled text in if c == b'\'' then b'\'' ∷ b'\'' ∷ rest else c ∷ rest

pub string_loop-doubled :
    (value text more : Bytes) (s : Tokenizer)
    → s.rest ≡ doubled text ++ b'\'' ∷ gap more
    → (t : Tokenizer) × (string_loop false value (doubled text ++ b'\'' ∷ gap more) s
        ≡ ok (value ++ text, t))
      × (t.rest ≡ gap more)
unfolding string_loop doubled
string_loop-doubled value [] more s e =
    (advance b'\'' (gap more) s, rw (append-nil value) refl, advance-rest b'\'' (gap more) s)
string_loop-doubled value (c ∷ text) more s e = elim (Bool-cases (c == b'\'')) [
  | inl x ↦
      let tail = doubled text ++ b'\'' ∷ gap more in
      let same : c ≡ b'\'' = ground arith in
      let (t, run, rest) =
        string_loop-doubled (value ++ b'\'' ∷ []) text more
          (advance b'\'' tail (advance b'\'' (b'\'' ∷ tail) s)) (advance-rest b'\'' tail _) in
      (t, rw (x, run, append_assoc value (b'\'' ∷ []) text, same) refl, rest)
  | inr x ↦
      let tail = doubled text ++ b'\'' ∷ gap more in
      let (t, run, rest) =
        string_loop-doubled (value ++ c ∷ []) text more (advance c tail s)
          (advance-rest c tail s) in
      (t, rw (x, string_loop, x, run, append_assoc value (c ∷ []) text) refl, rest)
]
