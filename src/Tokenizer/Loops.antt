-- ===== src/Tokenizer/Loops.antt =====
-- The loops of the tokenizer, each of which leaves no more of the input than it was given.
use gs_dbengine.Base.{
  ℕ, zero, suc, ◌≤◌, ◌<◌, ◌≡◌, refl, inl, inr, Bool, true, false, not, ◌&&◌, ◌||◌, [], ◌∷◌, ◌++◌,
  ◌==◌, Bytes, Option, none, some, Result, ok, err, length, arith, Bool-cases, unterminated_string,
}
use gs_dbengine.Tokenizer.Scan.{
  Tokenizer, advance, is_space, is_digit, skip_line, skip_round, starts_comment, skip_rounds,
  skip_whitespace_and_comments, string_loop, number_loop, word_loop, is_word,
}

pub advance-rest : (c : ℕ) (rest : Bytes) (s : Tokenizer) → (advance c rest s).rest ≡ rest
unfolding advance
advance-rest c rest s = elim (Bool-cases (c == b'\n')) [ inl e ↦ rw e refl | inr e ↦ rw e refl ]

pub skip_line-le :
    (rest : Bytes) (s : Tokenizer) → s.rest ≡ rest → length (skip_line rest s).rest ≤ length rest
unfolding skip_line
skip_line-le [] s e = rw e (omega arith)
skip_line-le (c ∷ rest) s e =
    ground (arith, skip_line-le rest (advance c rest s) (advance-rest c rest s))

-- A round that goes on leaves fewer than `n` bytes.
abbrev pub Shorter : ℕ → Option Tokenizer → Type 0
Shorter n none = Unit {0}
Shorter n (some t) = length t.rest < n

pub Shorter-weaken : (m n : ℕ) (o : Option Tokenizer) → m ≤ n → Shorter m o → Shorter n o
Shorter-weaken m n none h l = tt
Shorter-weaken m n (some t) h l = omega arith

pub comment-Shorter :
    (c : ℕ) (rest : Bytes) (s : Tokenizer)
    → starts_comment c rest ≡ true
    → length (skip_line (c ∷ rest) s).rest < suc (length rest)
unfolding skip_line starts_comment
comment-Shorter c [] s h = cc
comment-Shorter c (d ∷ rest) s h =
    ground (arith, skip_line-le (d ∷ rest) (advance c (d ∷ rest) s) (advance-rest c (d ∷ rest) s))

pub skip_round-Shorter : (rest : Bytes) (s : Tokenizer) → Shorter (length rest) (skip_round rest s)
unfolding skip_round
skip_round-Shorter [] s = tt
skip_round-Shorter (c ∷ rest) s = elim (Bool-cases (is_space c)) [
  | inl e ↦ rw (e, advance-rest c rest s) (omega arith)
  | inr e ↦ elim (Bool-cases (starts_comment c rest)) [
    | inl h ↦ rw (e, h) (comment-Shorter c rest s h)
    | inr h ↦ rw (e, h) tt
  ]
]

-- Where skipping ends, within the `n` bytes that it was given.
abbrev pub Skipped : ℕ → Result Tokenizer → Type 0
Skipped n (err e) = ⊥
Skipped n (ok t) = length t.rest ≤ n

pub skip_rounds-Skipped :
    (fuel n : ℕ) (o : Option Tokenizer) (s : Tokenizer)
    → Shorter fuel o
    → Shorter (suc n) o
    → length s.rest ≤ n
    → Skipped n (skip_rounds fuel o s)
unfolding skip_rounds
skip_rounds-Skipped fuel n none s h g l = l
skip_rounds-Skipped zero n (some t) s h g l = absurd (omega arith)
skip_rounds-Skipped (suc fuel) n (some t) s h g l =
    skip_rounds-Skipped fuel n (skip_round t.rest t) t
      (Shorter-weaken (length t.rest) fuel _ (omega arith) (skip_round-Shorter t.rest t))
      (Shorter-weaken (length t.rest) (suc n) _ (omega arith) (skip_round-Shorter t.rest t))
      (omega arith)

pub skip-Skipped : (s : Tokenizer) → Skipped (length s.rest) (skip_whitespace_and_comments s)
unfolding skip_whitespace_and_comments
skip-Skipped s =
    skip_rounds-Skipped (length s.rest) (length s.rest) (skip_round s.rest s) s
      (skip_round-Shorter s.rest s)
      (Shorter-weaken (length s.rest) (suc (length s.rest)) _ (omega arith)
        (skip_round-Shorter s.rest s))
      (omega arith)

-- A literal's loop leaves at most what it was given.
abbrev pub Within {ℓ} : {A : Type ℓ} → ℕ → Result (A × Tokenizer) → Type 0
Within n (err e) = e ≡ unterminated_string
Within n (ok (v, t)) = length t.rest ≤ n

pub Within-weaken {ℓ} :
    {A : Type ℓ} (m n : ℕ) (r : Result (A × Tokenizer)) → m ≤ n → Within m r → Within n r
Within-weaken m n (err e) h w = w
Within-weaken m n (ok (v, t)) h w = omega arith

pub string_loop-Within :
    (quoted : Bool) (value rest : Bytes) (s : Tokenizer)
    → s.rest ≡ rest
    → Within (length rest) (string_loop quoted value rest s)
unfolding string_loop
string_loop-Within false value [] s h = refl
string_loop-Within true value [] s h = rw h (omega arith)
string_loop-Within false value (c ∷ rest) s h =
    Within-weaken (length rest) (suc (length rest)) _ (omega arith)
      (string_loop-Within (c == b'\'') _ rest (advance c rest s) (advance-rest c rest s))
string_loop-Within true value (c ∷ rest) s h = elim (Bool-cases (c == b'\'')) [
  | inl e ↦ rw e (
      Within-weaken (length rest) (suc (length rest)) _ (omega arith)
        (string_loop-Within false _ rest (advance c rest s) (advance-rest c rest s)))
  | inr e ↦ rw (e, h) (omega arith)
]

pub word_loop-le :
    (value rest : Bytes) (s : Tokenizer)
    → s.rest ≡ rest
    → length ((word_loop value rest s).1).rest ≤ length rest
unfolding word_loop
word_loop-le value [] s h = rw h (omega arith)
word_loop-le value (c ∷ rest) s h =
    let later = word_loop-le (value ++ c ∷ []) rest (advance c rest s) (advance-rest c rest s) in
    elim (Bool-cases (is_word c)) [ inl e ↦ rw e (omega arith) | inr e ↦ rw (e, h) (omega arith) ]

pub number_loop-le :
    (is_float : Bool) (value rest : Bytes) (s : Tokenizer)
    → s.rest ≡ rest
    → length ((number_loop is_float value rest s).2).rest ≤ length rest
unfolding number_loop
number_loop-le is_float value [] s h = rw h (omega arith)
number_loop-le is_float value (c ∷ rest) s h =
    let later =
      number_loop-le (is_float || c == b'.') (value ++ c ∷ []) rest (advance c rest s)
        (advance-rest c rest s) in
    elim (Bool-cases ((is_digit c || c == b'.') && not (c == b'.' && is_float))) [
      | inl e ↦ rw e (omega arith)
      | inr e ↦ rw (e, h) (omega arith)
    ]
