-- ===== src/Tokenizer/Ends.antt =====
-- `tokenize` ends: each token takes bytes off the input.
use gs_dbengine.Base.{
  ℕ, zero, suc, ◌≤◌, ◌≡◌, refl, ap, ◌⊎◌, inl, inr, true, false, not, List, [], ◌∷◌, ◌++◌, Bytes,
  Result, ok, err, ◌>>=◌, length, all, arith, unterminated_string, unknown_character,
}
use gs_dbengine.Tokenizer.Types.{Token}
use gs_dbengine.Tokenizer.Scan.{
  Tokenizer, skip_whitespace_and_comments, token_from, next_token, is_end, tokenize_loop, tokenize,
  start,
}
use gs_dbengine.Tokenizer.Loops.{Skipped, skip-Skipped}
use gs_dbengine.Tokenizer.Progress.{Progress, Progress-weaken, token_from-Progress}

next_token-Progress : (s : Tokenizer) → Progress (length s.rest) (next_token s)
unfolding next_token
next_token-Progress s = at (skip_whitespace_and_comments s) (skip-Skipped s)
  where
    at :
        (r : Result Tokenizer)
        → Skipped (length s.rest) r
        → Progress (length s.rest) (r >>= λ t. token_from t.rest t)
    at (err e) l = absurd l
    at (ok t) l = Progress-weaken (length t.rest) _ _ l (token_from-Progress t.rest t refl)

-- A list of tokens whose last one, and no other, is END_OF_FILE, and of at most `n` others; or one
-- of the two errors of the tokenizer.
abbrev pub Tokens : ℕ → Result (List Token) → Type 0
Tokens n (err e) = (e ≡ unterminated_string) ⊎ (e ≡ unknown_character)
Tokens n (ok ts) =
    (front : List Token) × (last : Token) × (ts ≡ front ++ last ∷ [])
    × (all (λ t. not (is_end t.type)) front ≡ true)
    × (is_end last.type ≡ true)
    × (length front ≤ n)

Tokens-cons :
    (n : ℕ) (t : Token) (r : Result (List Token))
    → is_end t.type ≡ false
    → Tokens n r
    → Tokens (suc n) (r >>= λ ts. ok (t ∷ ts))
Tokens-cons n t (err e) h g = g
Tokens-cons n t (ok ts) h (front, last, e, a, b, l) =
    (t ∷ front, last, ap (λ us. t ∷ us) e, rw (h, a) refl, b, omega arith)

tokenize_loop-Tokens :
    (n : ℕ) (r : Result (Token × Tokenizer)) → Progress n r → Tokens n (tokenize_loop n r)
unfolding tokenize_loop
tokenize_loop-Tokens n (err e) p = p
tokenize_loop-Tokens zero (ok (t, s)) (inl e) = rw e ([], t, refl, refl, e, omega arith)
tokenize_loop-Tokens zero (ok (t, s)) (inr (e, l)) = absurd (omega arith)
tokenize_loop-Tokens (suc n) (ok (t, s)) (inl e) = rw e ([], t, refl, refl, e, omega arith)
tokenize_loop-Tokens (suc n) (ok (t, s)) (inr (e, l)) = rw e (
    Tokens-cons n t _ e (
      tokenize_loop-Tokens n (next_token s)
        (Progress-weaken (length s.rest) n _ (omega arith) (next_token-Progress s))))

-- For every text, tokenize ends: it returns at most as many tokens as the text has bytes, and
-- after them one END_OF_FILE token that is the only one, or it throws for an unterminated string
-- or for an unknown character; it never runs out of the fuel of its loops.
pub tokenize-Tokens : (input : Bytes) → Tokens (length input) (tokenize input)
unfolding tokenize
tokenize-Tokens input =
    tokenize_loop-Tokens (length input) (next_token (start input))
      (next_token-Progress (start input))
