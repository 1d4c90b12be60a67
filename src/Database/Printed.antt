-- ===== src/Database/Printed.antt =====
-- Texts of tokens with blanks between them, and the tokens that `tokenize` makes of them.
use gs_dbengine.Base.{
  ℕ, zero, suc, ◌+◌, ◌≤◌, ◌≡◌, refl, ap, ◌∙◌, List, [], ◌∷◌, ◌++◌, map, Bytes, Result, ok, length,
  length-append, All, arith, none, true, false,
}
use gs_dbengine.Tokenizer.Types.{TokenType, Token}
use gs_dbengine.Tokenizer.Scan.{
  Tokenizer, advance, is_space, skip_round, skip_rounds, skip_whitespace_and_comments, token_from,
  next_token, is_end, tokenize_loop, start, tokenize,
}
use gs_dbengine.Parser.Plain.{plain_token, plain, has_text}
use gs_dbengine.Parser.Cursor.{type_code}
use gs_dbengine.Parser.Precedence.{keyword}
use gs_dbengine.Database.Spelled.{gap}
use gs_dbengine.Database.Scans.{Scans}

-- A token and its text.
abbrev pub Printed : Type 0
Printed = Token × Bytes

abbrev pub IsPrinted : Printed → Type 0
IsPrinted (u, text) = Scans u text

-- The texts behind a blank, one blank between them and one at the end.
abbrev pub after : List Printed → Bytes
after [] = []
after ((u, text) ∷ items) = text ++ gap (after items)

abbrev pub print : List Printed → Bytes
print items = gap (after items)

module _ (s : Tokenizer) where
  -- A blank, and then something else.
  skip-gap :
      (rest : Bytes)
      → s.rest ≡ gap rest
      → ((t : Tokenizer) → skip_round rest t ≡ none)
      → (t : Tokenizer) × (skip_whitespace_and_comments s ≡ ok t) × (t.rest ≡ rest)
  unfolding skip_whitespace_and_comments skip_rounds skip_round is_space advance
  skip-gap rest e stops =
      let t : Tokenizer = record { rest = rest; line = s.line; col = s.col + 1 } in
      let whole : skip_rounds (length s.rest) (skip_round s.rest s) s ≡ ok t =
        ap (λ r. skip_rounds (length r) (skip_round r s) s) e ∙ rw (stops t) refl in
      (t, whole, refl)

  next_token-print :
      (u : Token) (text more : Bytes)
      → Scans u text
      → s.rest ≡ gap (text ++ gap more)
      → (t : Token) × (s' : Tokenizer) × (next_token s ≡ ok (t, s'))
        × (s'.rest ≡ gap more)
        × (plain_token t ≡ u)
  unfolding next_token
  next_token-print u text more h e =
      let (a, skipped, here) = skip-gap (text ++ gap more) e (h.begins more) in
      let (t, s', run, rest, same) = h.run more a in
      (t, s', rw skipped (ap (λ r. token_from r a) here ∙ run), rest, same)

  next_token-end :
      s.rest ≡ gap []
      → (t : Token) × (s' : Tokenizer) × (next_token s ≡ ok (t, s'))
        × (plain_token t ≡ keyword TokenType.end_of_file)
        × (is_end t.type ≡ true)
  unfolding next_token token_from skip_round has_text type_code is_end
  next_token-end e =
      let (a, skipped, here) = skip-gap [] e (λ t. refl) in
      (
        record { type = TokenType.end_of_file; value = []; line = a.line; col = a.col },
        a,
        rw skipped (ap (λ r. token_from r a) here),
        refl,
        refl,
      )

-- The tokens, and END_OF_FILE, but for their places and the texts of keywords.
abbrev pub ReadBack : List Printed → Result (List Token) → Type 0
ReadBack items r =
    (tokens : List Token) × (r ≡ ok tokens)
    × (plain tokens ≡ map (λ i. i.0) items ++ keyword TokenType.end_of_file ∷ [])

tokenize_loop-print :
    (fuel : ℕ) (items : List Printed) (s : Tokenizer)
    → length items ≤ fuel
    → All IsPrinted items
    → s.rest ≡ print items
    → ReadBack items (tokenize_loop fuel (next_token s))
unfolding tokenize_loop plain
tokenize_loop-print zero [] s l h e =
    let (t, s', run, same, ended) = next_token-end s e in
    (t ∷ [], rw (run, ended) refl, ap (λ u. u ∷ []) same)
tokenize_loop-print (suc fuel) [] s l h e =
    let (t, s', run, same, ended) = next_token-end s e in
    (t ∷ [], rw (run, ended) refl, ap (λ u. u ∷ []) same)
tokenize_loop-print zero (i ∷ items) s l h e = absurd (omega arith)
tokenize_loop-print (suc fuel) ((u, text) ∷ items) s l (x, h) e =
    let (t, s', run, rest, same) = next_token-print s u text (after items) x e in
    let (tokens, later, plained) = tokenize_loop-print fuel items s' (omega arith) h rest in
    let going : is_end t.type ≡ false = ap (λ (v : Token). is_end v.type) same ∙ x.goes_on in
    (t ∷ tokens, rw (run, going, later) refl, rw (same, plained) refl)

length-print : (items : List Printed) → length items ≤ length (print items)
length-print [] = omega arith
length-print ((u, text) ∷ items) =
    omega (arith, length-print items, length-append text (gap (after items)))

-- Of texts that are printed with blanks between them, each of which is read for its token, `tokenize`
-- returns the tokens and END_OF_FILE, but for their places and the texts of keywords.
pub tokenize-print :
    (items : List Printed) → All IsPrinted items → ReadBack items (tokenize (print items))
unfolding tokenize
tokenize-print items h =
    tokenize_loop-print (length (print items)) items (start (print items)) (length-print items) h
      refl
