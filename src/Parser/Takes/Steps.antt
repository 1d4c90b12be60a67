-- ===== src/Parser/Takes/Steps.antt =====
-- The rules for the methods that look at the next tokens, for `if` and for the loop over commas.
use gs_dbengine.Base.{
  ℕ, zero, suc, ◌≤◌, ◌≡◌, refl, inl, inr, true, false, List, [], ◌∷◌, length, Bool-cases, arith,
  unexpected_token,
}
use gs_dbengine.Base.Action.{throw}
use gs_dbengine.Tokenizer.Types.{TokenType, Token}
use gs_dbengine.Parser.Cursor.{
  ◌>>=◌, Parser, type_code, is_type, peek_type, later, advance, check, check_two, match, expect,
  expect_, branch, if_check, if_match, if_two, comma_rounds, while_comma,
}
use gs_dbengine.Parser.Takes.{
  Thrown, Leaves, Takes, Passes, Moves, none-Takes, done-Takes, throw-Takes, Takes-fewer,
  branch-Takes, Leaves-le, Leaves-less, bind-Takes, skip-Takes, bind-Passes,
}

-- A type that `check` finds stands on a token that `advance` passes.
length-later :
    (type : TokenType) (tokens : List Token)
    → Moves type
    → check type tokens ≡ true
    → suc (length (later tokens)) ≤ length tokens
unfolding check peek_type later
length-later type [] h c =
    absurd (let x : is_type TokenType.end_of_file type ≡ true = c in ground (arith, h, x))
length-later type (t ∷ tokens) h c =
    let moved : is_type t.type TokenType.end_of_file ≡ false = ground (arith, h, c) in
    rw moved (omega arith)

pub length-later_le : (tokens : List Token) → length (later tokens) ≤ length tokens
unfolding later
length-later_le [] = omega arith
length-later_le (t ∷ tokens) = elim (Bool-cases (is_type t.type TokenType.end_of_file)) [
  | inl x ↦ rw x (omega arith)
  | inr x ↦ rw x (omega arith)
]

check_two-check :
    (type next : TokenType) (tokens : List Token)
    → check_two type next tokens ≡ true
    → check type tokens ≡ true
unfolding check_two check peek_type
check_two-check type next [] h = cc
check_two-check type next (t ∷ []) h = cc
check_two-check type next (t ∷ u ∷ tokens) h = ground (arith, h)

pub advance-Takes : {n : ℕ} → Takes n advance
unfolding advance
advance-Takes = record { run = λ tokens s. omega (arith, length-later_le tokens) }

pub match-Takes : {n : ℕ} (type : TokenType) → Takes n (match type)
unfolding match
match-Takes type = record {
  run = λ tokens s. elim (Bool-cases (check type tokens)) [
    | inl x ↦ rw x (omega (arith, length-later_le tokens))
    | inr x ↦ rw x (omega arith)
  ];
}

pub expect-Passes : {n : ℕ} (type : TokenType) → Moves type → Passes n (expect type)
unfolding expect advance
expect-Passes type h = record {
  run = λ tokens s. elim (Bool-cases (check type tokens)) [
    | inl x ↦ rw x (omega (arith, length-later type tokens h x))
    | inr x ↦ rw x (inl refl)
  ];
}

pub expect-Takes : {n : ℕ} (type : TokenType) → Takes n (expect type)
unfolding expect advance
expect-Takes type = record {
  run = λ tokens s. elim (Bool-cases (check type tokens)) [
    | inl x ↦ rw x (omega (arith, length-later_le tokens))
    | inr x ↦ rw x (inl refl)
  ];
}

pub expect_-Takes : {n : ℕ} (type : TokenType) → Takes n (expect_ type)
unfolding expect_
expect_-Takes type = bind-Takes (expect-Takes type) (λ value. done-Takes tt)

pub expect_-Passes : {n : ℕ} (type : TokenType) → Moves type → Passes n (expect_ type)
unfolding expect_
expect_-Passes type h = bind-Passes (expect-Passes type h) (λ value. done-Takes tt)

pub unexpected-Takes : {n : ℕ} {A : Type 0} → Takes n (throw {A = A} unexpected_token)
unexpected-Takes = throw-Takes (inl refl)

module _ {A : Type 0} where
  pub Passes-Takes : {n : ℕ} {p : Parser A} → Passes n p → Takes n p
  Passes-Takes {p = p} h = record {
    run = λ tokens s. Leaves-less (length tokens) (p tokens) (h.run tokens s);
  }

  -- What follows a type that the test found.
  pub if_match-skip :
      {n : ℕ} (type : TokenType) {p q : Parser A}
      → Moves type
      → Takes n p
      → Takes (suc n) q
      → Takes (suc n) (if_match type p q)
  unfolding if_match if_check branch advance ◌>>=◌
  if_match-skip {n = n} type {p} {q} h hp hq = record {
    run = λ tokens s. elim (Bool-cases (check type tokens)) [
      | inl x ↦ rw x (
          let l : suc (length (later tokens)) ≤ length tokens = length-later type tokens h x in
          Leaves-le 0 (length tokens) (length (later tokens)) (p (later tokens))
            (hp.run (later tokens) (omega arith)) (omega arith))
      | inr x ↦ rw x (hq.run tokens s)
    ];
  }

  pub if_match-Passes :
      {n : ℕ} (type : TokenType) {p q : Parser A}
      → Moves type
      → Takes n p
      → Passes n q
      → Passes n (if_match type p q)
  unfolding if_match if_check branch advance ◌>>=◌
  if_match-Passes {n = n} type {p} {q} h hp hq = record {
    run = λ tokens s. elim (Bool-cases (check type tokens)) [
      | inl x ↦ rw x (
          let l : suc (length (later tokens)) ≤ length tokens = length-later type tokens h x in
          Leaves-le 1 (length tokens) (length (later tokens)) (p (later tokens))
            (hp.run (later tokens) (omega arith)) (omega arith))
      | inr x ↦ rw x (hq.run tokens s)
    ];
  }

  pub if_check-Takes :
      {n : ℕ} (type : TokenType) {p q : Parser A}
      → Takes n p
      → Takes n q
      → Takes n (if_check type p q)
  unfolding if_check
  if_check-Takes type hp hq = branch-Takes (check type) hp hq

  pub if_match-Takes :
      {n : ℕ} (type : TokenType) {p q : Parser A}
      → Takes n p
      → Takes n q
      → Takes n (if_match type p q)
  unfolding if_match
  if_match-Takes type hp hq = if_check-Takes type (bind-Takes advance-Takes (λ a. hp)) hq

  pub comma_rounds-Takes :
      (fuel n : ℕ) (round : A → Parser A) (a : A)
      → fuel ≤ n
      → ((b : A) → Takes n (round b))
      → Takes fuel (comma_rounds fuel round a)
  unfolding comma_rounds type_code
  comma_rounds-Takes zero n round a l h = none-Takes _
  comma_rounds-Takes (suc fuel) n round a l h = bind-Takes (Takes-fewer l (h a)) (λ b.
      if_match-skip TokenType.comma refl (comma_rounds-Takes fuel n round b (omega arith) h)
        (done-Takes b))

  pub while_comma-Takes :
      {n : ℕ} {round : A → Parser A} (a : A)
      → ((b : A) → Takes n (round b))
      → Takes n (while_comma round a)
  unfolding while_comma
  while_comma-Takes {n = n} {round} a h = record {
    run = λ tokens s.
        (comma_rounds-Takes (suc (length tokens)) n round a (omega arith) h).run tokens
          (omega arith);
  }

  pub if_two-Takes :
      {n : ℕ} (type next : TokenType) {p q : Parser A}
      → Takes n p
      → Takes n q
      → Takes n (if_two type next p q)
  unfolding if_two
  if_two-Takes type next hp hq =
      branch-Takes (check_two type next)
        (bind-Takes advance-Takes (λ a. bind-Takes advance-Takes (λ b. hp))) hq

  pub if_two-skip :
      {n : ℕ} (type next : TokenType) {p q : Parser A}
      → Moves type
      → Takes n p
      → Takes (suc n) q
      → Takes (suc n) (if_two type next p q)
  unfolding if_two branch advance ◌>>=◌
  if_two-skip {n = n} type next {p} {q} h hp hq = record {
    run = λ tokens s. elim (Bool-cases (check_two type next tokens)) [
      | inl x ↦ rw x (
          let l : suc (length (later tokens)) ≤ length tokens =
            length-later type tokens h (check_two-check type next tokens x) in
          let m : length (later (later tokens)) ≤ length (later tokens) =
            length-later_le (later tokens) in
          Leaves-le 0 (length tokens) (length (later (later tokens))) (p (later (later tokens)))
            (hp.run (later (later tokens)) (omega arith)) (omega arith))
      | inr x ↦ rw x (hq.run tokens s)
    ];
  }

pub ruleset takes = (
  done-Takes, unexpected-Takes, bind-Takes, branch-Takes, if_check-Takes, if_match-Takes,
  if_two-Takes, while_comma-Takes, advance-Takes, match-Takes, expect-Takes, expect_-Takes,
)
