-- ===== src/Parser/Plain/Steps.antt =====
-- The rules for single tokens, for `if` and for loops.
use gs_dbengine.Base.{
  ℕ, zero, suc, ◌≡◌, refl, inl, inr, Bool, true, List, length, Bytes, Result, ok, err, Bool-cases,
  Error, out_of_fuel,
}
use gs_dbengine.Base.Action.{done, throw, attempt, continue}
use gs_dbengine.Tokenizer.Types.{TokenType, Token}
use gs_dbengine.Parser.Cursor.{
  ◌>>=◌, Parser, type_code, peek_value, later, advance, check, check_two, match, expect, expect_,
  branch, if_check, if_match, if_two, comma_rounds, while_comma,
}
use gs_dbengine.Parser.Plain.{
  has_text, plain, erase, Blind, length-plain, check-plain, check_two-plain, later-plain,
  peek_value-plain,
}

pub expect_-Blind : (type : TokenType) → Blind (expect_ type)
unfolding expect_ expect ◌>>=◌ advance
expect_-Blind type = record {
  run = λ tokens. elim (Bool-cases (check type tokens)) [
    | inl x ↦ rw (check-plain type tokens, x, later-plain tokens) refl
    | inr x ↦ rw (check-plain type tokens, x) refl
  ];
}

expect-Blind : (type : TokenType) → has_text type ≡ true → Blind (expect type)
unfolding expect advance
expect-Blind type h = record {
  run = λ tokens. elim (Bool-cases (check type tokens)) [
    | inl x ↦
        rw (check-plain type tokens, x, later-plain tokens, peek_value-plain type tokens h x) refl
    | inr x ↦ rw (check-plain type tokens, x) refl
  ];
}

pub expect-identifier : Blind (expect TokenType.identifier)
unfolding has_text type_code
expect-identifier = expect-Blind TokenType.identifier refl

pub expect-integer : Blind (expect TokenType.integer_literal)
unfolding has_text type_code
expect-integer = expect-Blind TokenType.integer_literal refl

pub match-Blind : (type : TokenType) → Blind (match type)
unfolding match
match-Blind type = record {
  run = λ tokens. elim (Bool-cases (check type tokens)) [
    | inl x ↦ rw (check-plain type tokens, x, later-plain tokens) refl
    | inr x ↦ rw (check-plain type tokens, x) refl
  ];
}

module _ {A : Type 0} where
  pub done-Blind : (a : A) → Blind (done a)
  done-Blind a = record { run = λ tokens. refl }

  pub throw-Blind : (e : Error) → Blind (throw {A = A} e)
  throw-Blind e = record { run = λ tokens. refl }

  pub attempt-Blind : (r : Result A) → Blind (attempt r)
  attempt-Blind r = record { run = λ tokens. refl }

  pub branch-Blind :
      (test : List Token → Bool) {p q : Parser A}
      → ((tokens : List Token) → test (plain tokens) ≡ test tokens)
      → Blind p
      → Blind q
      → Blind (branch test p q)
  unfolding branch
  branch-Blind test {p} {q} same hp hq = record {
    run = λ tokens. elim (Bool-cases (test tokens)) [
      | inl x ↦ rw (same tokens, x) (hp.run tokens)
      | inr x ↦ rw (same tokens, x) (hq.run tokens)
    ];
  }

  pub if_check-Blind :
      (type : TokenType) {p q : Parser A} → Blind p → Blind q → Blind (if_check type p q)
  unfolding if_check
  if_check-Blind type hp hq = branch-Blind (check type) (check-plain type) hp hq

  -- A method that reads the text of the token that the test found.
  if_check-text :
      (type : TokenType) {f : Bytes → Parser A} {q : Parser A}
      → has_text type ≡ true
      → ((text : Bytes) → Blind (f text))
      → Blind q
      → Blind (if_check type (advance >>= f) q)
  unfolding if_check branch advance ◌>>=◌
  if_check-text type {f} {q} h hf hq = record {
    run = λ tokens. elim (Bool-cases (check type tokens)) [
      | inl x ↦
          rw (check-plain type tokens, x, later-plain tokens, peek_value-plain type tokens h x)
            ((hf (peek_value tokens)).run (later tokens))
      | inr x ↦ rw (check-plain type tokens, x) (hq.run tokens)
    ];
  }

  pub if_check-string :
      {f : Bytes → Parser A} {q : Parser A}
      → ((text : Bytes) → Blind (f text))
      → Blind q
      → Blind (if_check TokenType.string_literal (advance >>= f) q)
  unfolding has_text type_code
  if_check-string hf hq = if_check-text TokenType.string_literal refl hf hq

  pub if_check-integer :
      {f : Bytes → Parser A} {q : Parser A}
      → ((text : Bytes) → Blind (f text))
      → Blind q
      → Blind (if_check TokenType.integer_literal (advance >>= f) q)
  unfolding has_text type_code
  if_check-integer hf hq = if_check-text TokenType.integer_literal refl hf hq

  pub if_check-float :
      {f : Bytes → Parser A} {q : Parser A}
      → ((text : Bytes) → Blind (f text))
      → Blind q
      → Blind (if_check TokenType.float_literal (advance >>= f) q)
  unfolding has_text type_code
  if_check-float hf hq = if_check-text TokenType.float_literal refl hf hq

  pub if_check-identifier :
      {f : Bytes → Parser A} {q : Parser A}
      → ((text : Bytes) → Blind (f text))
      → Blind q
      → Blind (if_check TokenType.identifier (advance >>= f) q)
  unfolding has_text type_code
  if_check-identifier hf hq = if_check-text TokenType.identifier refl hf hq

  skip-plain :
      {p : Parser A} (tokens : List Token)
      → Blind p
      → p (later (plain tokens)) ≡ erase (p (later tokens))
  skip-plain {p} tokens h = rw (later-plain tokens) (h.run (later tokens))

  pub if_match-Blind :
      (type : TokenType) {p q : Parser A} → Blind p → Blind q → Blind (if_match type p q)
  unfolding if_match if_check branch advance ◌>>=◌
  if_match-Blind type hp hq = record {
    run = λ tokens. elim (Bool-cases (check type tokens)) [
      | inl x ↦ rw (check-plain type tokens, x) (skip-plain tokens hp)
      | inr x ↦ rw (check-plain type tokens, x) (hq.run tokens)
    ];
  }

  pub if_two-Blind :
      (type next : TokenType) {p q : Parser A} → Blind p → Blind q → Blind (if_two type next p q)
  unfolding if_two branch advance ◌>>=◌
  if_two-Blind type next hp hq = record {
    run = λ tokens. elim (Bool-cases (check_two type next tokens)) [
      | inl x ↦
          rw (check_two-plain type next tokens, x, later-plain tokens)
            (skip-plain (later tokens) hp)
      | inr x ↦ rw (check_two-plain type next tokens, x) (hq.run tokens)
    ];
  }

  -- A loop with as much fuel as there are tokens.
  pub fuelled-Blind :
      (loop : ℕ → Parser A)
      → ((fuel : ℕ) → Blind (loop fuel))
      → Blind (λ (tokens : List Token). loop (suc (length tokens)) tokens)
  fuelled-Blind loop h = record {
    run = λ tokens. rw (length-plain tokens) ((h (suc (length tokens))).run tokens);
  }

module _ {A B : Type 0} where
  continue-plain :
      (r : Result A × List Token) (f : A → Parser B)
      → ((a : A) → Blind (f a))
      → continue (erase r) f ≡ erase (continue r f)
  continue-plain (err e, tokens) f h = refl
  continue-plain (ok a, tokens) f h = (h a).run tokens

  pub bind-Blind :
      {m : Parser A} {f : A → Parser B} → Blind m → ((a : A) → Blind (f a)) → Blind (m >>= f)
  unfolding ◌>>=◌
  bind-Blind {m} {f} h g = record {
    run = λ tokens. rw (h.run tokens) (continue-plain (m tokens) f g);
  }

module _ {A : Type 0} (round : A → Parser A) (h : (a : A) → Blind (round a)) where
  comma_rounds-Blind : (fuel : ℕ) (a : A) → Blind (comma_rounds fuel round a)
  unfolding comma_rounds
  comma_rounds-Blind zero a = throw-Blind out_of_fuel
  comma_rounds-Blind (suc fuel) a =
      bind-Blind (h a)
        (λ b. if_match-Blind TokenType.comma (comma_rounds-Blind fuel b) (done-Blind b))

pub while_comma-Blind :
    {A : Type 0} {round : A → Parser A} (a : A)
    → ((b : A) → Blind (round b))
    → Blind (while_comma round a)
unfolding while_comma
while_comma-Blind {round = round} a h =
    fuelled-Blind (λ fuel. comma_rounds fuel round a) (λ fuel. comma_rounds-Blind round h fuel a)

pub ruleset blind = (
  done-Blind, throw-Blind, attempt-Blind, bind-Blind, if_check-string, if_check-integer,
  if_check-float, if_check-identifier, if_check-Blind, if_match-Blind, if_two-Blind,
  while_comma-Blind, match-Blind, expect-identifier, expect-integer, expect_-Blind,
)
