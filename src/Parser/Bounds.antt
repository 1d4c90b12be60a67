-- ===== src/Parser/Bounds.antt =====
-- What holds of every result of a method of the parser.
pub mod Values
pub mod Statements
use gs_dbengine.Base.{
  ℕ, zero, suc, ◌-◌, ◌%◌, ◌^◌, ◌<◌, ◌≡◌, ◌≢◌, refl, ap, inl, inr, Bool, true, false, List, [], ◌∷◌,
  ◌++◌, length, length-append, All, All-append, Bytes, Result, ok, err, Option, none, some,
  if◌then◌else◌, ltb, Bool-cases, arith, Error, unexpected_token, out_of_fuel,
}
use gs_dbengine.Base.Action.{done, throw, attempt, continue}
use gs_dbengine.Tokenizer.Types.{TokenType, Token}
use gs_dbengine.Parser.Cursor.{
  ◌>>=◌, Parser, advance, check, match, expect, expect_, branch, if_check, if_match, comma_rounds,
  while_comma,
}

-- What holds of a result, where it is no error.
abbrev pub Holds : {A : Type 0} → (A → Type 0) → Result A → Type 0
Holds P (err e) = Unit {0}
Holds P (ok a) = P a

pub record Ensures {A : Type 0} (P : A → Type 0) (p : Parser A) : Type 0 where
  pub run : (tokens : List Token) → Holds P (p tokens).0

module _ {A : Type 0} {P : A → Type 0} where
  pub done-Ensures : (a : A) → P a → Ensures P (done a)
  done-Ensures a h = record { run = λ tokens. h }

  pub throw-Ensures : (e : Error) → Ensures P (throw e)
  throw-Ensures e = record { run = λ tokens. tt }

  always-Holds : ((a : A) → P a) → (r : Result A) → Holds P r
  always-Holds h (err e) = tt
  always-Holds h (ok a) = h a

  -- A property of every result.
  pub always-Ensures : (p : Parser A) → ((a : A) → P a) → Ensures P p
  always-Ensures p h = record { run = λ tokens. always-Holds h (p tokens).0 }

  pub branch-Ensures :
      (test : List Token → Bool) {p q : Parser A}
      → Ensures P p
      → Ensures P q
      → Ensures P (branch test p q)
  unfolding branch
  branch-Ensures test hp hq = record {
    run = λ tokens. elim (Bool-cases (test tokens)) [
      | inl x ↦ rw x (hp.run tokens)
      | inr x ↦ rw x (hq.run tokens)
    ];
  }

  pub if_check-Ensures :
      (type : TokenType) {p q : Parser A}
      → Ensures P p
      → Ensures P q
      → Ensures P (if_check type p q)
  unfolding if_check
  if_check-Ensures type hp hq = branch-Ensures (check type) hp hq

module _ {A B : Type 0} {P : A → Type 0} {Q : B → Type 0} where
  continue-Holds :
      (r : Result A × List Token) (f : A → Parser B)
      → Holds P r.0
      → ((a : A) → P a → Ensures Q (f a))
      → Holds Q (continue r f).0
  continue-Holds (err e, tokens) f h g = tt
  continue-Holds (ok a, tokens) f h g = (g a h).run tokens

  pub bind-Ensures :
      {m : Parser A} {f : A → Parser B}
      → Ensures P m
      → ((a : A) → P a → Ensures Q (f a))
      → Ensures Q (m >>= f)
  unfolding ◌>>=◌
  bind-Ensures {m} {f} h g = record { run = λ tokens. continue-Holds (m tokens) f (h.run tokens) g }

Anything : {A : Type 0} → A → Type 0
Anything a = Unit {0}

module _ {A B : Type 0} {Q : B → Type 0} where
  pub then-Ensures :
      (m : Parser A) {f : A → Parser B} → ((a : A) → Ensures Q (f a)) → Ensures Q (m >>= f)
  unfolding Anything
  then-Ensures m {f} g = bind-Ensures {P = Anything} (always-Ensures m (λ a. tt)) (λ a h. g a)

module _ {A : Type 0} {P : A → Type 0} where
  pub if_match-Ensures :
      (type : TokenType) {p q : Parser A}
      → Ensures P p
      → Ensures P q
      → Ensures P (if_match type p q)
  unfolding if_match
  if_match-Ensures type hp hq = if_check-Ensures type (then-Ensures _ (λ text. hp)) hq

  comma_rounds-Ensures :
      {I : A → Type 0} (round : A → Parser A)
      → ((a : A) → I a → Ensures P (round a))
      → ((a : A) → P a → I a)
      → (fuel : ℕ) (a : A) → I a
      → Ensures P (comma_rounds fuel round a)
  unfolding comma_rounds
  comma_rounds-Ensures round h weak zero a i = throw-Ensures out_of_fuel
  comma_rounds-Ensures round h weak (suc fuel) a i = bind-Ensures (h a i) (λ b good.
      if_match-Ensures TokenType.comma (comma_rounds-Ensures round h weak fuel b (weak b good))
        (done-Ensures b good))

  pub while_comma-Ensures :
      {I : A → Type 0} (round : A → Parser A) (a : A)
      → ((a : A) → I a → Ensures P (round a))
      → ((a : A) → P a → I a)
      → I a
      → Ensures P (while_comma round a)
  unfolding while_comma
  while_comma-Ensures round a h weak i = record {
    run = λ tokens. (comma_rounds-Ensures round h weak (suc (length tokens)) a i).run tokens;
  }

pub attempt-Ensures :
    {A : Type 0} {P : A → Type 0} (r : Result A) → Holds P r → Ensures P (attempt r)
attempt-Ensures r h = record { run = λ tokens. h }
