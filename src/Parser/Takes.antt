-- ===== src/Parser/Takes.antt =====
-- A method of the parser that starts with fewer than `n` tokens leaves no more tokens than it found, or
-- throws one of three errors; so it does not run out of fuel.
pub mod Steps
pub mod Words
pub mod Select
pub mod Statements
use gs_dbengine.Base.{
  ℕ, zero, suc, ◌+◌, ◌≤◌, ◌<◌, ◌≡◌, ◌⊎◌, refl, inl, inr, Bool, true, false, List, [], ◌∷◌, Bytes,
  length, Result, ok, err, if◌then◌else◌, Bool-cases, arith, Error, out_of_fuel, unexpected_token,
  invalid_number, number_out_of_range,
}
use gs_dbengine.Base.Action.{done, throw, attempt, continue}
use gs_dbengine.Tokenizer.Types.{TokenType, Token}
use gs_dbengine.Parser.Cursor.{
  ◌>>=◌, Parser, type_code, is_type, peek_type, later, advance, check, check_two, match, expect,
  expect_, branch, if_check, if_match, if_two, comma_rounds, while_comma,
}

-- What the parser throws.
abbrev pub Thrown : Error → Type 0
Thrown e = (e ≡ unexpected_token) ⊎ ((e ≡ invalid_number) ⊎ (e ≡ number_out_of_range))

-- A result that leaves at least `k` tokens fewer than `n`.
abbrev pub Leaves : {A : Type 0} → ℕ → ℕ → Result A × List Token → Type 0
Leaves k n (err e, tokens) = Thrown e
Leaves k n (ok a, tokens) = k + length tokens ≤ n

pub record Takes {A : Type 0} (n : ℕ) (p : Parser A) : Type 0 where
  pub run : (tokens : List Token) → length tokens < n → Leaves 0 (length tokens) (p tokens)

-- The parser passes a token.
pub record Passes {A : Type 0} (n : ℕ) (p : Parser A) : Type 0 where
  pub run : (tokens : List Token) → length tokens < n → Leaves 1 (length tokens) (p tokens)

-- The types of the tokens that `advance` passes.
abbrev pub Moves : TokenType → Type 0
Moves type = is_type type TokenType.end_of_file ≡ false

module _ {A : Type 0} where
  pub none-Takes : (p : Parser A) → Takes zero p
  none-Takes p = record { run = λ tokens h. absurd (omega arith) }

  pub done-Takes : {n : ℕ} (a : A) → Takes n (done a)
  done-Takes a = record { run = λ tokens h. omega arith }

  pub throw-Takes : {n : ℕ} {e : Error} → Thrown e → Takes n (throw {A = A} e)
  throw-Takes h = record { run = λ tokens _. h }

  pub Takes-fewer : {m n : ℕ} {p : Parser A} → m ≤ n → Takes n p → Takes m p
  Takes-fewer l h = record { run = λ tokens s. h.run tokens (omega arith) }

  pub branch-Takes :
      {n : ℕ} {p q : Parser A} (test : List Token → Bool)
      → Takes n p
      → Takes n q
      → Takes n (branch test p q)
  unfolding branch
  branch-Takes {n = n} {p} {q} test hp hq = record { run = at }
    where
      at :
          (tokens : List Token)
          → length tokens < n
          → Leaves 0 (length tokens) (if test tokens then p tokens else q tokens)
      at tokens s = elim (Bool-cases (test tokens)) [
        | inl x ↦ rw x (hp.run tokens s)
        | inr x ↦ rw x (hq.run tokens s)
      ]

pub Leaves-le :
    {A : Type 0} (k j m : ℕ) (r : Result A × List Token) → Leaves 0 m r → k + m ≤ j → Leaves k j r
Leaves-le k j m (err e, tokens) h l = h
Leaves-le k j m (ok a, tokens) h l = omega arith

pub Leaves-less : {A : Type 0} (n : ℕ) (r : Result A × List Token) → Leaves 1 n r → Leaves 0 n r
Leaves-less n (err e, tokens) h = h
Leaves-less n (ok a, tokens) h = omega arith

module _ {A B : Type 0} where
  continue-Leaves :
      (n j : ℕ) (r : Result A × List Token) (f : A → Parser B)
      → Leaves j n r
      → ((a : A) (tokens : List Token)
          → j + length tokens ≤ n
          → Leaves 0 (length tokens) (f a tokens))
      → Leaves j n (continue r f)
  continue-Leaves n j (err e, tokens) f h g = h
  continue-Leaves n j (ok a, tokens) f h g =
      Leaves-le j n (length tokens) (f a tokens) (g a tokens h) h

  pub bind-Takes :
      {n : ℕ} {m : Parser A} {f : A → Parser B}
      → Takes n m
      → ((a : A) → Takes n (f a))
      → Takes n (m >>= f)
  unfolding ◌>>=◌
  bind-Takes {n = n} {m} {f} h g = record {
    run = λ tokens s.
        continue-Leaves (length tokens) 0 (m tokens) f (h.run tokens s)
          (λ a later l. (g a).run later (omega arith));
  }

  -- What follows a token that the parser passes has one token less.
  pub skip-Takes :
      {n : ℕ} {m : Parser A} {f : A → Parser B}
      → Passes (suc n) m
      → ((a : A) → Takes n (f a))
      → Takes (suc n) (m >>= f)
  unfolding ◌>>=◌
  skip-Takes {n = n} {m} {f} h g = record {
    run = λ tokens s. Leaves-less (length tokens) _ (
        continue-Leaves (length tokens) 1 (m tokens) f (h.run tokens s)
          (λ a later l. (g a).run later (omega arith)));
  }

  pub bind-Passes :
      {n : ℕ} {m : Parser A} {f : A → Parser B}
      → Passes n m
      → ((a : A) → Takes n (f a))
      → Passes n (m >>= f)
  unfolding ◌>>=◌
  bind-Passes {n = n} {m} {f} h g = record {
    run = λ tokens s.
        continue-Leaves (length tokens) 1 (m tokens) f (h.run tokens s)
          (λ a later l. (g a).run later (omega arith));
  }
