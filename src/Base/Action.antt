-- ===== src/Base/Action.antt =====
-- Methods that read and change an object of type `S`, and may throw: an exception leaves the object
-- as the statements before it made it.
use mathlib.Core.Bool.{Bool, true, false}
use gs_dbengine.Base.Outcome.{Result, Error, ok, err}

abbrev pub Action : Type 0 → Type 0 → Type 0
Action S A = S → Result A × S

module _ {S : Type 0} where
  abbrev pub done : {A : Type 0} → A → Action S A
  done a s = (ok a, s)

  abbrev pub throw : {A : Type 0} → Error → Action S A
  throw e s = (err e, s)

  -- Code that changes no object.
  abbrev pub attempt : {A : Type 0} → Result A → Action S A
  attempt r s = (r, s)

  abbrev pub continue : {A B : Type 0} → Result A × S → (A → Action S B) → Result B × S
  continue (err e, s) next = (err e, s)
  continue (ok a, s) next = next a s

  infixl 5 ◌>>=◌ ◌>>◌
  abbrev pub ◌>>=◌ : {A B : Type 0} → Action S A → (A → Action S B) → Action S B
  (m >>= next) s = continue (m s) next

  abbrev pub ◌>>◌ : {B : Type 0} → Action S Unit → Action S B → Action S B
  m >> next = m >>= λ _. next

  -- `if` as a statement without `else`
  abbrev pub when : Bool → Action S Unit → Action S Unit
  when true m = m
  when false m = done tt
