-- ===== src/Row/Order.antt =====
-- The orders of row.h and key.h, NaN aside: strict, transitive, and total up to `==`.
use gs_dbengine.Base.{
  ℕ, ◌^◌, ◌<◌, ◌≡◌, refl, Bool, true, false, List, [], ◌∷◌, ltb, ◌==◌, arith, All,
}
use gs_dbengine.Row.{
  Value, null, int, float, bool, string, is_nan, lex_lt, list_eq, value_lt, value_eq, int_rank,
  float_rank, bool_rank,
}

-- A value that the order places: a word in range, and no NaN.
abbrev pub IsOrdered : Value → Type 0
IsOrdered null = Unit {0}
IsOrdered (int w) = w < 2 ^ 32
IsOrdered (float f) = (f < 2 ^ 32) × (is_nan f ≡ false)
IsOrdered (bool _) = Unit {0}
IsOrdered (string _) = Unit {0}

-- What a comparison has to satisfy for sorting and for searching in sorted lists.
pub record IsOrder {ℓ} {A : Type ℓ} (Good : A → Type 0) (lt eq : A → A → Bool) : Type ℓ where
  pub asym : (a b : A) → Good a → Good b → lt a b ≡ true → lt b a ≡ false
  pub trans : (a b c : A) → Good a → Good b → Good c → lt a b ≡ true → lt b c ≡ true → lt a c ≡ true
  pub tie : (a b : A) → Good a → Good b → lt a b ≡ false → lt b a ≡ false → eq a b ≡ true
  pub eq_lt : (a b c : A) → Good a → Good b → Good c → eq a b ≡ true → lt a c ≡ lt b c
  pub lt_eq : (a b c : A) → Good a → Good b → Good c → eq a b ≡ true → lt c a ≡ lt c b

module _ {ℓ} {A : Type ℓ} {Good : A → Type 0} {lt eq : A → A → Bool} (o : IsOrder Good lt eq) where
  lex-asym :
      (xs ys : List A)
      → All Good xs
      → All Good ys
      → lex_lt lt xs ys ≡ true
      → lex_lt lt ys xs ≡ false
  unfolding lex_lt
  lex-asym [] [] g h e = refl
  lex-asym (x ∷ xs) [] g h e = cc
  lex-asym [] (y ∷ ys) g h e = refl
  lex-asym (x ∷ xs) (y ∷ ys) g h e =
      ground (arith, o.asym x y g.0 h.0, o.asym y x h.0 g.0, lex-asym xs ys g.1 h.1)

  lex-tie :
      (xs ys : List A)
      → All Good xs
      → All Good ys
      → lex_lt lt xs ys ≡ false
      → lex_lt lt ys xs ≡ false
      → list_eq eq xs ys ≡ true
  unfolding lex_lt list_eq
  lex-tie [] [] g h e f = refl
  lex-tie (x ∷ xs) [] g h e f = cc
  lex-tie [] (y ∷ ys) g h e f = cc
  lex-tie (x ∷ xs) (y ∷ ys) g h e f = ground (arith, o.tie x y g.0 h.0, lex-tie xs ys g.1 h.1)

  lex-eq_lt :
      (xs ys zs : List A)
      → All Good xs
      → All Good ys
      → All Good zs
      → list_eq eq xs ys ≡ true
      → lex_lt lt xs zs ≡ lex_lt lt ys zs
  unfolding lex_lt list_eq
  lex-eq_lt [] [] zs g h k e = refl
  lex-eq_lt (x ∷ xs) [] zs g h k e = cc
  lex-eq_lt [] (y ∷ ys) zs g h k e = cc
  lex-eq_lt (x ∷ xs) (y ∷ ys) [] g h k e = refl
  lex-eq_lt (x ∷ xs) (y ∷ ys) (z ∷ zs) g h k e =
      ground (
        arith,
        o.eq_lt x y z g.0 h.0 k.0,
        o.lt_eq x y z g.0 h.0 k.0,
        lex-eq_lt xs ys zs g.1 h.1 k.1,
      )

  lex-lt_eq :
      (xs ys zs : List A)
      → All Good xs
      → All Good ys
      → All Good zs
      → list_eq eq xs ys ≡ true
      → lex_lt lt zs xs ≡ lex_lt lt zs ys
  unfolding lex_lt list_eq
  lex-lt_eq [] [] zs g h k e = refl
  lex-lt_eq (x ∷ xs) [] zs g h k e = cc
  lex-lt_eq [] (y ∷ ys) zs g h k e = cc
  lex-lt_eq (x ∷ xs) (y ∷ ys) [] g h k e = refl
  lex-lt_eq (x ∷ xs) (y ∷ ys) (z ∷ zs) g h k e =
      ground (
        arith,
        o.eq_lt x y z g.0 h.0 k.0,
        o.lt_eq x y z g.0 h.0 k.0,
        lex-lt_eq xs ys zs g.1 h.1 k.1,
      )

  lex_trans :
      (xs ys zs : List A)
      → All Good xs
      → All Good ys
      → All Good zs
      → lex_lt lt xs ys ≡ true
      → lex_lt lt ys zs ≡ true
      → lex_lt lt xs zs ≡ true
  unfolding lex_lt
  lex_trans [] [] zs g h k e f = cc
  lex_trans (x ∷ xs) [] zs g h k e f = cc
  lex_trans xs (y ∷ ys) [] g h k e f = cc
  lex_trans [] (y ∷ ys) (z ∷ zs) g h k e f = refl
  lex_trans (x ∷ xs) (y ∷ ys) (z ∷ zs) g h k e f = ground (
    arith,
    o.trans x y z g.0 h.0 k.0,
    o.asym x z g.0 k.0,
    o.tie x y g.0 h.0,
    o.tie y z h.0 k.0,
    o.eq_lt x y z g.0 h.0 k.0,
    o.lt_eq x y z g.0 h.0 k.0,
    o.eq_lt y z x h.0 k.0 g.0,
    o.lt_eq y z x h.0 k.0 g.0,
    lex_trans xs ys zs g.1 h.1 k.1,
  )

  -- The lexicographic order of a good order is one.
  pub lex-IsOrder : IsOrder (All Good) (lex_lt lt) (list_eq eq)
  lex-IsOrder = record {
    asym = lex-asym;
    trans = lex_trans;
    tie = lex-tie;
    eq_lt = lex-eq_lt;
    lt_eq = lex-lt_eq;
  }

abbrev Any : ℕ → Type 0
Any _ = Unit {0}

ltb-IsOrder : IsOrder Any ltb ◌==◌
ltb-IsOrder = record {
  asym = λ a b _ _ h. ground arith;
  trans = λ a b c _ _ _ h k. ground arith;
  tie = λ a b _ _ h k. ground arith;
  eq_lt = λ a b c _ _ _ h. ground arith;
  lt_eq = λ a b c _ _ _ h. ground arith;
}

All-Any : (xs : List ℕ) → All Any xs
All-Any [] = tt
All-Any (x ∷ xs) = (tt, All-Any xs)

-- Values as texts of numbers, in whose order they stand.
code : Value → List ℕ
code null = 0 ∷ []
code (int w) = 1 ∷ int_rank w ∷ []
code (float f) = 2 ∷ float_rank f ∷ []
code (bool b) = 3 ∷ bool_rank b ∷ []
code (string s) = 4 ∷ s

value_lt-code :
    (v w : Value) → IsOrdered v → IsOrdered w → value_lt v w ≡ lex_lt ltb (code v) (code w)
unfolding value_lt code
value_lt-code null w g h = ground arith
value_lt-code (int a) w g h = ground arith
value_lt-code (float a) w g h = ground arith
value_lt-code (bool a) w g h = ground arith
value_lt-code (string a) w g h = ground arith

value_eq-code :
    (v w : Value) → IsOrdered v → IsOrdered w → value_eq v w ≡ list_eq ◌==◌ (code v) (code w)
unfolding value_eq code int_rank
value_eq-code null w g h = ground arith
value_eq-code (int a) w g h = ground arith
value_eq-code (float a) w g h = ground arith
value_eq-code (bool a) w g h = ground arith
value_eq-code (string a) w g h = ground arith

code-IsOrder : IsOrder (All Any) (lex_lt ltb) (list_eq ◌==◌)
code-IsOrder = lex-IsOrder ltb-IsOrder

-- `operator<` and `operator==` of `Value` make a strict order that is total up to `==`, on values
-- in range that are no NaN.
pub value-IsOrder : IsOrder IsOrdered value_lt value_eq
value-IsOrder = record {
  asym = λ a b g h e. rw (value_lt-code b a h g) (
      code-IsOrder.asym (code a) (code b) (All-Any _) (All-Any _)
        (rw (value_lt-code a b g h) at e));
  trans = λ a b c g h k e f. rw (value_lt-code a c g k) (
      code-IsOrder.trans (code a) (code b) (code c) (All-Any _) (All-Any _) (All-Any _)
        (rw (value_lt-code a b g h) at e) (rw (value_lt-code b c h k) at f));
  tie = λ a b g h e f. rw (value_eq-code a b g h) (
      code-IsOrder.tie (code a) (code b) (All-Any _) (All-Any _) (rw (value_lt-code a b g h) at e)
        (rw (value_lt-code b a h g) at f));
  eq_lt = λ a b c g h k e.
      rw (value_lt-code a c g k, value_lt-code b c h k)
        (code-IsOrder.eq_lt (code a) (code b) (code c) (All-Any _) (All-Any _) (All-Any _)
          (rw (value_eq-code a b g h) at e));
  lt_eq = λ a b c g h k e.
      rw (value_lt-code c a k g, value_lt-code c b k h)
        (code-IsOrder.lt_eq (code a) (code b) (code c) (All-Any _) (All-Any _) (All-Any _)
          (rw (value_eq-code a b g h) at e));
}
