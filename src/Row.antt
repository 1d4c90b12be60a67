-- ===== src/Row.antt =====
-- src/row/row.h: the values of a row. An int32_t and a float are their bit patterns, below 2 ^ 32;
-- a std::string is its bytes.
pub mod Order
pub mod Serializer
use gs_dbengine.Base.{
  ℕ, zero, suc, ◌+◌, ◌-◌, ◌%◌, ◌^◌, ◌<◌, Bool, true, false, not, ◌&&◌, ◌||◌, List, [], ◌∷◌, Bytes,
  Result, ok, err, column_out_of_range, Option, none, some, get_elem?, length, ltb, ◌==◌, leb,
  if◌then◌else◌,
}

pub data Value : Type 0 where
  null : Value
  int : ℕ → Value
  float : ℕ → Value
  bool : Bool → Value
  string : Bytes → Value

unfoldable pub is_null : Value → Bool
is_null null = true
is_null _ = false

pub record Row : Type 0 where
  pub values : List Value

found : Option Value → Result Value
found none = err column_out_of_range
found (some v) = ok v

-- `Row::get` throws past the last column.
unfoldable pub get : Row → ℕ → Result Value
unfolding found
get r col_idx = found (get_elem? r.values col_idx)

-- The place of a signed word among the signed words.
unfoldable pub int_rank : ℕ → ℕ
int_rank w = (w + 2 ^ 31) % 2 ^ 32

unfoldable pub int_lt : ℕ → ℕ → Bool
unfolding int_rank
int_lt a b = ltb (int_rank a) (int_rank b)

-- IEEE 754 single precision: the exponent is all ones and the fraction is not 0.
unfoldable pub is_nan : ℕ → Bool
is_nan f = ltb 0x7f80_0000 (f % 2 ^ 31)

-- Sign and magnitude as one number: both zeros are 2 ^ 31.
unfoldable pub float_rank : ℕ → ℕ
float_rank f = if ltb f (2 ^ 31) then 2 ^ 31 + f else 2 ^ 31 - (f - 2 ^ 31)

unfoldable pub float_lt : ℕ → ℕ → Bool
unfolding is_nan float_rank
float_lt a b = (not (is_nan a) && not (is_nan b)) && ltb (float_rank a) (float_rank b)

unfoldable pub float_eq : ℕ → ℕ → Bool
unfolding is_nan float_rank
float_eq a b = (not (is_nan a) && not (is_nan b)) && (float_rank a == float_rank b)

unfoldable pub bool_rank : Bool → ℕ
bool_rank false = 0
bool_rank true = 1

-- `std::lexicographical_compare`, which std::string and std::vector order by.
unfoldable pub lex_lt {ℓ} : {A : Type ℓ} → (A → A → Bool) → List A → List A → Bool
lex_lt lt xs [] = false
lex_lt lt [] (y ∷ ys) = true
lex_lt lt (x ∷ xs) (y ∷ ys) = let rest = lex_lt lt xs ys in lt x y || (not (lt y x) && rest)

unfoldable pub list_eq {ℓ} : {A : Type ℓ} → (A → A → Bool) → List A → List A → Bool
list_eq eq [] [] = true
list_eq eq [] (y ∷ ys) = false
list_eq eq (x ∷ xs) [] = false
list_eq eq (x ∷ xs) (y ∷ ys) = let rest = list_eq eq xs ys in eq x y && rest

-- The position of the active alternative in the variant.
unfoldable pub index : Value → ℕ
index null = 0
index (int _) = 1
index (float _) = 2
index (bool _) = 3
index (string _) = 4

-- `operator<` of the variant: by alternative, then by the values of the same alternative.
unfoldable pub value_lt : Value → Value → Bool
unfolding int_lt float_lt bool_rank lex_lt index
value_lt null null = false
value_lt (int a) (int b) = int_lt a b
value_lt (float a) (float b) = float_lt a b
value_lt (bool a) (bool b) = ltb (bool_rank a) (bool_rank b)
value_lt (string a) (string b) = lex_lt ltb a b
value_lt v w = ltb (index v) (index w)

unfoldable pub value_eq : Value → Value → Bool
unfolding float_eq bool_rank list_eq
value_eq null null = true
value_eq (int a) (int b) = a == b
value_eq (float a) (float b) = float_eq a b
value_eq (bool a) (bool b) = bool_rank a == bool_rank b
value_eq (string a) (string b) = list_eq ◌==◌ a b
value_eq v w = false
