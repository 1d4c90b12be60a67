-- ===== src/Parser/Takes/Words.antt =====
-- The methods on literals, columns and lists do not run out of fuel.
use gs_dbengine.Base.{
  ℕ, ◌-◌, ◌^◌, ◌≡◌, ◌⊎◌, inl, inr, refl, Bool-cases, ltb, invalid_number, number_out_of_range,
  Bytes, Result, ok, err, unexpected_token, List, Bool, true, false, if◌then◌else◌,
}
use gs_dbengine.Row.{Value}
use gs_dbengine.Parser.Ast.{AggregateType}
use gs_dbengine.Base.Action.{throw, attempt}
use gs_dbengine.Parser.Words.{
  begins_with_digit, leading_digits, stoi, stoul, to_number, read_u32, qualified, parse_column_ref,
  next_name, parse_column_list, parse_other_value, parse_signed, parse_value, next_value,
  parse_value_list, aggregate_of, count_of, parse_aggregate_or_column,
}
use gs_dbengine.Parser.Takes.{Takes, throw-Takes, bind-Takes, done-Takes}
use gs_dbengine.Parser.Takes.Steps.{takes, unexpected-Takes}

pub qualified-Takes : {n : ℕ} (table_name : Bytes) → Takes n (qualified table_name)
unfolding qualified
qualified-Takes table_name = search takes

pub parse_column_ref-Takes : {n : ℕ} → Takes n parse_column_ref
unfolding parse_column_ref
parse_column_ref-Takes = search (takes, qualified-Takes)

pub parse_column_list-Takes : {n : ℕ} → Takes n parse_column_list
unfolding parse_column_list next_name
parse_column_list-Takes = search takes

pub aggregate_of-Takes : {n : ℕ} (aggregate : AggregateType) → Takes n (aggregate_of aggregate)
unfolding aggregate_of
aggregate_of-Takes aggregate = search (takes, parse_column_ref-Takes)

count_of-Takes : {n : ℕ} → Takes n count_of
unfolding count_of
count_of-Takes = search (takes, parse_column_ref-Takes)

pub parse_aggregate_or_column-Takes : {n : ℕ} → Takes n parse_aggregate_or_column
unfolding parse_aggregate_or_column
parse_aggregate_or_column-Takes =
    search (takes, parse_column_ref-Takes, count_of-Takes, aggregate_of-Takes) depth 12

-- What a conversion of a number throws.
abbrev pub Converts : {A : Type 0} → Result A → Type 0
Converts (err e) = (e ≡ invalid_number) ⊎ (e ≡ number_out_of_range)
Converts (ok a) = Unit {0}

to_number-Converts : (last : ℕ) (text : Bytes) → Converts (to_number last text)
unfolding to_number
to_number-Converts last text = elim (Bool-cases (begins_with_digit text)) [
  | inr x ↦ rw x (inl refl)
  | inl x ↦ elim (Bool-cases (ltb last (leading_digits 0 text))) [
    | inl y ↦ rw (x, y) (inr refl)
    | inr y ↦ rw (x, y) tt
  ]
]

attempt-Takes : {A : Type 0} {n : ℕ} (r : Result A) → Converts r → Takes n (attempt r)
attempt-Takes (err e) h = throw-Takes (inr h)
attempt-Takes (ok a) h = done-Takes a

stoi-Takes : {n : ℕ} (text : Bytes) → Takes n (attempt (stoi text))
unfolding stoi
stoi-Takes text = attempt-Takes _ (to_number-Converts (2 ^ 31 - 1) text)

pub read_u32-Takes : {n : ℕ} (text : Bytes) → Takes n (read_u32 text)
unfolding read_u32 stoul
read_u32-Takes text =
    bind-Takes (attempt-Takes _ (to_number-Converts (2 ^ 64 - 1) text)) (λ v. done-Takes _)

parse_other_value-Takes : {n : ℕ} → Takes n parse_other_value
unfolding parse_other_value
parse_other_value-Takes = search takes depth 12

-- `std::stof` returns, or throws std::invalid_argument or std::out_of_range.
abbrev pub StofConverts : (Bytes → Result ℕ) → Type 0
StofConverts stof = (text : Bytes) → Converts (stof text)

module _ (stof : Bytes → Result ℕ) (converts : StofConverts stof) where
  stof-Takes : {n : ℕ} (text : Bytes) → Takes n (attempt (stof text))
  stof-Takes text = attempt-Takes (stof text) (converts text)

  refused :
      {n : ℕ} (negative : Bool)
      → Takes n (if negative then throw unexpected_token else parse_other_value)
  refused true = unexpected-Takes
  refused false = parse_other_value-Takes

  parse_signed-Takes : {n : ℕ} (negative : Bool) → Takes n (parse_signed stof negative)
  unfolding parse_signed
  parse_signed-Takes negative = search (takes, stoi-Takes, stof-Takes, refused) depth 12

  pub parse_value-Takes : {n : ℕ} → Takes n (parse_value stof)
  unfolding parse_value
  parse_value-Takes = search (takes, parse_signed-Takes)

  next_value-Takes : {n : ℕ} (both : List Value × List Bool) → Takes n (next_value stof both)
  unfolding next_value
  next_value-Takes both = search (takes, parse_value-Takes)

  pub parse_value_list-Takes : {n : ℕ} → Takes n (parse_value_list stof)
  unfolding parse_value_list
  parse_value_list-Takes = search (takes, next_value-Takes)
