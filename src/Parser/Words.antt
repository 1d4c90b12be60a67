-- ===== src/Parser/Words.antt =====
-- src/parser/parser.cpp: literals, column references, lists and aggregates. An integer literal is
-- digits, and `std::stof` is a parameter, which gives the bits of the float or what it throws.
use gs_dbengine.Base.{
  ℕ, ◌+◌, ◌-◌, ◌*◌, ◌%◌, ◌^◌, Bool, true, false, not, List, [], ◌∷◌, ◌++◌, Bytes, Result, ok, err,
  if◌then◌else◌, ltb, unexpected_token, invalid_number, number_out_of_range,
}
use gs_dbengine.Base.Action.{done, throw, attempt}
use gs_dbengine.Row.{Value, null, int, float, bool, string}
use gs_dbengine.Tokenizer.Types.{TokenType}
use gs_dbengine.Tokenizer.Scan.{is_digit}
use gs_dbengine.Parser.Ast.{ColumnRef, SelectColumn, AggregateType}
use gs_dbengine.Parser.Cursor.{
  ◌>>=◌, ◌>>◌, Parser, advance, match, expect, expect_, if_check, if_match, while_comma,
}

-- The number of the leading digits, after `n`.
unfoldable pub leading_digits : ℕ → Bytes → ℕ
leading_digits n [] = n
leading_digits n (c ∷ text) =
    let rest = leading_digits (n * 10 + (c - b'0')) text in if is_digit c then rest else n

unfoldable pub begins_with_digit : Bytes → Bool
begins_with_digit [] = false
begins_with_digit (c ∷ text) = is_digit c

unfoldable pub to_number : ℕ → Bytes → Result ℕ
to_number last text =
    if not (begins_with_digit text)
    then err invalid_number
    else if ltb last (leading_digits 0 text)
    then err number_out_of_range
    else ok (leading_digits 0 text)

-- `std::stoi`, and `std::stoul` of 64 bits
unfoldable pub stoi : Bytes → Result ℕ
stoi = to_number (2 ^ 31 - 1)

unfoldable pub stoul : Bytes → Result ℕ
stoul = to_number (2 ^ 64 - 1)

-- `static_cast<uint32_t>(std::stoul(text))`
unfoldable pub read_u32 : Bytes → Parser ℕ
read_u32 text = attempt (stoul text) >>= λ n. done (n % 2 ^ 32)

unfoldable pub integer_value : Bool → ℕ → Value
integer_value negative v = int (if negative then (2 ^ 32 - v) % 2 ^ 32 else v)

-- The sign is the highest bit of a float.
unfoldable pub float_value : Bool → ℕ → Value
float_value negative v = float (if negative then (v + 2 ^ 31) % 2 ^ 32 else v)

unfoldable pub qualified : Bytes → Parser ColumnRef
qualified table_name = do
  column_name ← expect TokenType.identifier
  done (record { table_name = table_name; column_name = column_name })

unfoldable pub parse_column_ref : Parser ColumnRef
parse_column_ref = do
  column_name ← expect TokenType.identifier
  if_match TokenType.dot (qualified column_name)
      (done (record { table_name = []; column_name = column_name }))

unfoldable pub next_name : List Bytes → Parser (List Bytes)
next_name names = expect TokenType.identifier >>= λ name. done (names ++ name ∷ [])

unfoldable pub parse_column_list : Parser (List Bytes)
parse_column_list = do
  expect_ TokenType.lparen
  cols ← while_comma next_name []
  expect_ TokenType.rparen
  done cols

-- A value that is neither a number nor after a minus sign.
unfoldable pub parse_other_value : Parser Value
parse_other_value = if_check TokenType.string_literal (advance >>= λ text. done (string text)) (
    if_match TokenType.true_kw (done (bool true)) (
      if_match TokenType.false_kw (done (bool false))
        (if_match TokenType.null_kw (done null) (throw unexpected_token))))

module _ (stof : Bytes → Result ℕ) where
  unfoldable pub parse_signed : Bool → Parser Value
  parse_signed negative =
      if_check TokenType.integer_literal
        (do text ← advance; v ← attempt (stoi text); done (integer_value negative v))
        (if_check TokenType.float_literal
          (do text ← advance; v ← attempt (stof text); done (float_value negative v))
          (if negative then throw unexpected_token else parse_other_value))

  unfoldable pub parse_value : Parser Value
  parse_value = match TokenType.minus >>= parse_signed

  -- The values, and which of them are DEFAULT.
  unfoldable pub next_value : List Value × List Bool → Parser (List Value × List Bool)
  next_value (vals, is_default) =
      if_match TokenType.default (done (vals ++ null ∷ [], is_default ++ true ∷ []))
        (parse_value >>= λ v. done (vals ++ v ∷ [], is_default ++ false ∷ []))

  unfoldable pub parse_value_list : Parser (List Value × List Bool)
  parse_value_list = do
    expect_ TokenType.lparen
    both ← while_comma next_value ([], [])
    expect_ TokenType.rparen
    done both

abbrev pub no_column : ColumnRef
no_column = record { table_name = []; column_name = [] }

abbrev pub column_of : ColumnRef → AggregateType → SelectColumn
column_of column aggregate = record {
  is_star = false;
  is_literal = false;
  literal = null;
  column = column;
  aggregate = aggregate;
}

-- The argument of an aggregate, and what stands behind it.
unfoldable pub aggregate_of : AggregateType → Parser SelectColumn
aggregate_of aggregate = do
  expect_ TokenType.lparen
  column ← parse_column_ref
  expect_ TokenType.rparen
  done (column_of column aggregate)

unfoldable pub count_of : Parser SelectColumn
count_of = do
  expect_ TokenType.lparen
  col ←
      if_match TokenType.star (done (column_of no_column AggregateType.count_star))
        (parse_column_ref >>= λ column. done (column_of column AggregateType.count_column))
  expect_ TokenType.rparen
  done col

unfoldable pub parse_aggregate_or_column : Parser SelectColumn
parse_aggregate_or_column = if_match TokenType.count count_of (
    if_match TokenType.max (aggregate_of AggregateType.max) (
      if_match TokenType.min (aggregate_of AggregateType.min) (
        if_match TokenType.avg (aggregate_of AggregateType.avg) (
          if_match TokenType.median (aggregate_of AggregateType.median)
            (parse_column_ref >>= λ column. done (column_of column AggregateType.nothing))))))
