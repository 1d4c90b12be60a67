-- ===== src/Parser/Select.antt =====
-- src/parser/parser.cpp: SELECT.
use gs_dbengine.Base.{
  ℕ, zero, suc, Bool, true, false, ◌||◌, List, [], ◌∷◌, ◌++◌, Bytes, length, Result, Option, none,
  some, out_of_fuel,
}
use gs_dbengine.Base.Action.{done, throw}
use gs_dbengine.Row.{Value}
use gs_dbengine.Tokenizer.Types.{TokenType, Token}
use gs_dbengine.Parser.Ast.{
  ColumnRef, SelectColumn, AggregateType, HavingExprPtr, no_having, having, JoinType, JoinClause,
  OrderByClause, SelectStmt,
}
use gs_dbengine.Parser.Cursor.{
  ◌>>=◌, ◌>>◌, Parser, advance, check, match, expect, expect_, branch, if_check, if_match,
  while_comma,
}
use gs_dbengine.Parser.Words.{
  parse_column_ref, parse_value, parse_aggregate_or_column, no_column, column_of, read_u32,
}
use gs_dbengine.Parser.Having.{parse_having}
use gs_dbengine.Parser.Where.{parse_where}

-- Whether a literal begins.
unfoldable pub begins_literal : List Token → Bool
begins_literal tokens =
    check TokenType.integer_literal tokens
    || (check TokenType.float_literal tokens
        || (check TokenType.string_literal tokens
            || (check TokenType.true_kw tokens
                || (check TokenType.false_kw tokens
                    || (check TokenType.null_kw tokens || check TokenType.minus tokens)))))

abbrev pub star_column : SelectColumn
star_column = record (column_of no_column AggregateType.nothing) { is_star = true }

abbrev pub literal_column : Value → SelectColumn
literal_column v = record (column_of no_column AggregateType.nothing) {
  is_literal = true;
  literal = v;
}

unfoldable pub parse_alias : Parser Bytes
parse_alias = if_check TokenType.identifier advance (done [])

unfoldable pub join_type : Parser JoinType
join_type = if_match TokenType.inner (expect_ TokenType.join >> done JoinType.inner) (
    if_match TokenType.left (expect_ TokenType.join >> done JoinType.left) (
      if_match TokenType.right (expect_ TokenType.join >> done JoinType.right)
        (expect_ TokenType.join >> done JoinType.inner)))

unfoldable pub parse_join : Parser JoinClause
parse_join = do
  type ← join_type
  table_name ← expect TokenType.identifier
  alias ← parse_alias
  expect_ TokenType.on
  left_col ← parse_column_ref
  expect_ TokenType.eq
  right_col ← parse_column_ref
  done (record {
    type = type;
    table_name = table_name;
    alias = alias;
    left_col = left_col;
    right_col = right_col;
  })

unfoldable pub begins_join : List Token → Bool
begins_join tokens =
    check TokenType.inner tokens
    || (check TokenType.left tokens
        || (check TokenType.right tokens || check TokenType.join tokens))

unfoldable pub join_rounds : ℕ → List JoinClause → Parser (List JoinClause)
join_rounds zero joins = throw out_of_fuel
join_rounds (suc fuel) joins =
    branch begins_join (parse_join >>= λ join. join_rounds fuel (joins ++ join ∷ [])) (done joins)

unfoldable pub parse_joins : Parser (List JoinClause)
parse_joins tokens = join_rounds (suc (length tokens)) [] tokens

unfoldable pub parse_direction : Parser Bool
parse_direction = if_match TokenType.desc (done false) (match TokenType.asc >>= λ asc. done true)

unfoldable pub next_order : List OrderByClause → Parser (List OrderByClause)
next_order clauses = do
  operand ← parse_aggregate_or_column
  ascending ← parse_direction
  done (clauses ++ record { operand = operand; ascending = ascending } ∷ [])

unfoldable pub parse_order_by : Parser (List OrderByClause)
parse_order_by = do expect_ TokenType.order; expect_ TokenType.by; while_comma next_order []

unfoldable pub next_ref : List ColumnRef → Parser (List ColumnRef)
next_ref cols = parse_column_ref >>= λ col. done (cols ++ col ∷ [])

unfoldable pub parse_group_by : Parser (List ColumnRef)
parse_group_by = do expect_ TokenType.group; expect_ TokenType.by; while_comma next_ref []

unfoldable pub parse_limit : Parser (Option ℕ)
parse_limit =
    if_match TokenType.limit
      (do text ← expect TokenType.integer_literal; n ← read_u32 text; done (some n)) (done none)

module _ (stof : Bytes → Result ℕ) where
  unfoldable pub parse_select_column : Parser SelectColumn
  parse_select_column =
      branch begins_literal (parse_value stof >>= λ v. done (literal_column v))
        parse_aggregate_or_column

  unfoldable pub next_column : List SelectColumn → Parser (List SelectColumn)
  next_column cols = parse_select_column >>= λ col. done (cols ++ col ∷ [])

  unfoldable pub parse_select_columns : Parser (List SelectColumn)
  parse_select_columns =
      if_check TokenType.star (advance >>= λ star. done (star_column ∷ []))
        (while_comma next_column [])

  unfoldable pub optional_having : Parser HavingExprPtr
  optional_having =
      if_check TokenType.having (parse_having stof >>= λ e. done (having e)) (done no_having)

  -- `parse_select_body`, with the parser of its subqueries.
  unfoldable pub select_body : Parser SelectStmt → Parser SelectStmt
  select_body sub = do
    expect_ TokenType.select
    columns ← parse_select_columns
    expect_ TokenType.from
    table_name ← expect TokenType.identifier
    table_alias ← parse_alias
    joins ← parse_joins
    filter ← parse_where stof sub
    group_by ← if_check TokenType.group parse_group_by (done [])
    having_expr ← optional_having
    order_by ← if_check TokenType.order parse_order_by (done [])
    limit ← parse_limit
    done (
        SelectStmt.select columns table_name table_alias joins filter group_by having_expr order_by
          limit)

  -- `depth` bounds the nesting of subqueries.
  unfoldable pub select_nested : ℕ → Parser SelectStmt
  select_nested zero = throw out_of_fuel
  select_nested (suc depth) = select_body (select_nested depth)

  unfoldable pub parse_select_body : Parser SelectStmt
  parse_select_body tokens = select_nested (suc (length tokens)) tokens
