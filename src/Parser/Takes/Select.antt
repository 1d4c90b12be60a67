-- ===== src/Parser/Takes/Select.antt =====
-- The methods on expressions and SELECT do not run out of fuel: a subquery begins behind a parenthesis,
-- so that it has fewer tokens than the statement round it.
use gs_dbengine.Base.{ℕ, zero, suc, ◌≤◌, refl, arith, Bytes, Result, List, [], ◌∷◌, ◌++◌, length}
use gs_dbengine.Tokenizer.Types.{TokenType}
use gs_dbengine.Parser.Ast.{
  ColumnRef, CompareOp, SelectColumn, JoinClause, OrderByClause, SelectStmt,
}
use gs_dbengine.Parser.Cursor.{Parser, type_code}
use gs_dbengine.Parser.Having.{
  chain_rounds, chain_from, chain, parse_operator, parse_having_compare_expr, parse_having_not_expr,
  parse_having_and_expr, parse_having_or_expr, parse_having,
}
use gs_dbengine.Parser.Where.{
  parse_is, parse_comparison, parse_subquery, parse_in, parse_condition, parse_compare_expr,
  parse_not_expr, parse_and_expr, parse_or_expr, parse_where,
}
use gs_dbengine.Parser.Select.{
  begins_join, parse_alias, join_type, parse_join, join_rounds, parse_joins, parse_direction,
  next_order, parse_order_by, next_ref, parse_group_by, parse_limit, parse_select_column,
  next_column, parse_select_columns, optional_having, select_body, select_nested, parse_select_body,
}
use gs_dbengine.Parser.Takes.{
  Takes, Passes, Moves, none-Takes, Takes-fewer, bind-Takes, skip-Takes, bind-Passes, done-Takes,
  branch-Takes,
}
use gs_dbengine.Parser.Takes.Steps.{
  takes, expect_-Passes, expect_-Takes, if_match-skip, if_match-Passes, if_check-Takes,
  unexpected-Takes,
}
use gs_dbengine.Parser.Takes.Words.{
  StofConverts, parse_column_ref-Takes, parse_value-Takes, parse_aggregate_or_column-Takes,
  read_u32-Takes,
}

module _ {A : Type 0} (op : TokenType) (join : A → A → A) (operand : Parser A)
    (moves : Moves op) where
  chain_rounds-Takes :
      (fuel n : ℕ) (left : A)
      → fuel ≤ n
      → Takes n operand
      → Takes fuel (chain_rounds fuel op join operand left)
  unfolding chain_rounds
  chain_rounds-Takes zero n left l h = none-Takes _
  chain_rounds-Takes (suc fuel) n left l h =
      if_match-skip op moves
        (bind-Takes (Takes-fewer (omega arith) h)
          (λ right. chain_rounds-Takes fuel n (join left right) (omega arith) h))
        (done-Takes left)

  chain-Takes : {n : ℕ} → Takes n operand → Takes n (chain op join operand)
  unfolding chain chain_from
  chain-Takes {n = n} h = bind-Takes h (λ left. record {
    run = λ tokens s.
        (chain_rounds-Takes (suc (length tokens)) n left (omega arith) h).run tokens (omega arith);
  })

parse_operator-Takes :
    {n : ℕ} (others : Parser CompareOp) → Takes n others → Takes n (parse_operator others)
unfolding parse_operator
parse_operator-Takes others h = search takes depth 12

parse_is-Takes : {n : ℕ} (column : ColumnRef) → Takes n (parse_is column)
unfolding parse_is
parse_is-Takes column = search takes depth 12

module _ (stof : Bytes → Result ℕ) (converts : StofConverts stof) where
  having_compare-Takes : {n : ℕ} → Takes n (parse_having_compare_expr stof)
  unfolding parse_having_compare_expr
  having_compare-Takes = search (
    takes,
    parse_aggregate_or_column-Takes,
    parse_operator-Takes,
    parse_value-Takes stof converts,
  )

  having_not-Takes : {n : ℕ} → Takes n (parse_having_not_expr stof)
  unfolding parse_having_not_expr
  having_not-Takes = search (takes, having_compare-Takes)

  parse_having-Takes : {n : ℕ} → Takes n (parse_having stof)
  unfolding parse_having parse_having_or_expr parse_having_and_expr type_code
  parse_having-Takes =
      bind-Takes (expect_-Takes TokenType.having) (λ u.
        chain-Takes TokenType.or _ _ refl (chain-Takes TokenType.and _ _ refl having_not-Takes))

  parse_comparison-Takes : {n : ℕ} (column : ColumnRef) → Takes n (parse_comparison stof column)
  unfolding parse_comparison
  parse_comparison-Takes column =
      search (takes, parse_column_ref-Takes, parse_operator-Takes, parse_value-Takes stof converts)
        depth 12

  module _ {n : ℕ} (sub : Parser SelectStmt) (h : Takes n sub) where
    parse_subquery-Takes : Takes (suc n) (parse_subquery stof sub)
    unfolding parse_subquery type_code
    parse_subquery-Takes =
        skip-Takes (expect_-Passes TokenType.lparen refl)
          (λ u. bind-Takes (if_check-Takes TokenType.select h unexpected-Takes) (λ s. search takes))

    parse_in-Takes :
        (column : ColumnRef) (op : CompareOp) → Takes (suc n) (parse_in stof sub column op)
    unfolding parse_in
    parse_in-Takes column op = search (takes, parse_subquery-Takes)

    parse_condition-Takes : (column : ColumnRef) → Takes (suc n) (parse_condition stof sub column)
    unfolding parse_condition
    parse_condition-Takes column =
        search (takes, parse_is-Takes, parse_in-Takes, parse_comparison-Takes) depth 12

    parse_compare_expr-Takes : Takes (suc n) (parse_compare_expr stof sub)
    unfolding parse_compare_expr
    parse_compare_expr-Takes =
        search (takes, parse_subquery-Takes, parse_column_ref-Takes, parse_condition-Takes)

    parse_not_expr-Takes : Takes (suc n) (parse_not_expr stof sub)
    unfolding parse_not_expr
    parse_not_expr-Takes = search (takes, parse_compare_expr-Takes)

    pub parse_or_expr-Takes : Takes (suc n) (parse_or_expr stof sub)
    unfolding parse_or_expr parse_and_expr type_code
    parse_or_expr-Takes =
        chain-Takes TokenType.or _ _ refl (chain-Takes TokenType.and _ _ refl parse_not_expr-Takes)

    pub parse_where-Takes : Takes (suc n) (parse_where stof sub)
    unfolding parse_where
    parse_where-Takes = search (takes, parse_or_expr-Takes)

join_type-Passes : {n : ℕ} → Passes n join_type
unfolding join_type type_code
join_type-Passes = if_match-Passes TokenType.inner refl (search takes) (
    if_match-Passes TokenType.left refl (search takes) (
      if_match-Passes TokenType.right refl (search takes)
        (bind-Passes (expect_-Passes TokenType.join refl) (λ u. done-Takes _))))

parse_alias-Takes : {n : ℕ} → Takes n parse_alias
unfolding parse_alias
parse_alias-Takes = search takes

parse_join-Passes : {n : ℕ} → Passes n parse_join
unfolding parse_join
parse_join-Passes =
    bind-Passes join_type-Passes
      (λ type. search (takes, parse_alias-Takes, parse_column_ref-Takes) depth 12)

join_rounds-Takes : (n : ℕ) (joins : List JoinClause) → Takes n (join_rounds n joins)
unfolding join_rounds
join_rounds-Takes zero joins = none-Takes _
join_rounds-Takes (suc n) joins =
    branch-Takes begins_join
      (skip-Takes parse_join-Passes (λ join. join_rounds-Takes n (joins ++ join ∷ [])))
      (done-Takes joins)

parse_joins-Takes : {n : ℕ} → Takes n parse_joins
unfolding parse_joins
parse_joins-Takes = record {
  run = λ tokens s. (join_rounds-Takes (suc (length tokens)) []).run tokens (omega arith);
}

next_order-Takes : {n : ℕ} (clauses : List OrderByClause) → Takes n (next_order clauses)
unfolding next_order parse_direction
next_order-Takes clauses = search (takes, parse_aggregate_or_column-Takes)

parse_order_by-Takes : {n : ℕ} → Takes n parse_order_by
unfolding parse_order_by
parse_order_by-Takes = search (takes, next_order-Takes)

parse_group_by-Takes : {n : ℕ} → Takes n parse_group_by
unfolding parse_group_by next_ref
parse_group_by-Takes = search (takes, parse_column_ref-Takes)

parse_limit-Takes : {n : ℕ} → Takes n parse_limit
unfolding parse_limit
parse_limit-Takes = search (takes, read_u32-Takes)

module _ (stof : Bytes → Result ℕ) (converts : StofConverts stof) where
  next_column-Takes : {n : ℕ} (cols : List SelectColumn) → Takes n (next_column stof cols)
  unfolding next_column parse_select_column
  next_column-Takes cols =
      search (takes, parse_value-Takes stof converts, parse_aggregate_or_column-Takes)

  parse_select_columns-Takes : {n : ℕ} → Takes n (parse_select_columns stof)
  unfolding parse_select_columns
  parse_select_columns-Takes = search (takes, next_column-Takes)

  optional_having-Takes : {n : ℕ} → Takes n (optional_having stof)
  unfolding optional_having
  optional_having-Takes = search (takes, parse_having-Takes stof converts)

  select_body-Takes :
      {n : ℕ} (sub : Parser SelectStmt) → Takes n sub → Takes (suc n) (select_body stof sub)
  unfolding select_body
  select_body-Takes {n = n} sub h =
      let filter : Takes (suc n) (parse_where stof sub) = parse_where-Takes stof converts sub h in
      search
        (
          takes, parse_select_columns-Takes, parse_alias-Takes, parse_joins-Takes,
          parse_group_by-Takes, optional_having-Takes, parse_order_by-Takes, parse_limit-Takes,
        )
        depth 20

  select_nested-Takes : (n : ℕ) → Takes n (select_nested stof n)
  unfolding select_nested
  select_nested-Takes zero = none-Takes _
  select_nested-Takes (suc n) = select_body-Takes (select_nested stof n) (select_nested-Takes n)

  pub parse_select_body-Takes : {n : ℕ} → Takes n (parse_select_body stof)
  unfolding parse_select_body
  parse_select_body-Takes = record {
    run = λ tokens s. (select_nested-Takes (suc (length tokens))).run tokens (omega arith);
  }
