-- ===== src/Parser/Plain/Select.antt =====
-- The methods on expressions and SELECT are blind.
use gs_dbengine.Base.{ℕ, zero, suc, refl, Bytes, Result, List, [], ◌∷◌, ◌++◌, out_of_fuel, ◌≡◌}
use gs_dbengine.Tokenizer.Types.{TokenType, Token}
use gs_dbengine.Parser.Ast.{
  ColumnRef, CompareOp, SelectColumn, JoinClause, OrderByClause, SelectStmt,
}
use gs_dbengine.Parser.Cursor.{Parser, ◌>>=◌, advance, branch, if_check, if_match}
use gs_dbengine.Parser.Having.{
  chain_rounds, chain_from, chain, parse_operator, parse_having_compare_expr, parse_having_not_expr,
  parse_having_and_expr, parse_having_or_expr, parse_having,
}
use gs_dbengine.Parser.Where.{
  parse_is, parse_comparison, parse_subquery, parse_in, parse_condition, parse_compare_expr,
  parse_not_expr, parse_and_expr, parse_or_expr, parse_where,
}
use gs_dbengine.Parser.Select.{
  begins_literal, begins_join, parse_alias, join_type, parse_join, join_rounds, parse_joins,
  parse_direction, next_order, parse_order_by, next_ref, parse_group_by, parse_limit, star_column,
  parse_select_column, next_column, parse_select_columns, optional_having, select_body,
  select_nested, parse_select_body,
}
use gs_dbengine.Parser.Plain.{Blind, plain, check-plain}
use gs_dbengine.Parser.Plain.Steps.{
  blind, done-Blind, throw-Blind, bind-Blind, branch-Blind, if_match-Blind, if_check-identifier,
  fuelled-Blind,
}
use gs_dbengine.Parser.Plain.Words.{
  parse_column_ref-Blind, parse_value-Blind, parse_aggregate_or_column-Blind, read_u32-Blind,
}

module _ {A : Type 0} (op : TokenType) (join : A → A → A) (operand : Parser A)
    (h : Blind operand) where
  chain_rounds-Blind : (fuel : ℕ) (left : A) → Blind (chain_rounds fuel op join operand left)
  unfolding chain_rounds
  chain_rounds-Blind zero left = throw-Blind out_of_fuel
  chain_rounds-Blind (suc fuel) left =
      if_match-Blind op (bind-Blind h (λ right. chain_rounds-Blind fuel (join left right)))
        (done-Blind left)

  chain-Blind : Blind (chain op join operand)
  unfolding chain chain_from
  chain-Blind = bind-Blind h (λ left.
      fuelled-Blind (λ fuel. chain_rounds fuel op join operand left)
        (λ fuel. chain_rounds-Blind fuel left))

parse_operator-Blind : (others : Parser CompareOp) → Blind others → Blind (parse_operator others)
unfolding parse_operator
parse_operator-Blind others h = search blind depth 12

parse_is-Blind : (column : ColumnRef) → Blind (parse_is column)
unfolding parse_is
parse_is-Blind column = search blind depth 12

module _ (stof : Bytes → Result ℕ) where
  having_compare-Blind : Blind (parse_having_compare_expr stof)
  unfolding parse_having_compare_expr
  having_compare-Blind =
      search (blind, parse_aggregate_or_column-Blind, parse_operator-Blind, parse_value-Blind)

  having_not-Blind : Blind (parse_having_not_expr stof)
  unfolding parse_having_not_expr
  having_not-Blind = search (blind, having_compare-Blind)

  parse_having-Blind : Blind (parse_having stof)
  unfolding parse_having parse_having_or_expr parse_having_and_expr
  parse_having-Blind = search (blind, chain-Blind, having_not-Blind)

  parse_comparison-Blind : (column : ColumnRef) → Blind (parse_comparison stof column)
  unfolding parse_comparison
  parse_comparison-Blind column =
      search (blind, parse_column_ref-Blind, parse_operator-Blind, parse_value-Blind) depth 12

  module _ (sub : Parser SelectStmt) (h : Blind sub) where
    parse_subquery-Blind : Blind (parse_subquery stof sub)
    unfolding parse_subquery
    parse_subquery-Blind = search blind depth 12

    parse_in-Blind : (column : ColumnRef) (op : CompareOp) → Blind (parse_in stof sub column op)
    unfolding parse_in
    parse_in-Blind column op = search (blind, parse_subquery-Blind)

    parse_condition-Blind : (column : ColumnRef) → Blind (parse_condition stof sub column)
    unfolding parse_condition
    parse_condition-Blind column =
        search (blind, parse_is-Blind, parse_in-Blind, parse_comparison-Blind) depth 12

    parse_compare_expr-Blind : Blind (parse_compare_expr stof sub)
    unfolding parse_compare_expr
    parse_compare_expr-Blind =
        search (blind, parse_subquery-Blind, parse_column_ref-Blind, parse_condition-Blind)

    parse_not_expr-Blind : Blind (parse_not_expr stof sub)
    unfolding parse_not_expr
    parse_not_expr-Blind = search (blind, parse_compare_expr-Blind)

    pub parse_or_expr-Blind : Blind (parse_or_expr stof sub)
    unfolding parse_or_expr parse_and_expr
    parse_or_expr-Blind = search (chain-Blind, parse_not_expr-Blind)

    pub parse_where-Blind : Blind (parse_where stof sub)
    unfolding parse_where
    parse_where-Blind = search (blind, parse_or_expr-Blind)

join_type-Blind : Blind join_type
unfolding join_type
join_type-Blind = search blind depth 12

parse_alias-Blind : Blind parse_alias
unfolding parse_alias if_check branch advance ◌>>=◌
parse_alias-Blind = record {
  run = (if_check-identifier (λ text. done-Blind text) (done-Blind [])).run;
}

parse_join-Blind : Blind parse_join
unfolding parse_join
parse_join-Blind =
    search (blind, join_type-Blind, parse_alias-Blind, parse_column_ref-Blind) depth 14

begins_join-plain : (tokens : List Token) → begins_join (plain tokens) ≡ begins_join tokens
unfolding begins_join
begins_join-plain tokens =
    rw
      (
        check-plain TokenType.inner tokens,
        check-plain TokenType.left tokens,
        check-plain TokenType.right tokens,
        check-plain TokenType.join tokens,
      )
      refl

join_rounds-Blind : (fuel : ℕ) (joins : List JoinClause) → Blind (join_rounds fuel joins)
unfolding join_rounds
join_rounds-Blind zero joins = throw-Blind out_of_fuel
join_rounds-Blind (suc fuel) joins =
    branch-Blind begins_join begins_join-plain
      (bind-Blind parse_join-Blind (λ join. join_rounds-Blind fuel (joins ++ join ∷ [])))
      (done-Blind joins)

parse_joins-Blind : Blind parse_joins
unfolding parse_joins
parse_joins-Blind = fuelled-Blind (λ fuel. join_rounds fuel []) (λ fuel. join_rounds-Blind fuel [])

next_order-Blind : (clauses : List OrderByClause) → Blind (next_order clauses)
unfolding next_order parse_direction
next_order-Blind clauses = search (blind, parse_aggregate_or_column-Blind)

parse_order_by-Blind : Blind parse_order_by
unfolding parse_order_by
parse_order_by-Blind = search (blind, next_order-Blind)

parse_group_by-Blind : Blind parse_group_by
unfolding parse_group_by next_ref
parse_group_by-Blind = search (blind, parse_column_ref-Blind)

parse_limit-Blind : Blind parse_limit
unfolding parse_limit
parse_limit-Blind = search (blind, read_u32-Blind)

begins_literal-plain : (tokens : List Token) → begins_literal (plain tokens) ≡ begins_literal tokens
unfolding begins_literal
begins_literal-plain tokens =
    rw
      (
        check-plain TokenType.integer_literal tokens,
        check-plain TokenType.float_literal tokens,
        check-plain TokenType.string_literal tokens,
        check-plain TokenType.true_kw tokens,
        check-plain TokenType.false_kw tokens,
        check-plain TokenType.null_kw tokens,
        check-plain TokenType.minus tokens,
      )
      refl

module _ (stof : Bytes → Result ℕ) where
  select_column-Blind : Blind (parse_select_column stof)
  unfolding parse_select_column
  select_column-Blind =
      branch-Blind begins_literal begins_literal-plain
        (bind-Blind (parse_value-Blind stof) (λ v. done-Blind _)) parse_aggregate_or_column-Blind

  next_column-Blind : (cols : List SelectColumn) → Blind (next_column stof cols)
  unfolding next_column
  next_column-Blind cols = search (blind, select_column-Blind)

  select_columns-Blind : Blind (parse_select_columns stof)
  unfolding parse_select_columns if_match
  select_columns-Blind =
      if_match-Blind TokenType.star (done-Blind (star_column ∷ []))
        (search (blind, next_column-Blind))

  optional_having-Blind : Blind (optional_having stof)
  unfolding optional_having
  optional_having-Blind = search (blind, parse_having-Blind)

  select_body-Blind : (sub : Parser SelectStmt) → Blind sub → Blind (select_body stof sub)
  unfolding select_body
  select_body-Blind sub h =
      let filter : Blind (parse_where stof sub) = parse_where-Blind stof sub h in
      search
        (
          blind, select_columns-Blind, parse_alias-Blind, parse_joins-Blind, parse_group_by-Blind,
          optional_having-Blind, parse_order_by-Blind, parse_limit-Blind,
        )
        depth 20

  select_nested-Blind : (depth : ℕ) → Blind (select_nested stof depth)
  unfolding select_nested
  select_nested-Blind zero = throw-Blind out_of_fuel
  select_nested-Blind (suc depth) =
      select_body-Blind (select_nested stof depth) (select_nested-Blind depth)

  pub parse_select_body-Blind : Blind (parse_select_body stof)
  unfolding parse_select_body
  parse_select_body-Blind = fuelled-Blind (select_nested stof) select_nested-Blind
