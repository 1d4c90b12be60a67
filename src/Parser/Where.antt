-- ===== src/Parser/Where.antt =====
-- src/parser/parser.cpp: WHERE. The functions take the parser of the statement in a subquery.
use gs_dbengine.Base.{ℕ, Bytes, Result, none, some, unexpected_token}
use gs_dbengine.Base.Action.{done, throw}
use gs_dbengine.Row.{Value, null}
use gs_dbengine.Tokenizer.Types.{TokenType}
use gs_dbengine.Parser.Ast.{
  ColumnRef, CompareOp, LogicalOp, WhereExpr, WhereExprPtr, no_where, where_expr, SelectStmt,
  no_select, subquery,
}
use gs_dbengine.Parser.Cursor.{◌>>=◌, ◌>>◌, Parser, expect_, if_check, if_match}
use gs_dbengine.Parser.Words.{parse_column_ref, parse_value}
use gs_dbengine.Parser.Having.{chain, parse_operator}

abbrev pub join_where : LogicalOp → WhereExpr → WhereExpr → WhereExpr
join_where op left right = WhereExpr.logical op left (where_expr right)

-- A comparison with a literal; the literal is NULL where the operator takes none.
abbrev pub with_literal : ColumnRef → CompareOp → Value → WhereExpr
with_literal column op operand = WhereExpr.compare column op operand none no_select

abbrev pub with_column : ColumnRef → CompareOp → ColumnRef → WhereExpr
with_column column op other = WhereExpr.compare column op null (some other) no_select

abbrev pub with_subquery : ColumnRef → CompareOp → SelectStmt → WhereExpr
with_subquery column op sub = WhereExpr.compare column op null none (subquery sub)

-- What follows IS.
unfoldable pub parse_is : ColumnRef → Parser WhereExpr
parse_is column =
    if_match TokenType.not
      (expect_ TokenType.null_kw >> done (with_literal column CompareOp.is_not_null null))
      (expect_ TokenType.null_kw >> done (with_literal column CompareOp.is_null null))

module _ (stof : Bytes → Result ℕ) where
  -- The comparison operators and their right sides.
  unfoldable pub parse_comparison : ColumnRef → Parser WhereExpr
  parse_comparison column = do
    op ← parse_operator (if_match TokenType.like (done CompareOp.like) (throw unexpected_token))
    if_check TokenType.identifier (parse_column_ref >>= λ other. done (with_column column op other))
        (parse_value stof >>= λ operand. done (with_literal column op operand))

  module _ (select_body : Parser SelectStmt) where
    unfoldable pub parse_subquery : Parser SelectStmt
    parse_subquery = do
      expect_ TokenType.lparen
      sub ← if_check TokenType.select select_body (throw unexpected_token)
      expect_ TokenType.rparen
      done sub

    unfoldable pub parse_in : ColumnRef → CompareOp → Parser WhereExpr
    parse_in column op = parse_subquery >>= λ sub. done (with_subquery column op sub)

    -- What follows the column.
    unfoldable pub parse_condition : ColumnRef → Parser WhereExpr
    parse_condition column = if_match TokenType.is (parse_is column) (
        if_match TokenType.not
          (expect_ TokenType.in_kw >> parse_in column CompareOp.not_in_subquery)
          (if_match TokenType.in_kw (parse_in column CompareOp.in_subquery)
            (parse_comparison column)))

    unfoldable pub parse_compare_expr : Parser WhereExpr
    parse_compare_expr =
        if_match TokenType.exists (parse_subquery >>= λ sub. done (WhereExpr.exists sub))
          (parse_column_ref >>= parse_condition)

    unfoldable pub parse_not_expr : Parser WhereExpr
    parse_not_expr =
        if_match TokenType.not
          (parse_compare_expr >>= λ e. done (WhereExpr.logical LogicalOp.not e no_where))
          parse_compare_expr

    unfoldable pub parse_and_expr : Parser WhereExpr
    parse_and_expr = chain TokenType.and (join_where LogicalOp.and) parse_not_expr

    unfoldable pub parse_or_expr : Parser WhereExpr
    parse_or_expr = chain TokenType.or (join_where LogicalOp.or) parse_and_expr

    unfoldable pub parse_where : Parser WhereExprPtr
    parse_where =
        if_match TokenType.where_kw (parse_or_expr >>= λ e. done (where_expr e)) (done no_where)
