-- ===== src/Parser/Having.antt =====
-- src/parser/parser.cpp: chains of logical operators, comparison operators and HAVING.
use gs_dbengine.Base.{ℕ, zero, suc, Bytes, length, Result, out_of_fuel, unexpected_token}
use gs_dbengine.Base.Action.{done, throw}
use gs_dbengine.Tokenizer.Types.{TokenType}
use gs_dbengine.Parser.Ast.{CompareOp, LogicalOp, HavingExpr, no_having, having}
use gs_dbengine.Parser.Cursor.{◌>>=◌, ◌>>◌, Parser, expect_, if_match}
use gs_dbengine.Parser.Words.{parse_value, parse_aggregate_or_column}

-- `while (match(op))`: the operators of one precedence, from the left.
unfoldable pub chain_rounds : {A : Type 0} → ℕ → TokenType → (A → A → A) → Parser A → A → Parser A
chain_rounds zero op join operand left = throw out_of_fuel
chain_rounds (suc fuel) op join operand left =
    if_match op (operand >>= λ right. chain_rounds fuel op join operand (join left right))
      (done left)

unfoldable pub chain_from : {A : Type 0} → TokenType → (A → A → A) → Parser A → A → Parser A
chain_from op join operand left tokens =
    chain_rounds (suc (length tokens)) op join operand left tokens

unfoldable pub chain : {A : Type 0} → TokenType → (A → A → A) → Parser A → Parser A
chain op join operand = operand >>= chain_from op join operand

-- The operators that WHERE and HAVING share, and what follows the others.
unfoldable pub parse_operator : Parser CompareOp → Parser CompareOp
parse_operator others = if_match TokenType.eq (done CompareOp.eq) (
    if_match TokenType.neq (done CompareOp.neq) (
      if_match TokenType.lte (done CompareOp.lte) (
        if_match TokenType.gte (done CompareOp.gte) (
          if_match TokenType.lt (done CompareOp.lt)
            (if_match TokenType.gt (done CompareOp.gt) others)))))

module _ (stof : Bytes → Result ℕ) where
  unfoldable pub parse_having_compare_expr : Parser HavingExpr
  parse_having_compare_expr = do
    operand ← parse_aggregate_or_column
    op ← parse_operator (throw unexpected_token)
    value ← parse_value stof
    done (HavingExpr.compare operand op value)

  unfoldable pub parse_having_not_expr : Parser HavingExpr
  parse_having_not_expr =
      if_match TokenType.not
        (parse_having_compare_expr >>= λ e. done (HavingExpr.logical LogicalOp.not e no_having))
        parse_having_compare_expr

  abbrev pub join_having : LogicalOp → HavingExpr → HavingExpr → HavingExpr
  join_having op left right = HavingExpr.logical op left (having right)

  unfoldable pub parse_having_and_expr : Parser HavingExpr
  parse_having_and_expr = chain TokenType.and (join_having LogicalOp.and) parse_having_not_expr

  unfoldable pub parse_having_or_expr : Parser HavingExpr
  parse_having_or_expr = chain TokenType.or (join_having LogicalOp.or) parse_having_and_expr

  unfoldable pub parse_having : Parser HavingExpr
  parse_having = do expect_ TokenType.having; parse_having_or_expr
