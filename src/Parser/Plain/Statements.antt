-- ===== src/Parser/Plain/Statements.antt =====
-- The parser does not see the places of tokens, nor the texts of keywords and punctuation.
use gs_dbengine.Base.{ℕ, zero, suc, ◌≡◌, ◌∙◌, sym, ◌↔◌, ok, ap, Bytes, Result, List, out_of_fuel}
use gs_dbengine.Tokenizer.Types.{TokenType, Token}
use gs_dbengine.Parser.Ast.{SetClause, ColumnDef, CreateTableStmt, Statement}
use gs_dbengine.Parser.Tables.{
  parse_on_delete, parse_foreign_key, parse_varchar, parse_column_type, parse_references,
  parse_expr, parse_check, parse_constraint, parse_constraints, parse_column_def, next_element,
  parse_create_table,
}
use gs_dbengine.Parser.Statements.{
  insert_columns, parse_create_index, parse_name, parse_show, parse_drop, parse_insert,
  parse_assigned, next_assignment, parse_filter, parse_update, parse_delete, parse_create,
  parse_select, parse_statement, parse,
}
use gs_dbengine.Parser.Words.{next_name}
use gs_dbengine.Parser.Plain.{Blind, plain}
use gs_dbengine.Parser.Plain.Steps.{
  blind, throw-Blind, bind-Blind, expect-identifier, fuelled-Blind,
}
use gs_dbengine.Parser.Plain.Words.{
  parse_column_list-Blind, parse_value-Blind, parse_value_list-Blind, read_u32-Blind,
}
use gs_dbengine.Parser.Plain.Select.{
  parse_or_expr-Blind, parse_where-Blind, parse_select_body-Blind,
}

insert_columns-Blind : Blind insert_columns
unfolding insert_columns next_name
insert_columns-Blind = search blind depth 12

parse_foreign_key-Blind : Blind parse_foreign_key
unfolding parse_foreign_key parse_on_delete
parse_foreign_key-Blind = search (blind, parse_column_list-Blind) depth 14

parse_column_type-Blind : (name : Bytes) → Blind (parse_column_type name)
unfolding parse_column_type parse_varchar
parse_column_type-Blind name = search (blind, read_u32-Blind) depth 14

parse_references-Blind : (def : ColumnDef) → Blind (parse_references def)
unfolding parse_references
parse_references-Blind def = search blind depth 12

parse_create_index-Blind : Blind parse_create_index
unfolding parse_create_index
parse_create_index-Blind = search (blind, parse_column_list-Blind) depth 12

parse_name-Blind :
    (type : TokenType) (statement : Bytes → Statement) → Blind (parse_name type statement)
unfolding parse_name
parse_name-Blind type statement = search blind

parse_show-Blind : Blind parse_show
unfolding parse_show
parse_show-Blind = search blind

parse_drop-Blind : Blind parse_drop
unfolding parse_drop
parse_drop-Blind = search (blind, parse_name-Blind)

module _ (stof : Bytes → Result ℕ) where
  parse_insert-Blind : Blind (parse_insert stof)
  unfolding parse_insert
  parse_insert-Blind = search (blind, insert_columns-Blind, parse_value_list-Blind) depth 12

  next_assignment-Blind : (assignments : List SetClause) → Blind (next_assignment stof assignments)
  unfolding next_assignment parse_assigned
  next_assignment-Blind assignments = search (blind, parse_value-Blind) depth 12

  pub parse_expr-Blind : Blind (parse_expr stof)
  unfolding parse_expr
  parse_expr-Blind = parse_or_expr-Blind stof _ (parse_select_body-Blind stof)

  parse_filter-Blind : Blind (parse_filter stof)
  unfolding parse_filter
  parse_filter-Blind = parse_where-Blind stof _ (parse_select_body-Blind stof)

  parse_update-Blind : Blind (parse_update stof)
  unfolding parse_update
  parse_update-Blind = search (blind, next_assignment-Blind, parse_filter-Blind) depth 12

  parse_delete-Blind : Blind (parse_delete stof)
  unfolding parse_delete
  parse_delete-Blind = search (blind, parse_filter-Blind) depth 12

  parse_check-Blind : Blind (parse_check stof)
  unfolding parse_check
  parse_check-Blind = search (blind, parse_expr-Blind)

  parse_constraints-Blind : (fuel : ℕ) (def : ColumnDef) → Blind (parse_constraints stof fuel def)
  unfolding parse_constraints parse_constraint
  parse_constraints-Blind zero def = throw-Blind out_of_fuel
  parse_constraints-Blind (suc fuel) def =
      let more : (d : ColumnDef) → Blind (parse_constraints stof fuel d) =
        parse_constraints-Blind fuel in
      search (blind, parse_value-Blind, parse_check-Blind, parse_references-Blind) depth 20

  parse_column_def-Blind : Blind (parse_column_def stof)
  unfolding parse_column_def
  parse_column_def-Blind = bind-Blind expect-identifier (λ name.
      bind-Blind (parse_column_type-Blind name) (λ def.
        fuelled-Blind (λ fuel. parse_constraints stof fuel def)
          (λ fuel. parse_constraints-Blind fuel def)))

  next_element-Blind : (stmt : CreateTableStmt) → Blind (next_element stof stmt)
  unfolding next_element
  next_element-Blind stmt =
      search
        (
          blind, parse_check-Blind, parse_column_list-Blind, parse_foreign_key-Blind,
          parse_column_def-Blind,
        )
        depth 12

  parse_create-Blind : Blind (parse_create stof)
  unfolding parse_create parse_create_table
  parse_create-Blind =
      search (blind, next_element-Blind, parse_create_index-Blind, parse_name-Blind) depth 12

  parse_statement-Blind : Blind (parse_statement stof)
  unfolding parse_statement parse_select
  parse_statement-Blind =
      search
        (
          blind, parse_select_body-Blind, parse_insert-Blind, parse_update-Blind,
          parse_delete-Blind, parse_drop-Blind, parse_create-Blind, parse_name-Blind,
          parse_show-Blind,
        )
        depth 16

  parse-Blind : Blind (parse stof)
  unfolding parse
  parse-Blind = search (blind, parse_statement-Blind)

  -- The result of `parse` on plain tokens. Syntax errors carry no message here.
  pub parse-plain : (tokens : List Token) → (parse stof (plain tokens)).0 ≡ (parse stof tokens).0
  parse-plain tokens = ap (λ r. r.0) (parse-Blind.run tokens)

  -- For every list of tokens, parse returns a statement on these tokens exactly where it returns
  -- the same statement on the tokens without their lines and columns and without the texts of all
  -- but identifiers and literals.
  pub parse-plain_iff :
      (tokens : List Token) (stmt : Statement)
      → ((parse stof (plain tokens)).0 ≡ ok stmt) ↔ ((parse stof tokens).0 ≡ ok stmt)
  parse-plain_iff tokens stmt = (λ r. sym (parse-plain tokens) ∙ r, λ r. parse-plain tokens ∙ r)
