-- ===== src/Parser/Takes/Statements.antt =====
-- The parser does not run out of fuel.
use gs_dbengine.Base.{ℕ, zero, suc, refl, arith, Bytes, Result, ok, err, List, length}
use gs_dbengine.Tokenizer.Types.{TokenType, Token}
use gs_dbengine.Parser.Ast.{SetClause, ColumnDef, CreateTableStmt, Statement}
use gs_dbengine.Parser.Cursor.{type_code}
use gs_dbengine.Parser.Tables.{
  parse_on_delete, parse_foreign_key, parse_varchar, parse_column_type, parse_references,
  parse_expr, parse_check, parse_constraint, parse_constraints, parse_column_def, next_element,
  parse_create_table,
}
use gs_dbengine.Parser.Statements.{
  insert_columns, parse_create_index, parse_name, parse_show, parse_drop, parse_insert,
  parse_assigned, next_assignment, parse_filter, parse_update, parse_delete, parse_create,
  parse_select, parse_statement, parse,
}
use gs_dbengine.Parser.Words.{next_name}
use gs_dbengine.Parser.Takes.{
  Takes, Thrown, Leaves, none-Takes, Takes-fewer, bind-Takes, done-Takes,
}
use gs_dbengine.Parser.Takes.Steps.{takes, if_match-skip, if_two-skip, expect-Takes}
use gs_dbengine.Parser.Takes.Words.{
  StofConverts, parse_column_list-Takes, parse_value-Takes, parse_value_list-Takes, read_u32-Takes,
}
use gs_dbengine.Parser.Takes.Select.{
  parse_or_expr-Takes, parse_where-Takes, parse_select_body-Takes,
}

insert_columns-Takes : {n : ℕ} → Takes n insert_columns
unfolding insert_columns next_name
insert_columns-Takes = search takes depth 12

parse_foreign_key-Takes : {n : ℕ} → Takes n parse_foreign_key
unfolding parse_foreign_key parse_on_delete
parse_foreign_key-Takes = search (takes, parse_column_list-Takes) depth 14

parse_column_type-Takes : {n : ℕ} (name : Bytes) → Takes n (parse_column_type name)
unfolding parse_column_type parse_varchar
parse_column_type-Takes name = search (takes, read_u32-Takes) depth 14

parse_references-Takes : {n : ℕ} (def : ColumnDef) → Takes n (parse_references def)
unfolding parse_references
parse_references-Takes def = search takes depth 12

parse_create_index-Takes : {n : ℕ} → Takes n parse_create_index
unfolding parse_create_index
parse_create_index-Takes = search (takes, parse_column_list-Takes) depth 12

parse_name-Takes :
    {n : ℕ} (type : TokenType) (statement : Bytes → Statement) → Takes n (parse_name type statement)
unfolding parse_name
parse_name-Takes type statement = search takes

parse_show-Takes : {n : ℕ} → Takes n parse_show
unfolding parse_show
parse_show-Takes = search takes

parse_drop-Takes : {n : ℕ} → Takes n parse_drop
unfolding parse_drop
parse_drop-Takes = search (takes, parse_name-Takes)

module _ (stof : Bytes → Result ℕ) (converts : StofConverts stof) where
  parse_insert-Takes : {n : ℕ} → Takes n (parse_insert stof)
  unfolding parse_insert
  parse_insert-Takes =
      search (takes, insert_columns-Takes, parse_value_list-Takes stof converts) depth 12

  next_assignment-Takes :
      {n : ℕ} (assignments : List SetClause) → Takes n (next_assignment stof assignments)
  unfolding next_assignment parse_assigned
  next_assignment-Takes assignments = search (takes, parse_value-Takes stof converts) depth 12

  parse_expr-Takes : {n : ℕ} → Takes n (parse_expr stof)
  unfolding parse_expr
  parse_expr-Takes {n = n} =
      Takes-fewer (omega arith)
        (parse_or_expr-Takes stof converts {n = n} _ (parse_select_body-Takes stof converts))

  parse_filter-Takes : {n : ℕ} → Takes n (parse_filter stof)
  unfolding parse_filter
  parse_filter-Takes {n = n} =
      Takes-fewer (omega arith)
        (parse_where-Takes stof converts {n = n} _ (parse_select_body-Takes stof converts))

  parse_update-Takes : {n : ℕ} → Takes n (parse_update stof)
  unfolding parse_update
  parse_update-Takes = search (takes, next_assignment-Takes, parse_filter-Takes) depth 12

  parse_delete-Takes : {n : ℕ} → Takes n (parse_delete stof)
  unfolding parse_delete
  parse_delete-Takes = search (takes, parse_filter-Takes) depth 12

  parse_check-Takes : {n : ℕ} → Takes n (parse_check stof)
  unfolding parse_check
  parse_check-Takes = search (takes, parse_expr-Takes)

  parse_constraints-Takes : (n : ℕ) (def : ColumnDef) → Takes n (parse_constraints stof n def)
  unfolding parse_constraints parse_constraint type_code
  parse_constraints-Takes zero def = none-Takes _
  parse_constraints-Takes (suc n) def =
      let more : (d : ColumnDef) → Takes n (parse_constraints stof n d) =
        λ d. parse_constraints-Takes n d in
      if_two-skip TokenType.primary TokenType.key refl (more _) (
        if_match-skip TokenType.auto_increment refl (more _) (
          if_match-skip TokenType.unique refl (more _) (
            if_match-skip TokenType.default refl
              (bind-Takes (parse_value-Takes stof converts) (λ v. more _))
              (if_two-skip TokenType.not TokenType.null_kw refl (more _) (
                if_match-skip TokenType.check refl (bind-Takes parse_check-Takes (λ e. more _)) (
                  if_match-skip TokenType.references refl
                    (bind-Takes (parse_references-Takes def) more) (done-Takes def)))))))

  parse_column_def-Takes : {n : ℕ} → Takes n (parse_column_def stof)
  unfolding parse_column_def
  parse_column_def-Takes = bind-Takes (expect-Takes TokenType.identifier) (λ name.
      bind-Takes (parse_column_type-Takes name) (λ def. record {
        run = λ tokens s.
            (parse_constraints-Takes (suc (length tokens)) def).run tokens (omega arith);
      }))

  next_element-Takes : {n : ℕ} (stmt : CreateTableStmt) → Takes n (next_element stof stmt)
  unfolding next_element
  next_element-Takes stmt =
      search
        (
          takes, parse_check-Takes, parse_column_list-Takes, parse_foreign_key-Takes,
          parse_column_def-Takes,
        )
        depth 12

  parse_create-Takes : {n : ℕ} → Takes n (parse_create stof)
  unfolding parse_create parse_create_table
  parse_create-Takes =
      search (takes, next_element-Takes, parse_create_index-Takes, parse_name-Takes) depth 12

  parse_statement-Takes : {n : ℕ} → Takes n (parse_statement stof)
  unfolding parse_statement parse_select
  parse_statement-Takes =
      search
        (
          takes,
          parse_select_body-Takes stof converts,
          parse_insert-Takes,
          parse_update-Takes,
          parse_delete-Takes,
          parse_drop-Takes,
          parse_create-Takes,
          parse_name-Takes,
          parse_show-Takes,
        )
        depth 16

  parse-Takes : {n : ℕ} → Takes n (parse stof)
  unfolding parse
  parse-Takes = search (takes, parse_statement-Takes)

-- A statement, or one of the errors of the parser.
abbrev pub Parsed : Result Statement → Type 0
Parsed (err e) = Thrown e
Parsed (ok stmt) = Unit {0}

Leaves-Parsed : (n : ℕ) (r : Result Statement × List Token) → Leaves 0 n r → Parsed r.0
Leaves-Parsed n (err e, tokens) h = h
Leaves-Parsed n (ok stmt, tokens) h = tt

-- Where `stof` throws only its two errors, `parse` of any tokens returns a statement, or throws for
-- a token that it did not expect or for a number; it never runs out of fuel.
pub parse-Parsed :
    (stof : Bytes → Result ℕ) (tokens : List Token)
    → StofConverts stof
    → Parsed (parse stof tokens).0
parse-Parsed stof tokens converts =
    let whole : Takes (suc (length tokens)) (parse stof) = parse-Takes stof converts in
    Leaves-Parsed (length tokens) (parse stof tokens) (whole.run tokens (omega arith))
