-- ===== src/Parser/Statements.antt =====
-- src/parser/parser.cpp: the statements, and `parse`.
use gs_dbengine.Base.{ℕ, true, false, List, [], ◌∷◌, ◌++◌, Bytes, Result, unexpected_token}
use gs_dbengine.Base.Action.{done, throw}
use gs_dbengine.Row.{null}
use gs_dbengine.Tokenizer.Types.{TokenType}
use gs_dbengine.Parser.Ast.{WhereExprPtr, SetClause, ShowTarget, Statement}
use gs_dbengine.Parser.Cursor.{
  ◌>>=◌, ◌>>◌, Parser, match, expect, expect_, if_check, if_match, while_comma,
}
use gs_dbengine.Parser.Words.{parse_value, parse_value_list, parse_column_list, next_name}
use gs_dbengine.Parser.Where.{parse_where}
use gs_dbengine.Parser.Select.{parse_select_body}
use gs_dbengine.Parser.Tables.{parse_create_table}

-- The optional column list of INSERT.
unfoldable pub insert_columns : Parser (List Bytes)
insert_columns =
    if_match TokenType.lparen
      (do cols ← while_comma next_name []; expect_ TokenType.rparen; done cols) (done [])

unfoldable pub parse_create_index : Parser Statement
parse_create_index = do
  is_unique ← match TokenType.unique
  expect_ TokenType.index
  index_name ← expect TokenType.identifier
  expect_ TokenType.on
  table_name ← expect TokenType.identifier
  column_names ← parse_column_list
  done (
      Statement.create_index (record {
        index_name = index_name;
        table_name = table_name;
        column_names = column_names;
        is_unique = is_unique;
      }))

-- The statements of a keyword and a name: DROP TABLE, DROP INDEX, DROP DATABASE, CREATE DATABASE, USE
-- and DESCRIBE.
unfoldable pub parse_name : TokenType → (Bytes → Statement) → Parser Statement
parse_name type statement = do
  expect_ type
  name ← expect TokenType.identifier
  done (statement name)

unfoldable pub parse_show : Parser Statement
parse_show = do
  expect_ TokenType.show
  if_match TokenType.tables (done (Statement.show ShowTarget.tables)) (
      if_match TokenType.databases (done (Statement.show ShowTarget.databases))
        (throw unexpected_token))

-- DROP, after the keyword.
unfoldable pub parse_drop : Parser Statement
parse_drop = if_check TokenType.table (parse_name TokenType.table Statement.drop_table) (
    if_check TokenType.index (parse_name TokenType.index Statement.drop_index) (
      if_check TokenType.database (parse_name TokenType.database Statement.drop_database)
        (throw unexpected_token)))

module _ (stof : Bytes → Result ℕ) where
  unfoldable pub parse_insert : Parser Statement
  parse_insert = do
    expect_ TokenType.insert
    expect_ TokenType.into
    table_name ← expect TokenType.identifier
    columns ← insert_columns
    expect_ TokenType.values
    (values, value_is_default) ← parse_value_list stof
    done (
        Statement.insert (record {
          table_name = table_name;
          columns = columns;
          values = values;
          value_is_default = value_is_default;
        }))

  unfoldable pub parse_assigned : Bytes → Parser SetClause
  parse_assigned column_name =
      if_match TokenType.default
        (done (record { column_name = column_name; value = null; is_default = true }))
        (parse_value stof >>= λ v.
          done (record { column_name = column_name; value = v; is_default = false }))

  unfoldable pub next_assignment : List SetClause → Parser (List SetClause)
  next_assignment assignments = do
    column_name ← expect TokenType.identifier
    expect_ TokenType.eq
    sc ← parse_assigned column_name
    done (assignments ++ sc ∷ [])

  unfoldable pub parse_filter : Parser WhereExprPtr
  parse_filter = parse_where stof (parse_select_body stof)

  unfoldable pub parse_update : Parser Statement
  parse_update = do
    expect_ TokenType.update
    table_name ← expect TokenType.identifier
    expect_ TokenType.set
    assignments ← while_comma next_assignment []
    filter ← parse_filter
    done (
        Statement.update
          (record { table_name = table_name; assignments = assignments; filter = filter }))

  unfoldable pub parse_delete : Parser Statement
  parse_delete = do
    expect_ TokenType.delete
    expect_ TokenType.from
    table_name ← expect TokenType.identifier
    filter ← parse_filter
    done (Statement.delete (record { table_name = table_name; filter = filter }))

  -- CREATE, after the keyword.
  unfoldable pub parse_create : Parser Statement
  parse_create = if_check TokenType.table (parse_create_table stof) (
      if_check TokenType.index parse_create_index (
        if_check TokenType.unique parse_create_index (
          if_check TokenType.database (parse_name TokenType.database Statement.create_database)
            (throw unexpected_token))))

  unfoldable pub parse_select : Parser Statement
  parse_select = parse_select_body stof >>= λ stmt. done (Statement.select stmt)

  unfoldable pub parse_statement : Parser Statement
  parse_statement = if_check TokenType.select parse_select (
      if_check TokenType.insert parse_insert (
        if_check TokenType.update parse_update (
          if_check TokenType.delete parse_delete (
            if_match TokenType.drop parse_drop (
              if_match TokenType.create parse_create (
                if_check TokenType.use_kw (parse_name TokenType.use_kw Statement.use_database) (
                  if_check TokenType.show parse_show (
                    if_check TokenType.describe (parse_name TokenType.describe Statement.describe)
                      (throw unexpected_token)))))))))

  unfoldable pub parse : Parser Statement
  parse = do
    stmt ← parse_statement
    semicolon ← match TokenType.semicolon
    if_check TokenType.end_of_file (done stmt) (throw unexpected_token)
