-- ===== src/Parser/Tables.antt =====
-- src/parser/parser.cpp: CREATE TABLE.
use gs_dbengine.Base.{
  ℕ, zero, suc, true, false, [], ◌∷◌, ◌++◌, Bytes, codes, length, Result, out_of_fuel,
  unexpected_token,
}
use gs_dbengine.Base.Action.{done, throw}
use gs_dbengine.Row.{null}
use gs_dbengine.Tokenizer.Types.{TokenType}
use gs_dbengine.Parser.Ast.{
  WhereExpr, no_where, where_expr, ColumnDef, ForeignKeyOnDelete, ForeignKeyDef, CreateTableStmt,
  Statement,
}
use gs_dbengine.Parser.Cursor.{◌>>=◌, ◌>>◌, Parser, expect, expect_, if_match, if_two, while_comma}
use gs_dbengine.Parser.Words.{parse_value, parse_column_list, read_u32}
use gs_dbengine.Parser.Where.{parse_or_expr}
use gs_dbengine.Parser.Select.{parse_select_body}

unfoldable pub parse_on_delete : Parser ForeignKeyOnDelete
parse_on_delete =
    if_match TokenType.on
      (do
        expect_ TokenType.delete
        if_match TokenType.cascade (done ForeignKeyOnDelete.cascade)
            (expect_ TokenType.restrict >> done ForeignKeyOnDelete.restrict))
      (done ForeignKeyOnDelete.restrict)

-- FOREIGN KEY, after FOREIGN.
unfoldable pub parse_foreign_key : Parser ForeignKeyDef
parse_foreign_key = do
  expect_ TokenType.key
  columns ← parse_column_list
  expect_ TokenType.references
  ref_table ← expect TokenType.identifier
  ref_columns ← parse_column_list
  on_delete ← parse_on_delete
  done (record {
    columns = columns;
    ref_table = ref_table;
    ref_columns = ref_columns;
    on_delete = on_delete;
  })

abbrev pub new_column : Bytes → Bytes → ℕ → ColumnDef
new_column name type_name varchar_len = record {
  name = name;
  type_name = type_name;
  varchar_len = varchar_len;
  is_primary_key = false;
  is_nullable = true;
  auto_increment = false;
  is_unique = false;
  has_default = false;
  default_value = null;
  check = no_where;
  fk_ref_table = [];
  fk_ref_column = [];
}

unfoldable pub parse_varchar : Bytes → Parser ColumnDef
parse_varchar name = do
  expect_ TokenType.lparen
  text ← expect TokenType.integer_literal
  n ← read_u32 text
  expect_ TokenType.rparen
  done (new_column name (codes "VARCHAR") n)

-- The type of a column.
unfoldable pub parse_column_type : Bytes → Parser ColumnDef
parse_column_type name = if_match TokenType.int_kw (done (new_column name (codes "INT") 0)) (
    if_match TokenType.float_kw (done (new_column name (codes "FLOAT") 0)) (
      if_match TokenType.boolean_kw (done (new_column name (codes "BOOLEAN") 0))
        (if_match TokenType.varchar_kw (parse_varchar name) (throw unexpected_token))))

-- REFERENCES of a column, after the keyword.
unfoldable pub parse_references : ColumnDef → Parser ColumnDef
parse_references def = do
  ref_table ← expect TokenType.identifier
  expect_ TokenType.lparen
  ref_column ← expect TokenType.identifier
  expect_ TokenType.rparen
  done (record def { fk_ref_table = ref_table; fk_ref_column = ref_column })

module _ (stof : Bytes → Result ℕ) where
  -- An expression, with the parser of SELECT for its subqueries.
  unfoldable pub parse_expr : Parser WhereExpr
  parse_expr = parse_or_expr stof (parse_select_body stof)

  -- CHECK (…), after the keyword.
  unfoldable pub parse_check : Parser WhereExpr
  parse_check = do expect_ TokenType.lparen; e ← parse_expr; expect_ TokenType.rparen; done e

  -- One round of the loop over the constraints of a column; `more` goes round again.
  unfoldable pub parse_constraint : (ColumnDef → Parser ColumnDef) → ColumnDef → Parser ColumnDef
  parse_constraint more def =
      if_two TokenType.primary TokenType.key
        (more (record def { is_primary_key = true; is_nullable = false }))
        (if_match TokenType.auto_increment (more (record def { auto_increment = true })) (
          if_match TokenType.unique (more (record def { is_unique = true })) (
            if_match TokenType.default
              (parse_value stof >>= λ v.
                more (record def { has_default = true; default_value = v }))
              (if_two TokenType.not TokenType.null_kw (more (record def { is_nullable = false })) (
                if_match TokenType.check
                  (parse_check >>= λ e. more (record def { check = where_expr e }))
                  (if_match TokenType.references (parse_references def >>= more) (done def)))))))

  unfoldable pub parse_constraints : ℕ → ColumnDef → Parser ColumnDef
  parse_constraints zero def = throw out_of_fuel
  parse_constraints (suc fuel) def = parse_constraint (parse_constraints fuel) def

  unfoldable pub parse_column_def : Parser ColumnDef
  parse_column_def = do
    name ← expect TokenType.identifier
    def ← parse_column_type name
    λ tokens. parse_constraints (suc (length tokens)) def tokens

  -- One round of the loop of CREATE TABLE: a constraint of the table, or a column.
  unfoldable pub next_element : CreateTableStmt → Parser CreateTableStmt
  next_element stmt =
      if_match TokenType.check
        (parse_check >>= λ e. done (record stmt { table_checks = stmt.table_checks ++ e ∷ [] }))
        (if_two TokenType.primary TokenType.key
          (parse_column_list >>= λ cols. done (record stmt { table_primary_key = cols }))
          (if_match TokenType.unique
            (parse_column_list >>= λ cols.
              done (record stmt { table_unique = stmt.table_unique ++ cols ∷ [] }))
            (if_match TokenType.foreign
              (parse_foreign_key >>= λ fk.
                done (record stmt { foreign_keys = stmt.foreign_keys ++ fk ∷ [] }))
              (parse_column_def >>= λ def.
                done (record stmt { columns = stmt.columns ++ def ∷ [] })))))

  abbrev pub new_table : Bytes → CreateTableStmt
  new_table table_name = record {
    table_name = table_name;
    columns = [];
    table_checks = [];
    table_primary_key = [];
    table_unique = [];
    foreign_keys = [];
    source_text = [];
  }

  unfoldable pub parse_create_table : Parser Statement
  parse_create_table = do
    expect_ TokenType.table
    table_name ← expect TokenType.identifier
    expect_ TokenType.lparen
    stmt ← while_comma next_element (new_table table_name)
    expect_ TokenType.rparen
    done (Statement.create_table stmt)
