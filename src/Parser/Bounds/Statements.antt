-- ===== src/Parser/Bounds/Statements.antt =====
-- INSERT and UPDATE statements that the parser returns.
use gs_dbengine.Base.{
  ℕ, ◌<◌, List, [], ◌∷◌, length, length-append, All, All-append, Bytes, Result, arith,
}
use gs_dbengine.Tokenizer.Types.{TokenType, Token}
use gs_dbengine.Parser.Ast.{SetClause, Statement}
use gs_dbengine.Parser.Statements.{
  parse_insert, parse_assigned, next_assignment, parse_update, parse_name, parse_show, parse_drop,
  parse_delete, parse_create, parse_create_index, parse_select, parse_statement, parse,
}
use gs_dbengine.Parser.Tables.{parse_create_table}
use gs_dbengine.Parser.Bounds.{
  Holds, Ensures, done-Ensures, throw-Ensures, if_check-Ensures, bind-Ensures, then-Ensures,
  if_match-Ensures, while_comma-Ensures,
}
use gs_dbengine.Parser.Bounds.Values.{InRange, StofBits, value-InRange, Filled, value_list-Filled}

abbrev pub ClauseInRange : SetClause → Type 0
ClauseInRange c = InRange c.value

-- An INSERT has values, as many marks for DEFAULT, and an UPDATE has assignments; their numbers are in
-- range.
abbrev pub IsInRange : Statement → Type 0
IsInRange (Statement.insert stmt) = Filled (stmt.values, stmt.value_is_default)
IsInRange (Statement.update stmt) =
    All ClauseInRange stmt.assignments × (0 < length stmt.assignments)
IsInRange _ = Unit {0}

name-IsInRange :
    (type : TokenType) (statement : Bytes → Statement)
    → ((name : Bytes) → IsInRange (statement name))
    → Ensures IsInRange (parse_name type statement)
unfolding parse_name
name-IsInRange type statement h =
    then-Ensures _ (λ u. then-Ensures _ (λ name. done-Ensures _ (h name)))

show-IsInRange : Ensures IsInRange parse_show
unfolding parse_show
show-IsInRange = then-Ensures _ (λ u.
    if_match-Ensures TokenType.tables (done-Ensures _ tt)
      (if_match-Ensures TokenType.databases (done-Ensures _ tt) (throw-Ensures _)))

drop-IsInRange : Ensures IsInRange parse_drop
unfolding parse_drop
drop-IsInRange = if_check-Ensures TokenType.table (name-IsInRange _ _ (λ name. tt)) (
    if_check-Ensures TokenType.index (name-IsInRange _ _ (λ name. tt))
      (if_check-Ensures TokenType.database (name-IsInRange _ _ (λ name. tt)) (throw-Ensures _)))

create_index-IsInRange : Ensures IsInRange parse_create_index
unfolding parse_create_index
create_index-IsInRange = then-Ensures _ (λ a. then-Ensures _ (λ b.
    then-Ensures _
      (λ c. then-Ensures _ (λ d. then-Ensures _ (λ e. then-Ensures _ (λ f. done-Ensures _ tt))))))

module _ (stof : Bytes → Result ℕ) (bits : StofBits stof) where
  insert-IsInRange : Ensures IsInRange (parse_insert stof)
  unfolding parse_insert
  insert-IsInRange = then-Ensures _ (λ a. then-Ensures _ (λ b. then-Ensures _ (λ c.
      then-Ensures _ (λ d.
        then-Ensures _ (λ e.
          bind-Ensures (value_list-Filled stof bits) (λ both filled. done-Ensures _ filled))))))

  assigned-InRange : (column_name : Bytes) → Ensures ClauseInRange (parse_assigned stof column_name)
  unfolding parse_assigned
  assigned-InRange column_name =
      if_match-Ensures TokenType.default (done-Ensures _ tt)
        (bind-Ensures (value-InRange stof bits) (λ v fit. done-Ensures _ fit))

  next_assignment-InRange :
      (assignments : List SetClause)
      → All ClauseInRange assignments
      → Ensures
          (λ (cs : List SetClause). All ClauseInRange cs × (0 < length cs))
          (next_assignment stof assignments)
  unfolding next_assignment
  next_assignment-InRange assignments h = then-Ensures _ (λ column_name. then-Ensures _ (λ u.
      bind-Ensures (assigned-InRange column_name) (λ c fit. done-Ensures _ (
        All-append ClauseInRange assignments (c ∷ []) h (fit, tt),
        omega (arith, length-append assignments (c ∷ [])),
      ))))

  update-IsInRange : Ensures IsInRange (parse_update stof)
  unfolding parse_update
  update-IsInRange = then-Ensures _ (λ a. then-Ensures _ (λ b. then-Ensures _ (λ c.
      bind-Ensures
        (while_comma-Ensures {I = All ClauseInRange} (next_assignment stof) []
          next_assignment-InRange (λ cs good. good.0) tt)
        (λ cs good. then-Ensures _ (λ d. done-Ensures _ good)))))

  delete-IsInRange : Ensures IsInRange (parse_delete stof)
  unfolding parse_delete
  delete-IsInRange =
      then-Ensures _
        (λ a. then-Ensures _ (λ b. then-Ensures _ (λ c. then-Ensures _ (λ d. done-Ensures _ tt))))

  create-IsInRange : Ensures IsInRange (parse_create stof)
  unfolding parse_create parse_create_table
  create-IsInRange =
      if_check-Ensures TokenType.table
        (then-Ensures _ (λ a. then-Ensures _ (λ b.
          then-Ensures _ (λ c. then-Ensures _ (λ d. then-Ensures _ (λ e. done-Ensures _ tt))))))
        (if_check-Ensures TokenType.index create_index-IsInRange (
          if_check-Ensures TokenType.unique create_index-IsInRange (
            if_check-Ensures TokenType.database (name-IsInRange _ _ (λ name. tt))
              (throw-Ensures _))))

  statement-IsInRange : Ensures IsInRange (parse_statement stof)
  unfolding parse_statement parse_select
  statement-IsInRange =
      if_check-Ensures TokenType.select (then-Ensures _ (λ stmt. done-Ensures _ tt)) (
        if_check-Ensures TokenType.insert insert-IsInRange (
          if_check-Ensures TokenType.update update-IsInRange (
            if_check-Ensures TokenType.delete delete-IsInRange (
              if_match-Ensures TokenType.drop drop-IsInRange (
                if_match-Ensures TokenType.create create-IsInRange (
                  if_check-Ensures TokenType.use_kw (name-IsInRange _ _ (λ name. tt)) (
                    if_check-Ensures TokenType.show show-IsInRange (
                      if_check-Ensures TokenType.describe (name-IsInRange _ _ (λ name. tt))
                        (throw-Ensures _)))))))))

  -- For every list of tokens, where std::stof returns 32 bits if it returns: an INSERT statement
  -- that parse returns has at least one value and as many marks for DEFAULT as values, an UPDATE
  -- statement that it returns has at least one assignment, and in both every integer is one from
  -- -2147483647 to 2147483647 in two's complement and every float has 32 bits.
  pub parse-IsInRange : (tokens : List Token) → Holds IsInRange (parse stof tokens).0
  unfolding parse
  parse-IsInRange tokens =
      (bind-Ensures statement-IsInRange (λ stmt h. then-Ensures _ (λ u.
          if_check-Ensures TokenType.end_of_file (done-Ensures stmt h) (throw-Ensures _)))).run
        tokens
