-- ===== src/Parser/Inserts.antt =====
-- INSERT statements as tokens.
use gs_dbengine.Base.{
  ℕ, ◌≡◌, refl, sym, ◌∙◌, append-nil, Bool, List, [], ◌∷◌, ◌++◌, append_assoc, map, All, Bytes,
  Result, ok, Option,
}
use gs_dbengine.Row.{Value}
use gs_dbengine.Tokenizer.Types.{TokenType, Token}
use gs_dbengine.Parser.Ast.{Statement}
use gs_dbengine.Parser.Cursor.{
  ◌>>=◌, type_code, peek_type, peek_value, later, advance, check, match, expect, expect_, branch,
  if_check, if_match,
}
use gs_dbengine.Parser.Words.{next_name, next_value, parse_value_list}
use gs_dbengine.Parser.Statements.{insert_columns, parse_insert, parse_statement, parse}
use gs_dbengine.Parser.Precedence.{keyword}
use gs_dbengine.Parser.Plain.{plain}
use gs_dbengine.Parser.Plain.Statements.{parse-plain}
use gs_dbengine.Parser.Printed.{
  word, separated, added, while_comma-elements, element_tokens, element_value, is_default,
  IsElement, add_value, add_name, next_name-word, next_value-element,
}

abbrev pub name_tokens : Bytes → List Token
name_tokens name = word TokenType.identifier name ∷ []

-- The column list in its parentheses; none where there are no columns.
abbrev pub column_tokens : List Bytes → List Token
column_tokens [] = []
column_tokens (col ∷ cols) =
    keyword TokenType.lparen
    ∷ word TokenType.identifier col
    ∷ (separated name_tokens cols ++ keyword TokenType.rparen ∷ [])

-- INSERT INTO name (columns) VALUES (elements), and the end.
abbrev pub insert_tokens : Bytes → List Bytes → Option Value → List (Option Value) → List Token
insert_tokens name cols x xs =
    keyword TokenType.insert
    ∷ keyword TokenType.into
    ∷ word TokenType.identifier name
    ∷ (column_tokens cols
        ++ keyword TokenType.values
          ∷ keyword TokenType.lparen
          ∷ (element_tokens x
              ++ (separated element_tokens xs
                  ++ keyword TokenType.rparen ∷ keyword TokenType.end_of_file ∷ [])))

added-add_name : (names more : List Bytes) → added add_name names more ≡ names ++ more
added-add_name names [] = sym (append-nil names)
added-add_name names (name ∷ more) =
    added-add_name (names ++ name ∷ []) more ∙ append_assoc names (name ∷ []) more

added-add_value :
    (vals : List Value) (defaults : List Bool) (xs : List (Option Value))
    → added add_value (vals, defaults) xs
      ≡ (vals ++ map element_value xs, defaults ++ map is_default xs)
added-add_value vals defaults [] = rw (append-nil vals, append-nil defaults) refl
added-add_value vals defaults (x ∷ xs) =
    added-add_value (vals ++ element_value x ∷ []) (defaults ++ is_default x ∷ []) xs
    ∙ rw
        (
          append_assoc vals (element_value x ∷ []) (map element_value xs),
          append_assoc defaults (is_default x ∷ []) (map is_default xs),
        )
        refl

AnyName : Bytes → Type 0
AnyName name = Unit {0}

every : (names : List Bytes) → All AnyName names
unfolding AnyName
every [] = tt
every (name ∷ names) = (tt, every names)

column_tokens-read :
    (cols : List Bytes) (rest : List Token)
    → insert_columns (column_tokens cols ++ keyword TokenType.values ∷ rest)
      ≡ (ok cols, keyword TokenType.values ∷ rest)
unfolding insert_columns if_match if_check branch check peek_type type_code later advance ◌>>=◌
    expect_ expect peek_value AnyName
column_tokens-read [] rest = refl
column_tokens-read (col ∷ cols) rest =
    rw
      (
        append_assoc (separated name_tokens cols) (keyword TokenType.rparen ∷ [])
            (keyword TokenType.values ∷ rest),
        while_comma-elements next_name name_tokens add_name AnyName
            (λ names name more good. next_name-word names name more) col cols []
            (keyword TokenType.rparen ∷ keyword TokenType.values ∷ rest) tt (every cols) refl,
        added-add_name (col ∷ []) cols,
      )
      refl

module _ (stof : Bytes → Result ℕ) where
  value_list-read :
      (x : Option Value) (xs : List (Option Value)) (rest : List Token)
      → IsElement x
      → All IsElement xs
      → parse_value_list stof (
          keyword TokenType.lparen
          ∷ (element_tokens x ++ (separated element_tokens xs ++ keyword TokenType.rparen ∷ rest)))
        ≡ (ok (map element_value (x ∷ xs), map is_default (x ∷ xs)), rest)
  unfolding parse_value_list check peek_type type_code later advance ◌>>=◌ expect_ expect peek_value
  value_list-read x xs rest g gs =
      rw
        (
          while_comma-elements (next_value stof) element_tokens add_value IsElement
              (next_value-element stof) x xs ([], []) (keyword TokenType.rparen ∷ rest) g gs refl,
          added-add_value (element_value x ∷ []) (is_default x ∷ []) xs,
        )
        refl

  parse-insert_tokens :
      (name : Bytes) (cols : List Bytes) (x : Option Value) (xs : List (Option Value))
      → IsElement x
      → All IsElement xs
      → (parse stof (insert_tokens name cols x xs)).0
        ≡ ok (
            Statement.insert (record {
              table_name = name;
              columns = cols;
              values = map element_value (x ∷ xs);
              value_is_default = map is_default (x ∷ xs);
            }))
  unfolding parse parse_statement parse_insert if_check branch check peek_type type_code later
      advance ◌>>=◌ expect_ expect peek_value match
  parse-insert_tokens name cols x xs g gs =
      rw
        (
          column_tokens-read cols (
              keyword TokenType.lparen
              ∷ (element_tokens x
                  ++ (separated element_tokens xs
                      ++ keyword TokenType.rparen ∷ keyword TokenType.end_of_file ∷ []))),
          value_list-read x xs (keyword TokenType.end_of_file ∷ []) g gs,
        )
        refl

  -- The tokens of an INSERT statement, wherever they stand and however keywords are spelled, with
  -- any table name, any columns or none, and one or more elements that are DEFAULT, NULL, a
  -- Boolean, a text, or an integer other than -2147483648, are parsed back to the statement.
  pub parse-insert :
      (tokens : List Token) (name : Bytes) (cols : List Bytes) (x : Option Value)
      (xs : List (Option Value))
      → plain tokens ≡ insert_tokens name cols x xs
      → IsElement x
      → All IsElement xs
      → (parse stof tokens).0
        ≡ ok (
            Statement.insert (record {
              table_name = name;
              columns = cols;
              values = map element_value (x ∷ xs);
              value_is_default = map is_default (x ∷ xs);
            }))
  parse-insert tokens name cols x xs e g gs =
      sym (parse-plain stof tokens) ∙ rw e (parse-insert_tokens name cols x xs g gs)
