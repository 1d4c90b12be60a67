-- ===== src/Database/Insert.antt =====
-- The text of an INSERT statement, and what `prepare` makes of it.
use gs_dbengine.Base.{
  ℕ, ◌≡◌, refl, ap, ◌∙◌, List, [], ◌∷◌, ◌++◌, append_assoc, map, All, All-append, Bytes, Result, ok,
  Option, none, some,
}
use gs_dbengine.Row.{Value}
use gs_dbengine.Tokenizer.Types.{TokenType, Token, token_type_name}
use gs_dbengine.Tokenizer.Scan.{is_end, single_operator}
use gs_dbengine.Parser.Ast.{Statement}
use gs_dbengine.Parser.Cursor.{type_code}
use gs_dbengine.Parser.Plain.{has_text}
use gs_dbengine.Parser.Precedence.{keyword}
use gs_dbengine.Parser.Printed.{
  word, separated, element_tokens, element_value, is_default, IsElement,
}
use gs_dbengine.Parser.Inserts.{name_tokens, column_tokens, insert_tokens, parse-insert}
use gs_dbengine.Database.{prepare, with_source_text}
use gs_dbengine.Database.Printed.{Printed, IsPrinted, print, tokenize-print}
use gs_dbengine.Database.Texts.{
  spelling, IsSpelled, IsName, keyword-IsSpelled, operator-IsSpelled, name-IsSpelled,
  value_tokens-IsSpelled,
}

-- `insert_tokens` without END_OF_FILE.
abbrev pub insert_front : Bytes → List Bytes → Option Value → List (Option Value) → List Token
insert_front name cols x xs =
    keyword TokenType.insert
    ∷ keyword TokenType.into
    ∷ word TokenType.identifier name
    ∷ (column_tokens cols
        ++ keyword TokenType.values
          ∷ keyword TokenType.lparen
          ∷ (element_tokens x ++ (separated element_tokens xs ++ keyword TokenType.rparen ∷ [])))

insert_front-end :
    (name : Bytes) (cols : List Bytes) (x : Option Value) (xs : List (Option Value))
    → insert_front name cols x xs ++ keyword TokenType.end_of_file ∷ []
      ≡ insert_tokens name cols x xs
insert_front-end name cols x xs =
    let last = keyword TokenType.end_of_file ∷ [] in
    let closed = separated element_tokens xs ++ keyword TokenType.rparen ∷ [] in
    rw
      (
        append_assoc (column_tokens cols)
            (keyword TokenType.values ∷ keyword TokenType.lparen ∷ (element_tokens x ++ closed))
            last,
        append_assoc (element_tokens x) closed last,
        append_assoc (separated element_tokens xs) (keyword TokenType.rparen ∷ []) last,
      )
      refl

-- The text of an INSERT statement: a blank before each token, and one at the end.
abbrev pub insert_text : Bytes → List Bytes → Option Value → List (Option Value) → Bytes
insert_text name cols x xs = print (map (λ u. (u, spelling u)) (insert_front name cols x xs))

lparen : IsSpelled (keyword TokenType.lparen)
unfolding token_type_name single_operator has_text type_code is_end
lparen = operator-IsSpelled TokenType.lparen b'(' refl refl (refl, refl, refl)

rparen : IsSpelled (keyword TokenType.rparen)
unfolding token_type_name single_operator has_text type_code is_end
rparen = operator-IsSpelled TokenType.rparen b')' refl refl (refl, refl, refl)

comma : IsSpelled (keyword TokenType.comma)
unfolding token_type_name single_operator has_text type_code is_end
comma = operator-IsSpelled TokenType.comma b',' refl refl (refl, refl, refl)

element-IsSpelled : (x : Option Value) → IsElement x → All IsSpelled (element_tokens x)
element-IsSpelled none h = (keyword-IsSpelled TokenType.default refl, tt)
element-IsSpelled (some v) h = value_tokens-IsSpelled v h

separated-IsSpelled :
    {X : Type 0} (show : X → List Token) (Good : X → Type 0)
    → ((x : X) → Good x → All IsSpelled (show x))
    → (xs : List X) → All Good xs
    → All IsSpelled (separated show xs)
separated-IsSpelled show Good each [] h = tt
separated-IsSpelled show Good each (x ∷ xs) (g, h) = (
  comma,
  All-append IsSpelled (show x) (separated show xs) (each x g)
      (separated-IsSpelled show Good each xs h),
)

column_tokens-IsSpelled : (cols : List Bytes) → All IsName cols → All IsSpelled (column_tokens cols)
column_tokens-IsSpelled [] h = tt
column_tokens-IsSpelled (col ∷ cols) (g, h) = (
  lparen,
  (
    name-IsSpelled col g,
    All-append IsSpelled (separated name_tokens cols) (keyword TokenType.rparen ∷ [])
        (separated-IsSpelled name_tokens IsName (λ name n. (name-IsSpelled name n, tt)) cols h)
        (rparen, tt),
  ),
)

insert_front-IsSpelled :
    (name : Bytes) (cols : List Bytes) (x : Option Value) (xs : List (Option Value))
    → IsName name
    → All IsName cols
    → IsElement x
    → All IsElement xs
    → All IsSpelled (insert_front name cols x xs)
insert_front-IsSpelled name cols x xs n ns g gs =
    let elements : All IsSpelled (separated element_tokens xs ++ keyword TokenType.rparen ∷ []) =
      All-append IsSpelled (separated element_tokens xs) (keyword TokenType.rparen ∷ [])
        (separated-IsSpelled element_tokens IsElement element-IsSpelled xs gs) (rparen, tt) in
    (
      keyword-IsSpelled TokenType.insert refl,
      (
        keyword-IsSpelled TokenType.into refl,
        (
          name-IsSpelled name n,
          All-append IsSpelled (column_tokens cols) _ (column_tokens-IsSpelled cols ns) (
            keyword-IsSpelled TokenType.values refl,
            (lparen, All-append IsSpelled (element_tokens x) _ (element-IsSpelled x g) elements),
          ),
        ),
      ),
    )

printed : (us : List Token) → All IsSpelled us → All IsPrinted (map (λ u. (u, spelling u)) us)
printed [] h = tt
printed (u ∷ us) (x, h) = (x, printed us h)

tokens_of : (us : List Token) → map (λ (i : Printed). i.0) (map (λ u. (u, spelling u)) us) ≡ us
tokens_of [] = refl
tokens_of (u ∷ us) = ap (λ vs. u ∷ vs) (tokens_of us)

-- The text of an INSERT statement, its tokens between single blanks, with a table name and any
-- columns or none that are identifiers and no keywords, and with one or more elements that are
-- DEFAULT, NULL, a Boolean, any text with its quotes doubled, or an integer other than
-- -2147483648, is tokenized and parsed to the statement.
pub prepare-insert_text :
    (stof : Bytes → Result ℕ) (name : Bytes) (cols : List Bytes) (x : Option Value)
    (xs : List (Option Value))
    → IsName name
    → All IsName cols
    → IsElement x
    → All IsElement xs
    → prepare stof (insert_text name cols x xs)
      ≡ ok (
          Statement.insert (record {
            table_name = name;
            columns = cols;
            values = map element_value (x ∷ xs);
            value_is_default = map is_default (x ∷ xs);
          }))
unfolding prepare with_source_text
prepare-insert_text stof name cols x xs n ns g gs =
    let front = insert_front name cols x xs in
    let (tokens, run, plained) =
      tokenize-print (map (λ u. (u, spelling u)) front)
        (printed front (insert_front-IsSpelled name cols x xs n ns g gs)) in
    let whole =
      plained
      ∙ ap (λ us. us ++ keyword TokenType.end_of_file ∷ []) (tokens_of front)
      ∙ insert_front-end name cols x xs in
    rw (run, parse-insert stof tokens name cols x xs whole g gs) refl
