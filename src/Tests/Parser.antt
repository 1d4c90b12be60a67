-- ===== src/Tests/Parser.antt =====
-- SQL texts and tokens.
use gs_dbengine.Base.{
  ℕ, List, ◌≡◌, ◌↔◌, refl, [], ◌∷◌, ◌++◌, Bytes, codes, Result, ok, some, none, true, false, arith,
}
use gs_dbengine.Row.{null, int, bool}
use gs_dbengine.Tokenizer.Types.{TokenType, Token, token_type_name}
use gs_dbengine.Parser.Ast.{Statement, WhereExpr, CompareOp, ColumnRef}
use gs_dbengine.Parser.Cursor.{
  ◌>>=◌, type_code, peek_type, peek_value, later, advance, check, match, expect, expect_, branch,
  if_check, if_match,
}
use gs_dbengine.Parser.Words.{parse_column_ref, parse_value, parse_signed, parse_other_value}
use gs_dbengine.Parser.Having.{parse_operator}
use gs_dbengine.Parser.Where.{
  parse_compare_expr, parse_condition, parse_comparison, parse_is, with_literal,
}
use gs_dbengine.Parser.Statements.{parse}
use gs_dbengine.Parser.Takes.Words.{StofConverts}
use gs_dbengine.Parser.Bounds.{Holds}
use gs_dbengine.Parser.Bounds.Values.{StofBits}
use gs_dbengine.Parser.Bounds.Statements.{IsInRange, parse-IsInRange}
use gs_dbengine.Parser.Precedence.{
  keyword, Item, Conjunction, IsTerm, disjunction, parse_expr-disjunction,
}
use gs_dbengine.Parser.Printed.{word, value_tokens}
use gs_dbengine.Parser.Numbers.{digits_in}
use gs_dbengine.Parser.Select.{parse_select_body}
use gs_dbengine.Parser.Tables.{parse_expr}
use gs_dbengine.Parser.Plain.{plain, has_text, erase}
use gs_dbengine.Parser.Plain.Statements.{parse-plain_iff}
use gs_dbengine.Database.Insert.{insert_text, prepare-insert_text}
use gs_dbengine.Database.Spelled.{doubled}
use gs_dbengine.Database.Texts.{spelling, IsName}
use gs_dbengine.Tokenizer.Scan.{is_word, is_alpha, is_digit}
use gs_dbengine.Tokenizer.Keywords.{keyword_or_identifier, find_keyword, to_upper}
use gs_dbengine.Catalog.Schema.{text_eq}
use gs_dbengine.Row.{list_eq, string}
use gs_dbengine.Database.{prepare, Prepared, prepare-Prepared}

abbrev zero_float : Bytes → Result ℕ
zero_float text = ok 0

zero_float-Converts : StofConverts zero_float
zero_float-Converts text = tt

abbrev sql : Bytes
sql = codes "CREATE TABLE t (a INT PRIMARY KEY, b VARCHAR(9) NOT NULL);"

prepare_example : Prepared (prepare zero_float sql)
prepare_example = prepare-Prepared zero_float sql zero_float-Converts

abbrev column : ColumnRef
column = record { table_name = []; column_name = codes "a" }

-- a = TRUE, and a IS NULL
abbrev is_true : Item WhereExpr
is_true = (
  word TokenType.identifier (codes "a") ∷ keyword TokenType.eq ∷ keyword TokenType.true_kw ∷ [],
  with_literal column CompareOp.eq (bool true),
)

abbrev is_missing : Item WhereExpr
is_missing = (
  word TokenType.identifier (codes "a") ∷ keyword TokenType.is ∷ keyword TokenType.null_kw ∷ [],
  with_literal column CompareOp.is_null null,
)

is_true-IsTerm : IsTerm zero_float (parse_select_body zero_float) (false, is_true)
unfolding parse_compare_expr parse_condition parse_comparison parse_operator parse_column_ref
    parse_value parse_signed parse_other_value check peek_type type_code if_match if_check branch
    ◌>>=◌ advance later peek_value match expect
is_true-IsTerm = ((λ rest. refl), (λ rest follows. refl))

is_missing-IsTerm : IsTerm zero_float (parse_select_body zero_float) (true, is_missing)
unfolding parse_compare_expr parse_condition parse_is parse_column_ref check peek_type type_code
    if_match if_check branch ◌>>=◌ advance later peek_value expect expect_
is_missing-IsTerm = ((λ rest. refl), (λ rest follows. refl))

-- a = TRUE OR NOT a IS NULL AND a = TRUE
abbrev one : Conjunction
one = ((false, is_true), [])

abbrev two : Conjunction
two = ((true, is_missing), (false, is_true) ∷ [])

-- A token of the first line.
abbrev said : TokenType → Bytes → ℕ → Token
said type value col = record { type = type; value = value; line = 1; col = col }

-- a = true or not a IS null AND a = TRUE;
abbrev condition_tokens : List Token
condition_tokens =
    said TokenType.identifier (codes "a") 1
    ∷ said TokenType.eq (codes "=") 3
    ∷ said TokenType.true_kw (codes "true") 5
    ∷ said TokenType.or (codes "or") 10
    ∷ said TokenType.not (codes "not") 13
    ∷ said TokenType.identifier (codes "a") 17
    ∷ said TokenType.is (codes "IS") 19
    ∷ said TokenType.null_kw (codes "null") 22
    ∷ said TokenType.and (codes "AND") 27
    ∷ said TokenType.identifier (codes "a") 31
    ∷ said TokenType.eq (codes "=") 33
    ∷ said TokenType.true_kw (codes "TRUE") 35
    ∷ said TokenType.semicolon (codes ";") 39
    ∷ []

condition_tokens-plain :
    plain condition_tokens ≡ (disjunction (one, two ∷ [])).0 ++ keyword TokenType.semicolon ∷ []
unfolding plain has_text type_code
condition_tokens-plain = refl

disjunction_example :
    erase (parse_expr zero_float condition_tokens)
    ≡ (ok (disjunction (one, two ∷ [])).1, keyword TokenType.semicolon ∷ [])
disjunction_example =
    parse_expr-disjunction zero_float condition_tokens one (two ∷ [])
      (keyword TokenType.semicolon ∷ []) condition_tokens-plain (is_true-IsTerm, tt)
      ((is_missing-IsTerm, (is_true-IsTerm, tt)), tt)
      (unfold check peek_type type_code in (refl, refl)) (unfold check peek_type type_code in refl)

-- Insert INTO t (a, b) VALUES (-5, default)
abbrev row_tokens : List Token
row_tokens =
    said TokenType.insert (codes "Insert") 1
    ∷ said TokenType.into (codes "INTO") 8
    ∷ said TokenType.identifier (codes "t") 13
    ∷ said TokenType.lparen (codes "(") 15
    ∷ said TokenType.identifier (codes "a") 16
    ∷ said TokenType.comma (codes ",") 17
    ∷ said TokenType.identifier (codes "b") 19
    ∷ said TokenType.rparen (codes ")") 20
    ∷ said TokenType.values (codes "VALUES") 22
    ∷ said TokenType.lparen (codes "(") 29
    ∷ said TokenType.minus (codes "-") 30
    ∷ said TokenType.integer_literal (codes "5") 31
    ∷ said TokenType.comma (codes ",") 32
    ∷ said TokenType.default (codes "default") 34
    ∷ said TokenType.rparen (codes ")") 41
    ∷ said TokenType.end_of_file [] 42
    ∷ []

abbrev row_statement : Statement
row_statement = Statement.insert (record {
  table_name = codes "t";
  columns = codes "a" ∷ codes "b" ∷ [];
  values = int 4_294_967_291 ∷ null ∷ [];
  value_is_default = false ∷ true ∷ [];
})

plain_example :
    ((parse zero_float (plain row_tokens)).0 ≡ ok row_statement)
    ↔ ((parse zero_float row_tokens).0 ≡ ok row_statement)
plain_example = parse-plain_iff zero_float row_tokens row_statement

letter-IsName : IsName (codes "t")
unfolding is_word is_alpha is_digit keyword_or_identifier find_keyword text_eq list_eq to_upper
letter-IsName = (refl, refl, refl)

other-IsName : IsName (codes "_B2")
unfolding is_word is_alpha is_digit keyword_or_identifier find_keyword text_eq list_eq to_upper
other-IsName = (refl, refl, refl)

-- INSERT INTO t ( t , _B2 ) VALUES ( - 5 , DEFAULT , 'it''s' )
insert_text_example :
    prepare zero_float (
      insert_text
        (codes "t")
        (codes "t" ∷ codes "_B2" ∷ [])
        (some (int 4_294_967_291))
        (none ∷ some (string (codes "it's")) ∷ []))
    ≡ ok (
        Statement.insert (record {
          table_name = codes "t";
          columns = codes "t" ∷ codes "_B2" ∷ [];
          values = int 4_294_967_291 ∷ null ∷ string (codes "it's") ∷ [];
          value_is_default = false ∷ true ∷ false ∷ [];
        }))
insert_text_example =
    prepare-insert_text zero_float (codes "t") (codes "t" ∷ codes "_B2" ∷ [])
      (some (int 4_294_967_291)) (none ∷ some (string (codes "it's")) ∷ []) letter-IsName
      (letter-IsName, (other-IsName, tt)) (omega arith, (λ e. absurd (omega arith))) (tt, (tt, tt))

-- The text that the theorem is about.
insert_text_bytes :
    insert_text
      (codes "t")
      (codes "t" ∷ codes "_B2" ∷ [])
      (some (int 4_294_967_291))
      (none ∷ some (string (codes "it's")) ∷ [])
    ≡ codes " INSERT INTO t ( t , _B2 ) VALUES ( - 5 , DEFAULT , 'it''s' ) "
unfolding spelling doubled value_tokens digits_in has_text type_code token_type_name
insert_text_bytes = refl

zero_float-Bits : StofBits zero_float
zero_float-Bits text = omega arith

bounds_example : Holds IsInRange (parse zero_float row_tokens).0
bounds_example = parse-IsInRange zero_float zero_float-Bits row_tokens
