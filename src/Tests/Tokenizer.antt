-- ===== src/Tests/Tokenizer.antt =====
-- The tokenizer on a statement.
use gs_dbengine.Base.{◌≡◌, ◌↔◌, refl, length, List, Result, ok, map, Bytes, codes, ◌>>=◌, [], ◌∷◌}
use gs_dbengine.Tokenizer.Types.{TokenType, Token, token_type_name}
use gs_dbengine.Tokenizer.Ends.{Tokens, tokenize-Tokens}
use gs_dbengine.Tokenizer.Words.{keyword_or_identifier_iff}
use gs_dbengine.Tokenizer.Scan.{
  tokenize, tokenize_loop, next_token, skip_whitespace_and_comments, skip_rounds, skip_round,
  skip_line, starts_comment, is_space, is_digit, is_alpha, is_word, is_end, token_from,
  read_identifier_or_keyword, read_number, read_string_literal, read_operator, read_operator_at,
  read_single, read_double, single_operator, double_operator, string_loop, number_loop, word_loop,
  put_back, advance,
}
use gs_dbengine.Tokenizer.Keywords.{keyword_or_identifier, find_keyword, to_upper}
use gs_dbengine.Catalog.Schema.{text_eq}
use gs_dbengine.Row.{list_eq}

shapes : Bytes → Result (List (TokenType × Bytes))
shapes input = do ts ← tokenize input; ok (map (λ (t : Token). (t.type, t.value)) ts)

shapes_statement :
    shapes (codes "sElect * -- all\n From t1 where a >= 1.5.2 and b = 'it''s'")
    ≡ ok (
        (TokenType.select, codes "sElect")
        ∷ (TokenType.star, codes "*")
        ∷ (TokenType.from, codes "From")
        ∷ (TokenType.identifier, codes "t1")
        ∷ (TokenType.where_kw, codes "where")
        ∷ (TokenType.identifier, codes "a")
        ∷ (TokenType.gte, codes ">=")
        ∷ (TokenType.float_literal, codes "1.5")
        ∷ (TokenType.dot, codes ".")
        ∷ (TokenType.integer_literal, codes "2")
        ∷ (TokenType.and, codes "and")
        ∷ (TokenType.identifier, codes "b")
        ∷ (TokenType.eq, codes "=")
        ∷ (TokenType.string_literal, codes "it's")
        ∷ (TokenType.end_of_file, [])
        ∷ [])
unfolding shapes tokenize tokenize_loop next_token skip_whitespace_and_comments skip_rounds
    skip_round skip_line starts_comment is_space is_digit is_alpha is_word is_end token_from
    read_identifier_or_keyword read_number read_string_literal read_operator read_operator_at
    read_single read_double single_operator double_operator string_loop number_loop word_loop
    put_back advance keyword_or_identifier find_keyword to_upper text_eq list_eq
shapes_statement = refl

abbrev statement : Bytes
statement = codes "insert into t values ('x'); -- one"

Tokens_example : Tokens (length statement) (tokenize statement)
Tokens_example = tokenize-Tokens statement

keyword_example :
    (keyword_or_identifier (codes "Limit") ≡ TokenType.limit)
    ↔ (map to_upper (codes "Limit") ≡ token_type_name TokenType.limit)
keyword_example = keyword_or_identifier_iff (codes "Limit") TokenType.limit refl
