-- ===== src/Database.antt =====
-- src/database.cpp: what `Database::execute` makes of the text of a statement before it runs it.
pub mod Spelled
pub mod Scans
pub mod Texts
pub mod Printed
pub mod Insert
use gs_dbengine.Base.{
  ℕ, Bool, ◌||◌, List, [], ◌∷◌, reverse, Bytes, Result, ok, err, ◌>>=◌, if◌then◌else◌, ◌==◌, ◌≡◌,
  ◌⊎◌, inl, inr, unterminated_string, unknown_character, length,
}
use gs_dbengine.Tokenizer.Types.{Token}
use gs_dbengine.Tokenizer.Scan.{tokenize}
use gs_dbengine.Tokenizer.Ends.{Tokens, tokenize-Tokens}
use gs_dbengine.Parser.Ast.{Statement, create_table}
use gs_dbengine.Parser.Statements.{parse}
use gs_dbengine.Parser.Takes.{Thrown}
use gs_dbengine.Parser.Takes.Words.{StofConverts}
use gs_dbengine.Parser.Takes.Statements.{Parsed, parse-Parsed}

-- One of " \t\r\n".
unfoldable pub is_blank : ℕ → Bool
is_blank c = c == b' ' || (c == b'\t' || (c == b'\r' || c == b'\n'))

-- The text from its first byte that is not blank.
unfoldable pub drop_blank : Bytes → Bytes
drop_blank [] = []
drop_blank (c ∷ text) = let rest = drop_blank text in if is_blank c then rest else c ∷ text

-- A text from its last byte on, without a semicolon at the end and blanks before it.
unfoldable pub drop_semicolon : Bytes → Bytes
drop_semicolon [] = []
drop_semicolon (c ∷ text) = if c == b';' then drop_blank text else c ∷ text

unfoldable pub source_text_of : Bytes → Bytes
unfolding drop_semicolon
source_text_of sql = reverse (drop_semicolon (drop_blank (reverse (drop_blank sql))))

unfoldable pub with_source_text : Bytes → Statement → Statement
with_source_text sql (create_table stmt) =
    create_table (record stmt { source_text = source_text_of sql })
with_source_text sql stmt = stmt

unfoldable pub prepare : (Bytes → Result ℕ) → Bytes → Result Statement
prepare stof sql = do
  tokens ← tokenize sql
  stmt ← (parse stof tokens).0
  ok (with_source_text sql stmt)

-- A statement, or what the tokenizer or the parser throws.
abbrev pub Prepared : Result Statement → Type 0
Prepared (ok stmt) = Unit {0}
Prepared (err e) = ((e ≡ unterminated_string) ⊎ (e ≡ unknown_character)) ⊎ Thrown e

with_source_text-Prepared :
    (sql : Bytes) (r : Result Statement)
    → Parsed r
    → Prepared (r >>= λ stmt. ok (with_source_text sql stmt))
with_source_text-Prepared sql (err e) h = inr h
with_source_text-Prepared sql (ok stmt) h = tt

-- For every text, where std::stof throws only std::invalid_argument and std::out_of_range: the
-- tokenizer and the parser together end; they return a statement, or throw for an unterminated
-- string, an unknown character, an unexpected token, or a number that is none or out of range, and
-- never run out of the fuel of their loops and of the nesting of subqueries.
pub prepare-Prepared :
    (stof : Bytes → Result ℕ) (sql : Bytes) → StofConverts stof → Prepared (prepare stof sql)
unfolding prepare
prepare-Prepared stof sql converts = at (tokenize sql) (tokenize-Tokens sql)
  where
    at :
        (r : Result (List Token))
        → Tokens (length sql) r
        → Prepared
            (r >>= λ tokens. (parse stof tokens).0 >>= λ stmt. ok (with_source_text sql stmt))
    at (err e) h = inl h
    at (ok tokens) h =
        with_source_text-Prepared sql (parse stof tokens).0 (parse-Parsed stof tokens converts)
