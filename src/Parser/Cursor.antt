-- ===== src/Parser/Cursor.antt =====
-- src/parser/parser.cpp: the position in the tokens. It is the list of the tokens from `pos_` on. The
-- tokens end with END_OF_FILE, which `advance` never passes, so that the list is never empty; the
-- empty list, from which C++ would read out of bounds, counts as END_OF_FILE.
use gs_dbengine.Base.{
  ℕ, zero, suc, Bool, true, false, ◌&&◌, List, [], ◌∷◌, Bytes, ok, err, if◌then◌else◌, ◌==◌, length,
  out_of_fuel, unexpected_token,
}
use gs_dbengine.Base.Action.{Action, done, throw, continue}
use gs_dbengine.Tokenizer.Types.{TokenType, Token}

-- A method of the parser. What an exception leaves of the position is not used.
abbrev pub Parser : Type 0 → Type 0
Parser = Action (List Token)

-- Shut, so that the laws of the parser see its parts.
infixl 5 ◌>>=◌ ◌>>◌
unfoldable pub ◌>>=◌ : {A B : Type 0} → Parser A → (A → Parser B) → Parser B
(m >>= next) tokens = continue (m tokens) next

abbrev pub ◌>>◌ : {B : Type 0} → Parser Unit → Parser B → Parser B
m >> next = m >>= λ _. next

-- The value of the enumerator.
unfoldable pub type_code : TokenType → ℕ
type_code TokenType.select = 0
type_code TokenType.from = 1
type_code TokenType.where_kw = 2
type_code TokenType.insert = 3
type_code TokenType.into = 4
type_code TokenType.values = 5
type_code TokenType.update = 6
type_code TokenType.set = 7
type_code TokenType.delete = 8
type_code TokenType.create = 9
type_code TokenType.table = 10
type_code TokenType.drop = 11
type_code TokenType.use_kw = 12
type_code TokenType.show = 13
type_code TokenType.databases = 14
type_code TokenType.database = 15
type_code TokenType.tables = 16
type_code TokenType.describe = 17
type_code TokenType.index = 18
type_code TokenType.unique = 19
type_code TokenType.and = 20
type_code TokenType.or = 21
type_code TokenType.not = 22
type_code TokenType.null_kw = 23
type_code TokenType.is = 24
type_code TokenType.like = 25
type_code TokenType.order = 26
type_code TokenType.by = 27
type_code TokenType.asc = 28
type_code TokenType.desc = 29
type_code TokenType.group = 30
type_code TokenType.having = 31
type_code TokenType.limit = 32
type_code TokenType.join = 33
type_code TokenType.inner = 34
type_code TokenType.left = 35
type_code TokenType.right = 36
type_code TokenType.on = 37
type_code TokenType.primary = 38
type_code TokenType.key = 39
type_code TokenType.auto_increment = 40
type_code TokenType.check = 41
type_code TokenType.count = 42
type_code TokenType.max = 43
type_code TokenType.min = 44
type_code TokenType.avg = 45
type_code TokenType.median = 46
type_code TokenType.in_kw = 47
type_code TokenType.exists = 48
type_code TokenType.default = 49
type_code TokenType.foreign = 50
type_code TokenType.references = 51
type_code TokenType.cascade = 52
type_code TokenType.restrict = 53
type_code TokenType.int_kw = 54
type_code TokenType.float_kw = 55
type_code TokenType.boolean_kw = 56
type_code TokenType.varchar_kw = 57
type_code TokenType.true_kw = 58
type_code TokenType.false_kw = 59
type_code TokenType.integer_literal = 60
type_code TokenType.float_literal = 61
type_code TokenType.string_literal = 62
type_code TokenType.identifier = 63
type_code TokenType.lparen = 64
type_code TokenType.rparen = 65
type_code TokenType.comma = 66
type_code TokenType.semicolon = 67
type_code TokenType.star = 68
type_code TokenType.dot = 69
type_code TokenType.eq = 70
type_code TokenType.neq = 71
type_code TokenType.lt = 72
type_code TokenType.gt = 73
type_code TokenType.lte = 74
type_code TokenType.gte = 75
type_code TokenType.plus = 76
type_code TokenType.minus = 77
type_code TokenType.end_of_file = 78

abbrev pub is_type : TokenType → TokenType → Bool
is_type t u = type_code t == type_code u

unfoldable pub peek_type : List Token → TokenType
peek_type [] = TokenType.end_of_file
peek_type (t ∷ tokens) = t.type

unfoldable pub peek_value : List Token → Bytes
peek_value [] = []
peek_value (t ∷ tokens) = t.value

unfoldable pub later : List Token → List Token
later [] = []
later (t ∷ tokens) = if is_type t.type TokenType.end_of_file then t ∷ tokens else tokens

-- `advance().value`
unfoldable pub advance : Parser Bytes
advance tokens = (ok (peek_value tokens), later tokens)

unfoldable pub check : TokenType → List Token → Bool
check type tokens = is_type (peek_type tokens) type

-- `check(type) && pos_ + 1 < tokens_.size() && tokens_[pos_ + 1].type == next`
unfoldable pub check_two : TokenType → TokenType → List Token → Bool
check_two type next (t ∷ u ∷ tokens) = is_type t.type type && is_type u.type next
check_two type next _ = false

unfoldable pub match : TokenType → Parser Bool
match type tokens = if check type tokens then (ok true, later tokens) else (ok false, tokens)

-- `expect(type, …).value`
unfoldable pub expect : TokenType → Parser Bytes
expect type tokens = if check type tokens then advance tokens else (err unexpected_token, tokens)

unfoldable pub expect_ : TokenType → Parser Unit
expect_ type = expect type >>= λ value. done tt

-- `if … else …` on what comes next; `if_check` tests one type, and `if_match` also passes it.
unfoldable pub branch : {A : Type 0} → (List Token → Bool) → Parser A → Parser A → Parser A
branch test present absent tokens = if test tokens then present tokens else absent tokens

unfoldable pub if_check : {A : Type 0} → TokenType → Parser A → Parser A → Parser A
unfolding branch
if_check type present absent = branch (check type) present absent

unfoldable pub if_match : {A : Type 0} → TokenType → Parser A → Parser A → Parser A
if_match type present absent = if_check type (advance >>= λ value. present) absent

unfoldable pub if_two : {A : Type 0} → TokenType → TokenType → Parser A → Parser A → Parser A
unfolding branch
if_two type next present absent =
    branch (check_two type next) (advance >>= λ a. advance >>= λ b. present) absent

-- `do … while (match(COMMA))`, with what a round makes of the state of the loop.
unfoldable pub comma_rounds : {A : Type 0} → ℕ → (A → Parser A) → A → Parser A
comma_rounds zero round a = throw out_of_fuel
comma_rounds (suc fuel) round a =
    round a >>= λ next. if_match TokenType.comma (comma_rounds fuel round next) (done next)

unfoldable pub while_comma : {A : Type 0} → (A → Parser A) → A → Parser A
while_comma round a tokens = comma_rounds (suc (length tokens)) round a tokens
