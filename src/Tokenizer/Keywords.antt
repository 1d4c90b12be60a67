-- ===== src/Tokenizer/Keywords.antt =====
-- `Tokenizer::keyword_or_identifier` of src/parser/tokenizer.cpp, and its table against that of
-- `token_type_name`.
use gs_dbengine.Base.{ℕ, ◌-◌, ◌&&◌, List, [], ◌∷◌, map, Bytes, codes, if◌then◌else◌, leb}
use gs_dbengine.Catalog.Schema.{text_eq}
use gs_dbengine.Tokenizer.Types.{TokenType}

-- `std::toupper` of the C locale
unfoldable pub to_upper : ℕ → ℕ
to_upper c = if leb b'a' c && leb c b'z' then c - 32 else c

-- the chain of tests, in its order
abbrev pub keywords : List (Bytes × TokenType)
keywords =
    (codes "SELECT", TokenType.select)
    ∷ (codes "FROM", TokenType.from)
    ∷ (codes "WHERE", TokenType.where_kw)
    ∷ (codes "INSERT", TokenType.insert)
    ∷ (codes "INTO", TokenType.into)
    ∷ (codes "VALUES", TokenType.values)
    ∷ (codes "UPDATE", TokenType.update)
    ∷ (codes "SET", TokenType.set)
    ∷ (codes "DELETE", TokenType.delete)
    ∷ (codes "CREATE", TokenType.create)
    ∷ (codes "TABLE", TokenType.table)
    ∷ (codes "DROP", TokenType.drop)
    ∷ (codes "USE", TokenType.use_kw)
    ∷ (codes "SHOW", TokenType.show)
    ∷ (codes "DATABASES", TokenType.databases)
    ∷ (codes "DATABASE", TokenType.database)
    ∷ (codes "TABLES", TokenType.tables)
    ∷ (codes "DESCRIBE", TokenType.describe)
    ∷ (codes "INDEX", TokenType.index)
    ∷ (codes "UNIQUE", TokenType.unique)
    ∷ (codes "AND", TokenType.and)
    ∷ (codes "OR", TokenType.or)
    ∷ (codes "NOT", TokenType.not)
    ∷ (codes "NULL", TokenType.null_kw)
    ∷ (codes "IS", TokenType.is)
    ∷ (codes "LIKE", TokenType.like)
    ∷ (codes "ORDER", TokenType.order)
    ∷ (codes "BY", TokenType.by)
    ∷ (codes "GROUP", TokenType.group)
    ∷ (codes "HAVING", TokenType.having)
    ∷ (codes "ASC", TokenType.asc)
    ∷ (codes "DESC", TokenType.desc)
    ∷ (codes "LIMIT", TokenType.limit)
    ∷ (codes "JOIN", TokenType.join)
    ∷ (codes "INNER", TokenType.inner)
    ∷ (codes "LEFT", TokenType.left)
    ∷ (codes "RIGHT", TokenType.right)
    ∷ (codes "ON", TokenType.on)
    ∷ (codes "PRIMARY", TokenType.primary)
    ∷ (codes "KEY", TokenType.key)
    ∷ (codes "AUTO_INCREMENT", TokenType.auto_increment)
    ∷ (codes "CHECK", TokenType.check)
    ∷ (codes "COUNT", TokenType.count)
    ∷ (codes "MAX", TokenType.max)
    ∷ (codes "MIN", TokenType.min)
    ∷ (codes "AVG", TokenType.avg)
    ∷ (codes "MEDIAN", TokenType.median)
    ∷ (codes "IN", TokenType.in_kw)
    ∷ (codes "EXISTS", TokenType.exists)
    ∷ (codes "DEFAULT", TokenType.default)
    ∷ (codes "FOREIGN", TokenType.foreign)
    ∷ (codes "REFERENCES", TokenType.references)
    ∷ (codes "CASCADE", TokenType.cascade)
    ∷ (codes "RESTRICT", TokenType.restrict)
    ∷ (codes "INT", TokenType.int_kw)
    ∷ (codes "FLOAT", TokenType.float_kw)
    ∷ (codes "BOOLEAN", TokenType.boolean_kw)
    ∷ (codes "VARCHAR", TokenType.varchar_kw)
    ∷ (codes "TRUE", TokenType.true_kw)
    ∷ (codes "FALSE", TokenType.false_kw)
    ∷ []

unfoldable pub find_keyword : Bytes → List (Bytes × TokenType) → TokenType
find_keyword upper [] = TokenType.identifier
find_keyword upper ((name, t) ∷ rest) = if text_eq upper name then t else find_keyword upper rest

unfoldable pub keyword_or_identifier : Bytes → TokenType
unfolding to_upper
keyword_or_identifier word = find_keyword (map to_upper word) keywords
