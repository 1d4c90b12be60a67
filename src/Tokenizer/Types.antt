-- ===== src/Tokenizer/Types.antt =====
-- src/parser/token.h, and `token_type_name` of tokenizer.cpp: the tokens of the SQL text.
use gs_dbengine.Base.{ℕ, Bytes, codes}

pub data TokenType : Type 0 where
  select from where_kw insert into values update set delete create table drop use_kw : TokenType
  show databases database tables describe index unique and or not null_kw is like : TokenType
  order by asc desc group having limit join inner left right on primary key : TokenType
  auto_increment check count max min avg median in_kw exists default foreign : TokenType
  references cascade restrict int_kw float_kw boolean_kw varchar_kw true_kw false_kw : TokenType
  integer_literal float_literal string_literal identifier : TokenType
  lparen rparen comma semicolon star dot eq neq lt gt lte gte plus minus end_of_file : TokenType

pub record Token : Type 0 where
  pub type : TokenType
  pub value : Bytes
  pub line : ℕ
  pub col : ℕ

unfoldable pub token_type_name : TokenType → Bytes
token_type_name TokenType.select = codes "SELECT"
token_type_name TokenType.from = codes "FROM"
token_type_name TokenType.where_kw = codes "WHERE"
token_type_name TokenType.insert = codes "INSERT"
token_type_name TokenType.into = codes "INTO"
token_type_name TokenType.values = codes "VALUES"
token_type_name TokenType.update = codes "UPDATE"
token_type_name TokenType.set = codes "SET"
token_type_name TokenType.delete = codes "DELETE"
token_type_name TokenType.create = codes "CREATE"
token_type_name TokenType.table = codes "TABLE"
token_type_name TokenType.drop = codes "DROP"
token_type_name TokenType.use_kw = codes "USE"
token_type_name TokenType.show = codes "SHOW"
token_type_name TokenType.databases = codes "DATABASES"
token_type_name TokenType.database = codes "DATABASE"
token_type_name TokenType.tables = codes "TABLES"
token_type_name TokenType.describe = codes "DESCRIBE"
token_type_name TokenType.index = codes "INDEX"
token_type_name TokenType.unique = codes "UNIQUE"
token_type_name TokenType.and = codes "AND"
token_type_name TokenType.or = codes "OR"
token_type_name TokenType.not = codes "NOT"
token_type_name TokenType.null_kw = codes "NULL"
token_type_name TokenType.is = codes "IS"
token_type_name TokenType.like = codes "LIKE"
token_type_name TokenType.order = codes "ORDER"
token_type_name TokenType.by = codes "BY"
token_type_name TokenType.group = codes "GROUP"
token_type_name TokenType.having = codes "HAVING"
token_type_name TokenType.asc = codes "ASC"
token_type_name TokenType.desc = codes "DESC"
token_type_name TokenType.limit = codes "LIMIT"
token_type_name TokenType.join = codes "JOIN"
token_type_name TokenType.inner = codes "INNER"
token_type_name TokenType.left = codes "LEFT"
token_type_name TokenType.right = codes "RIGHT"
token_type_name TokenType.on = codes "ON"
token_type_name TokenType.primary = codes "PRIMARY"
token_type_name TokenType.key = codes "KEY"
token_type_name TokenType.auto_increment = codes "AUTO_INCREMENT"
token_type_name TokenType.check = codes "CHECK"
token_type_name TokenType.count = codes "COUNT"
token_type_name TokenType.max = codes "MAX"
token_type_name TokenType.min = codes "MIN"
token_type_name TokenType.avg = codes "AVG"
token_type_name TokenType.median = codes "MEDIAN"
token_type_name TokenType.in_kw = codes "IN"
token_type_name TokenType.exists = codes "EXISTS"
token_type_name TokenType.default = codes "DEFAULT"
token_type_name TokenType.foreign = codes "FOREIGN"
token_type_name TokenType.references = codes "REFERENCES"
token_type_name TokenType.cascade = codes "CASCADE"
token_type_name TokenType.restrict = codes "RESTRICT"
token_type_name TokenType.int_kw = codes "INT"
token_type_name TokenType.float_kw = codes "FLOAT"
token_type_name TokenType.boolean_kw = codes "BOOLEAN"
token_type_name TokenType.varchar_kw = codes "VARCHAR"
token_type_name TokenType.true_kw = codes "TRUE"
token_type_name TokenType.false_kw = codes "FALSE"
token_type_name TokenType.integer_literal = codes "INTEGER_LITERAL"
token_type_name TokenType.float_literal = codes "FLOAT_LITERAL"
token_type_name TokenType.string_literal = codes "STRING_LITERAL"
token_type_name TokenType.identifier = codes "IDENTIFIER"
token_type_name TokenType.lparen = codes "("
token_type_name TokenType.rparen = codes ")"
token_type_name TokenType.comma = codes ","
token_type_name TokenType.semicolon = codes ";"
token_type_name TokenType.star = codes "*"
token_type_name TokenType.dot = codes "."
token_type_name TokenType.eq = codes "="
token_type_name TokenType.neq = codes "!="
token_type_name TokenType.lt = codes "<"
token_type_name TokenType.gt = codes ">"
token_type_name TokenType.lte = codes "<="
token_type_name TokenType.gte = codes ">="
token_type_name TokenType.plus = codes "+"
token_type_name TokenType.minus = codes "-"
token_type_name TokenType.end_of_file = codes "EOF"
