-- ===== src/Parser/Ast.antt =====
-- src/parser/ast.h. A struct with a `kind` is a data type with a constructor for each kind, which has
-- the fields of that kind. A std::unique_ptr that may be null is a data type with two constructors.
use gs_dbengine.Base.{ℕ, Bool, List, Option, Bytes}
use gs_dbengine.Row.{Value}

pub record ColumnRef : Type 0 where
  pub table_name : Bytes
  pub column_name : Bytes

pub data CompareOp : Type 0 where
  eq neq lt gt lte gte like is_null is_not_null in_subquery not_in_subquery : CompareOp

pub data LogicalOp : Type 0 where
  and or not : LogicalOp

pub data AggregateType : Type 0 where
  nothing count_star count_column max min avg median : AggregateType

pub record SelectColumn : Type 0 where
  pub is_star : Bool
  pub is_literal : Bool
  pub literal : Value
  pub column : ColumnRef
  pub aggregate : AggregateType

mutual
  -- The right operand of NOT is null.
  pub data HavingExpr : Type 0 where
    compare : SelectColumn → CompareOp → Value → HavingExpr
    logical : LogicalOp → HavingExpr → HavingExprPtr → HavingExpr

  pub data HavingExprPtr : Type 0 where
    no_having : HavingExprPtr
    having : HavingExpr → HavingExprPtr

pub data JoinType : Type 0 where
  inner left right : JoinType

pub record JoinClause : Type 0 where
  pub type : JoinType
  pub table_name : Bytes
  pub alias : Bytes
  pub left_col : ColumnRef
  pub right_col : ColumnRef

pub record OrderByClause : Type 0 where
  pub operand : SelectColumn
  pub ascending : Bool

mutual
  -- `compare` has the column, the operator, the literal, the other column and the subquery.
  pub data WhereExpr : Type 0 where
    compare : ColumnRef → CompareOp → Value → Option ColumnRef → SelectPtr → WhereExpr
    logical : LogicalOp → WhereExpr → WhereExprPtr → WhereExpr
    exists : SelectStmt → WhereExpr

  pub data WhereExprPtr : Type 0 where
    no_where : WhereExprPtr
    where_expr : WhereExpr → WhereExprPtr

  -- The columns, the table and its alias, the joins, WHERE, GROUP BY, HAVING, ORDER BY and LIMIT.
  pub data SelectStmt : Type 0 where
    select :
        List SelectColumn
        → Bytes
        → Bytes
        → List JoinClause
        → WhereExprPtr
        → List ColumnRef
        → HavingExprPtr
        → List OrderByClause
        → Option ℕ
        → SelectStmt

  pub data SelectPtr : Type 0 where
    no_select : SelectPtr
    subquery : SelectStmt → SelectPtr

pub record InsertStmt : Type 0 where
  pub table_name : Bytes
  pub columns : List Bytes
  pub values : List Value
  pub value_is_default : List Bool

pub record SetClause : Type 0 where
  pub column_name : Bytes
  pub value : Value
  pub is_default : Bool

pub record UpdateStmt : Type 0 where
  pub table_name : Bytes
  pub assignments : List SetClause
  pub filter : WhereExprPtr

pub record DeleteStmt : Type 0 where
  pub table_name : Bytes
  pub filter : WhereExprPtr

pub record ColumnDef : Type 0 where
  pub name : Bytes
  pub type_name : Bytes
  pub varchar_len : ℕ
  pub is_primary_key : Bool
  pub is_nullable : Bool
  pub auto_increment : Bool
  pub is_unique : Bool
  pub has_default : Bool
  pub default_value : Value
  pub check : WhereExprPtr
  pub fk_ref_table : Bytes
  pub fk_ref_column : Bytes

pub data ForeignKeyOnDelete : Type 0 where
  restrict cascade : ForeignKeyOnDelete

pub record ForeignKeyDef : Type 0 where
  pub columns : List Bytes
  pub ref_table : Bytes
  pub ref_columns : List Bytes
  pub on_delete : ForeignKeyOnDelete

pub record CreateTableStmt : Type 0 where
  pub table_name : Bytes
  pub columns : List ColumnDef
  pub table_checks : List WhereExpr
  pub table_primary_key : List Bytes
  pub table_unique : List (List Bytes)
  pub foreign_keys : List ForeignKeyDef
  pub source_text : Bytes

pub record CreateIndexStmt : Type 0 where
  pub index_name : Bytes
  pub table_name : Bytes
  pub column_names : List Bytes
  pub is_unique : Bool

pub data ShowTarget : Type 0 where
  tables databases : ShowTarget

-- `Statement`; a struct with one field is that field.
pub data Statement : Type 0 where
  select : SelectStmt → Statement
  insert : InsertStmt → Statement
  update : UpdateStmt → Statement
  delete : DeleteStmt → Statement
  create_table : CreateTableStmt → Statement
  drop_table : Bytes → Statement
  create_index : CreateIndexStmt → Statement
  drop_index : Bytes → Statement
  create_database : Bytes → Statement
  drop_database : Bytes → Statement
  use_database : Bytes → Statement
  show : ShowTarget → Statement
  describe : Bytes → Statement
