-- ===== src/Catalog/Schema.antt =====
-- src/catalog/schema.h: columns, constraints, tables and indexes. A std::string is its bytes.
use gs_dbengine.Base.{
  ℕ, suc, Bool, List, [], ◌∷◌, Bytes, length, Option, none, some, if◌then◌else◌, ◌==◌, ltb,
}
use gs_dbengine.Row.{Value, list_eq}

pub data ColumnType : Type 0 where
  int float boolean varchar : ColumnType

unfoldable pub column_type_size : ColumnType → ℕ
column_type_size ColumnType.int = 4
column_type_size ColumnType.float = 4
column_type_size ColumnType.boolean = 1
column_type_size ColumnType.varchar = 0

pub record Column : Type 0 where
  pub name : Bytes
  pub type : ColumnType
  pub max_length : ℕ
  pub is_nullable : Bool
  pub is_primary_key : Bool
  pub auto_increment : Bool
  pub has_default : Bool
  pub default_value : Value

pub data CheckOp : Type 0 where
  eq neq lt gt lte gte : CheckOp

pub record CheckConstraint : Type 0 where
  pub column_index : ℕ
  pub op : CheckOp
  pub operand : Value

pub data FkOnDelete : Type 0 where
  restrict cascade : FkOnDelete

pub record ForeignKeyConstraint : Type 0 where
  pub column_indices : List ℕ
  pub ref_table : Bytes
  pub ref_column_indices : List ℕ
  pub on_delete : FkOnDelete
  pub child_index_name : Bytes
  pub ref_index_name : Bytes

pub record TableSchema : Type 0 where
  pub name : Bytes
  pub columns : List Column
  pub root_page : ℕ
  pub primary_key_indices : List ℕ
  pub checks : List CheckConstraint
  pub foreign_keys : List ForeignKeyConstraint
  pub create_sql : Bytes

pub record IndexSchema : Type 0 where
  pub name : Bytes
  pub table_name : Bytes
  pub column_names : List Bytes
  pub root_page : ℕ
  pub is_unique : Bool

-- `operator==` of std::string.
unfoldable pub text_eq : Bytes → Bytes → Bool
unfolding list_eq
text_eq = list_eq ◌==◌

unfoldable pub index_from : ℕ → Bytes → List Column → Option ℕ
index_from i col_name [] = none
index_from i col_name (col ∷ columns) =
    if text_eq col.name col_name then some i else index_from (suc i) col_name columns

-- `none` where the source returns -1.
unfoldable pub column_index : Bytes → TableSchema → Option ℕ
column_index col_name schema = index_from 0 col_name schema.columns

unfoldable pub is_composite_primary_key : TableSchema → Bool
is_composite_primary_key schema = ltb 1 (length schema.primary_key_indices)

unfoldable pub is_composite : IndexSchema → Bool
is_composite schema = ltb 1 (length schema.column_names)
