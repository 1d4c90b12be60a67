-- ===== src/Catalog/Codec.antt =====
-- src/catalog/catalog_manager.cpp, `serialize`, `deserialize` and their helpers: the bytes of the
-- catalog page. A position in the buffer is the list of the bytes that follow it.
pub mod RoundTrip
pub mod Whole
use gs_dbengine.Base.{
  ℕ, zero, suc, ◌+◌, ◌%◌, ◌^◌, Bool, true, false, not, ◌&&◌, List, [], ◌∷◌, ◌++◌, Bytes, length,
  Result, ok, err, ◌>>=◌, if◌then◌else◌, ◌==◌, map, le_bytes, load, read_bytes, buffer_overrun,
  unknown_value_tag, unknown_enumerator, take, replicate,
}
use gs_dbengine.Row.{Value, null, int, float, bool, string}
use gs_dbengine.Catalog.Schema.{
  ColumnType, Column, CheckOp, CheckConstraint, FkOnDelete, ForeignKeyConstraint, TableSchema,
  IndexSchema,
}
use gs_dbengine.Catalog.Texts.{insert_text}
unfoldable pub use gs_dbengine.Catalog.Words.{
  write_uint32, write_uint8, write_string, write_flag, read_uint32, read_uint8, read_string,
  read_flag, write_value, read_tagged, read_value, write_each, write_list, read_each, read_list,
}

-- The enumerators. A byte that is none of them, which C++ keeps as it is, is an error here.
unfoldable pub column_type_code : ColumnType → ℕ
column_type_code ColumnType.int = 1
column_type_code ColumnType.float = 2
column_type_code ColumnType.boolean = 3
column_type_code ColumnType.varchar = 4

unfoldable pub column_type_of : ℕ → Result ColumnType
column_type_of code =
    if code == 1
    then ok ColumnType.int
    else if code == 2
    then ok ColumnType.float
    else if code == 3
    then ok ColumnType.boolean
    else if code == 4
    then ok ColumnType.varchar
    else err unknown_enumerator

unfoldable pub check_op_code : CheckOp → ℕ
check_op_code CheckOp.eq = 1
check_op_code CheckOp.neq = 2
check_op_code CheckOp.lt = 3
check_op_code CheckOp.gt = 4
check_op_code CheckOp.lte = 5
check_op_code CheckOp.gte = 6

unfoldable pub check_op_of : ℕ → Result CheckOp
check_op_of code =
    if code == 1
    then ok CheckOp.eq
    else if code == 2
    then ok CheckOp.neq
    else if code == 3
    then ok CheckOp.lt
    else if code == 4
    then ok CheckOp.gt
    else if code == 5
    then ok CheckOp.lte
    else if code == 6
    then ok CheckOp.gte
    else err unknown_enumerator

unfoldable pub fk_on_delete_code : FkOnDelete → ℕ
fk_on_delete_code FkOnDelete.restrict = 1
fk_on_delete_code FkOnDelete.cascade = 2

unfoldable pub fk_on_delete_of : ℕ → Result FkOnDelete
fk_on_delete_of code =
    if code == 1
    then ok FkOnDelete.restrict
    else if code == 2
    then ok FkOnDelete.cascade
    else err unknown_enumerator

unfoldable pub write_default : Bool → Value → Bytes
write_default true v = write_value v
write_default false v = []

unfoldable pub write_column : Column → Bytes
write_column col =
    write_string col.name
    ++ (write_uint8 (column_type_code col.type)
        ++ (write_uint32 col.max_length
            ++ (write_flag col.is_nullable
                ++ (write_flag col.is_primary_key
                    ++ (write_flag col.auto_increment
                        ++ (write_flag col.has_default
                            ++ write_default col.has_default col.default_value))))))

-- A column without a default keeps the default-constructed value, which is NULL.
unfoldable pub read_default : Bool → Bytes → Result (Value × Bytes)
read_default true buf = read_value buf
read_default false buf = ok (null, buf)

unfoldable pub read_column : Bytes → Result (Column × Bytes)
read_column buf = do
  (name, buf) ← read_string buf
  (code, buf) ← read_uint8 buf
  type ← column_type_of code
  (max_length, buf) ← read_uint32 buf
  (is_nullable, buf) ← read_flag buf
  (is_primary_key, buf) ← read_flag buf
  (auto_increment, buf) ← read_flag buf
  (has_default, buf) ← read_flag buf
  (default_value, buf) ← read_default has_default buf
  ok (
    record {
      name = name;
      type = type;
      max_length = max_length;
      is_nullable = is_nullable;
      is_primary_key = is_primary_key;
      auto_increment = auto_increment;
      has_default = has_default;
      default_value = default_value;
    },
    buf,
  )

unfoldable pub write_check : CheckConstraint → Bytes
write_check c =
    write_uint32 c.column_index ++ (write_uint8 (check_op_code c.op) ++ write_value c.operand)

unfoldable pub read_check : Bytes → Result (CheckConstraint × Bytes)
read_check buf = do
  (column_index, buf) ← read_uint32 buf
  (code, buf) ← read_uint8 buf
  op ← check_op_of code
  (operand, buf) ← read_value buf
  ok (record { column_index = column_index; op = op; operand = operand }, buf)

unfoldable pub write_foreign_key : ForeignKeyConstraint → Bytes
write_foreign_key fk =
    write_list write_uint32 fk.column_indices
    ++ (write_string fk.ref_table
        ++ (write_list write_uint32 fk.ref_column_indices
            ++ (write_uint8 (fk_on_delete_code fk.on_delete)
                ++ (write_string fk.child_index_name ++ write_string fk.ref_index_name))))

unfoldable pub read_foreign_key : Bytes → Result (ForeignKeyConstraint × Bytes)
read_foreign_key buf = do
  (column_indices, buf) ← read_list read_uint32 buf
  (ref_table, buf) ← read_string buf
  (ref_column_indices, buf) ← read_list read_uint32 buf
  (code, buf) ← read_uint8 buf
  on_delete ← fk_on_delete_of code
  (child_index_name, buf) ← read_string buf
  (ref_index_name, buf) ← read_string buf
  ok (
    record {
      column_indices = column_indices;
      ref_table = ref_table;
      ref_column_indices = ref_column_indices;
      on_delete = on_delete;
      child_index_name = child_index_name;
      ref_index_name = ref_index_name;
    },
    buf,
  )

unfoldable pub write_table : TableSchema → Bytes
write_table schema =
    write_string schema.name
    ++ (write_uint32 schema.root_page
        ++ (write_list write_uint32 schema.primary_key_indices
            ++ (write_list write_column schema.columns
                ++ (write_list write_check schema.checks
                    ++ (write_list write_foreign_key schema.foreign_keys
                        ++ write_string schema.create_sql)))))

unfoldable pub read_table : Bytes → Result (TableSchema × Bytes)
read_table buf = do
  (name, buf) ← read_string buf
  (root_page, buf) ← read_uint32 buf
  (primary_key_indices, buf) ← read_list read_uint32 buf
  (columns, buf) ← read_list read_column buf
  (checks, buf) ← read_list read_check buf
  (foreign_keys, buf) ← read_list read_foreign_key buf
  (create_sql, buf) ← read_string buf
  ok (
    record {
      name = name;
      columns = columns;
      root_page = root_page;
      primary_key_indices = primary_key_indices;
      checks = checks;
      foreign_keys = foreign_keys;
      create_sql = create_sql;
    },
    buf,
  )

unfoldable pub write_index : IndexSchema → Bytes
write_index idx =
    write_string idx.name
    ++ (write_string idx.table_name
        ++ (write_list write_string idx.column_names
            ++ (write_uint32 idx.root_page ++ write_flag idx.is_unique)))

unfoldable pub read_index : Bytes → Result (IndexSchema × Bytes)
read_index buf = do
  (name, buf) ← read_string buf
  (table_name, buf) ← read_string buf
  (column_names, buf) ← read_list read_string buf
  (root_page, buf) ← read_uint32 buf
  (is_unique, buf) ← read_flag buf
  ok (
    record {
      name = name;
      table_name = table_name;
      column_names = column_names;
      root_page = root_page;
      is_unique = is_unique;
    },
    buf,
  )

-- `tables_` and `indexes_`.
pub record Catalog : Type 0 where
  pub tables : List (Bytes × TableSchema)
  pub indexes : List (Bytes × IndexSchema)

abbrev pub empty_catalog : Catalog
empty_catalog = record { tables = []; indexes = [] }

unfoldable pub serialize : Catalog → Bytes
serialize c =
    write_list (λ (e : Bytes × TableSchema). write_table e.1) c.tables
    ++ write_list (λ (e : Bytes × IndexSchema). write_index e.1) c.indexes

-- The loops of `deserialize`: a schema enters the map under its name.
unfoldable pub enter_tables :
    List TableSchema → List (Bytes × TableSchema) → List (Bytes × TableSchema)
enter_tables [] m = m
enter_tables (schema ∷ schemas) m = enter_tables schemas (insert_text schema.name schema m)

unfoldable pub enter_indexes :
    List IndexSchema → List (Bytes × IndexSchema) → List (Bytes × IndexSchema)
enter_indexes [] m = m
enter_indexes (idx ∷ schemas) m = enter_indexes schemas (insert_text idx.name idx m)

unfoldable pub starts_with_zeros : Bytes → Bool
starts_with_zeros (a ∷ b ∷ c ∷ d ∷ rest) = ((a == 0) && (b == 0)) && ((c == 0) && (d == 0))
starts_with_zeros _ = false

unfoldable pub read_catalog : Bytes → Result Catalog
read_catalog page = do
  (tables, rest) ← read_list read_table page
  (indexes, rest) ← read_list read_index rest
  ok (record { tables = enter_tables tables []; indexes = enter_indexes indexes [] })

unfoldable pub deserialize : Bytes → Result Catalog
deserialize [] = ok empty_catalog
deserialize (b ∷ page) =
    if starts_with_zeros (b ∷ page) then ok empty_catalog else read_catalog (b ∷ page)
