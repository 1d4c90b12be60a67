-- ===== src/Tests/Table.antt =====
-- A table of one column over the trees of Tests.Tree.
use gs_dbengine.Base.{
  ℕ, ◌≡◌, ◌+◌, ◌-◌, ◌≤◌, ◌<◌, ◌^◌, refl, inl, inr, Bool, true, false, [], ◌∷◌, Bytes, length, All,
  none, some, ok, err, arith, duplicate_key, le_bytes,
}
use gs_dbengine.Storage.Page.{page_size}
use gs_dbengine.Row.{int, null, Row, get, is_null}
use gs_dbengine.Row.Order.{IsOrdered}
use gs_dbengine.Row.Serializer.{
  serialize, deserialize, null_bitmap, encode_values, get_null_bit, encode_as, bitmap_size,
  decode_values, get_bit, byte_or_zero,
}
use gs_dbengine.Catalog.Schema.{TableSchema, ColumnType}
use gs_dbengine.Btree.Key.{
  Key, key_eq, key_lt, encode, encode_elements, encode_value, append_u16, append_u32,
}
use gs_dbengine.Btree.Node.{find_entry, node_header_size, leaf_cell}
use gs_dbengine.Btree.Node.Cells.{total}
use gs_dbengine.Btree.Tree.{BTree}
use gs_dbengine.Btree.Tree.Sorted.{space}
use gs_dbengine.Btree.Tree.Packed.{entry}
use gs_dbengine.Btree.Tree.Store.{Holds}
use gs_dbengine.Btree.Tree.Shape.{entries, route, leaf}
use gs_dbengine.Table.{
  Table, is_single_int_auto_increment, is_auto_increment, extract_primary_key, key_values,
}
use gs_dbengine.Table.Rows.{assign_key, insert}
use gs_dbengine.Table.Update.{row_of, select_by_key, delete_row}
use gs_dbengine.Table.Numbering.{plain, IsNumbered}
use gs_dbengine.Table.Select.{IsDurable, select-insert, insert-taken_key}
use gs_dbengine.Table.Delete.{select-delete_row}
use gs_dbengine.Row.Serializer.Marks.{FitsColumns}
use gs_dbengine.Tests.Tree.{
  store, btree, shape, btree-Holds, shape-IsTree, three-IsOrdered, six-IsOrdered, no_six,
  three_here, small, small-IsTree, small_three,
}

abbrev schema_with : Bool → TableSchema
schema_with auto_increment = record {
  name = 116 ∷ [];
  columns =
      record {
        name = 97 ∷ [];
        type = ColumnType.int;
        max_length = 0;
        is_nullable = false;
        is_primary_key = true;
        auto_increment = auto_increment;
        has_default = false;
        default_value = null;
      }
      ∷ [];
  root_page = 0;
  primary_key_indices = 0 ∷ [];
  checks = [];
  foreign_keys = [];
  create_sql = [];
}

abbrev schema : TableSchema
schema = schema_with false

-- The same table with a key that it counts.
abbrev counted : TableSchema
counted = schema_with true

abbrev row : ℕ → Row
row n = record { values = int n ∷ [] }

not_counted : is_single_int_auto_increment schema ≡ false
unfolding is_single_int_auto_increment is_auto_increment
not_counted = refl

assigned : (n : ℕ) → assign_key (row n) schema 1 ≡ ok (row n)
unfolding assign_key
assigned n = rw not_counted refl

extracted : (n : ℕ) → extract_primary_key (row n) schema ≡ ok (int n ∷ [])
unfolding extract_primary_key key_values get is_null
extracted n = refl

taken_example :
    (b' : BTree) × (insert (row 3) (plain schema 1 (btree 0))
      ≡ (err duplicate_key, plain schema 1 b'))
    × Holds (store 0) b'
taken_example =
    insert-taken_key (row 3) (row 3) (int 3 ∷ []) (1 ∷ 2 ∷ []) shape (store 0)
      (plain schema 1 (btree 0)) (btree-Holds 0) shape-IsTree (assigned 3) (extracted 3)
      three-IsOrdered three_here

abbrev six_bytes : Bytes
six_bytes = 0 ∷ 6 ∷ 0 ∷ 0 ∷ 0 ∷ []

six_serialized : serialize (row 6) counted ≡ ok six_bytes
unfolding serialize null_bitmap encode_values get_null_bit encode_as bitmap_size le_bytes is_null
    get_bit byte_or_zero
six_serialized = refl

row-Fits : (n : ℕ) → n < 2 ^ 32 → FitsColumns counted.columns (row n).values
row-Fits n word = ((refl, word), tt)

six_space :
    space (route (int 6 ∷ []) 0 shape).1 + length (leaf_cell (entry (int 6 ∷ []) six_bytes))
    ≤ page_size - node_header_size
unfolding key_lt leaf_cell total encode encode_elements encode_value append_u16 append_u32 le_bytes
six_space = omega arith

-- A row whose key is NULL, at the number 6.
abbrev unnumbered : Row
unnumbered = record { values = null ∷ [] }

six-IsNumbered : IsNumbered counted 6 unnumbered (row 6) 7
unfolding is_single_int_auto_increment is_auto_increment
six-IsNumbered = inr ([], null, [], refl, refl, refl, inr (refl, refl, refl))

six_extracted : extract_primary_key (row 6) counted ≡ ok (int 6 ∷ [])
unfolding extract_primary_key key_values get is_null
six_extracted = refl

insert_row_example :
    (b' : BTree) × (insert unnumbered (plain counted 6 (btree 0))
      ≡ (ok (int 6 ∷ []), plain counted 7 b'))
    × IsDurable ((store 0).wal).next_transaction_id (route (int 6 ∷ []) 0 shape).0 (store 0) b'
    × ((t'' : Table) × (select_by_key (int 6 ∷ []) (plain counted 7 b') ≡ (ok (some (row 6)), t'')))
    × ((k : Key)
        → All IsOrdered k
        → key_eq (int 6 ∷ []) k ≡ false
        → (t'' : Table) × (select_by_key k (plain counted 7 b')
            ≡ (row_of (find_entry k (entries shape)) counted, t'')))
insert_row_example =
    select-insert unnumbered (row 6) (int 6 ∷ []) six_bytes counted 6 7 shape (store 0) (btree 0)
      (btree-Holds 0) shape-IsTree six-IsNumbered six_extracted six_serialized
      (row-Fits 6 (omega arith)) six-IsOrdered ((omega arith, (omega arith, tt)), omega arith)
      no_six six_space

-- The left leaf alone, whose row has a NULL.
null_read : deserialize (1 ∷ 2 ∷ []) schema ≡ ok (record { values = null ∷ [] })
unfolding deserialize decode_values get_null_bit bitmap_size get_bit byte_or_zero
null_read = refl

delete_row_example :
    (b' : BTree) × (delete_row (int 3 ∷ []) (plain schema 1 (btree 1)) ≡ (ok tt, plain schema 1 b'))
    × IsDurable ((store 1).wal).next_transaction_id 1 (store 1) b'
    × ((t'' : Table) × (select_by_key (int 3 ∷ []) (plain schema 1 b') ≡ (ok none, t'')))
    × ((k : Key)
        → All IsOrdered k
        → key_eq (int 3 ∷ []) k ≡ false
        → (t'' : Table) × (select_by_key k (plain schema 1 b')
            ≡ (row_of (find_entry k (entries (leaf small))) schema, t'')))
delete_row_example =
    select-delete_row (record { values = null ∷ [] }) (int 3 ∷ []) (1 ∷ 2 ∷ []) schema 1
      (leaf small) (store 1) (btree 1) (btree-Holds 1) small-IsTree three-IsOrdered small_three
      null_read (inl refl)
