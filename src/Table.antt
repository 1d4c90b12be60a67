-- ===== src/Table.antt =====
-- src/table/table.h and table.cpp: rows over the tree of a table and the indexes of the table. The
-- trees share one pool, log and free list: those stand in `btree`, and a call of an index takes them
-- from there and puts them back.

pub mod Rows
pub mod Update
pub mod Batch
pub mod Numbering
pub mod Select
pub mod Delete
use gs_dbengine.Base.{
  ℕ, suc, ◌+◌, ◌%◌, ◌^◌, Bool, true, false, not, ◌&&◌, List, [], ◌∷◌, Bytes, Option, none, some,
  Result, ok, err, if◌then◌else◌, ◌==◌, ltb, leb, length, get_elem?, ◌>>=◌, map, duplicate_key,
  column_out_of_range, null_primary_key, wrong_alternative, foreign_index, unknown_index_column,
}
use gs_dbengine.Base.Action
use gs_dbengine.Base.Action.{Action, done, throw, attempt, when, continue}
use gs_dbengine.Row.{Value, int, is_null, Row, get}
use gs_dbengine.Row.Serializer.{serialize, deserialize}
use gs_dbengine.Header.{HeaderManager}
use gs_dbengine.Catalog.Schema.{ColumnType, Column, TableSchema, text_eq, column_index}
use gs_dbengine.Btree.Key.{Key}
use gs_dbengine.Btree.Node.{LeafEntry}
use gs_dbengine.Btree.Tree.{BTree, search, begin_transaction, commit_transaction}
use gs_dbengine.Btree.Tree.Scan.{scan_all}
use gs_dbengine.Btree.Tree.Insert
use gs_dbengine.Btree.Tree.Remove
use gs_dbengine.Index.{Index, check_unique, insert_entry_in, remove_entry_in}

pub record IndexBinding : Type 0 where
  pub bound : Index
  pub column_indices : List ℕ

pub record Table : Type 0 where
  pub schema : TableSchema
  pub btree : BTree
  pub next_auto_increment : ℕ
  pub indexes : List IndexBinding

pub record ScanResult : Type 0 where
  pub primary_key : Key
  pub row : Row

-- A std::function, which may throw.
abbrev pub Predicate : Type 0
Predicate = Row → Result Bool

abbrev with_btree : {A : Type 0} → Table → Result A × BTree → Result A × Table
with_btree t (r, b) = (r, record t { btree = b })

unfoldable pub on_btree : {A : Type 0} → Action BTree A → Action Table A
on_btree m t = with_btree t (m t.btree)

unfoldable pub is_auto_increment : Option Column → Bool
is_auto_increment none = false
is_auto_increment (some c) = is_int c.type && c.auto_increment
  where
    is_int : ColumnType → Bool
    is_int ColumnType.int = true
    is_int _ = false

unfoldable pub is_single_int_auto_increment : TableSchema → Bool
unfolding is_auto_increment
is_single_int_auto_increment schema = sole schema.primary_key_indices
  where
    sole : List ℕ → Bool
    sole (i ∷ []) = is_auto_increment (get_elem? schema.columns i)
    sole _ = false

unfoldable pub root_page : Table → ℕ
root_page t = (t.btree).root_page

unfoldable pub index_root_pages : Table → List (Bytes × ℕ)
index_root_pages t =
    map (λ (b : IndexBinding). (((b.bound).schema).name, ((b.bound).btree).root_page)) t.indexes

-- The columns of an index, in the table.
unfoldable pub resolve_columns : List Bytes → TableSchema → Result (List ℕ)
resolve_columns [] schema = ok []
resolve_columns (col_name ∷ names) schema = do
  i ← known (column_index col_name schema)
  rest ← resolve_columns names schema
  ok (i ∷ rest)
  where
    known : Option ℕ → Result ℕ
    known none = err unknown_index_column
    known (some i) = ok i

unfoldable pub bind_indexes : List Index → TableSchema → Result (List IndexBinding)
bind_indexes [] schema = ok []
bind_indexes (idx ∷ indexes) schema =
    if not (text_eq (idx.schema).table_name schema.name) then err foreign_index else (do
      columns ← resolve_columns (idx.schema).column_names schema
      rest ← bind_indexes indexes schema
      ok (record { bound = idx; column_indices = columns } ∷ rest))

-- `get_int(key.at(0))`
unfoldable pub first_int : Key → Result ℕ
first_int (int n ∷ key) = ok n
first_int [] = err column_out_of_range
first_int (v ∷ key) = err wrong_alternative

unfoldable pub last_int : List LeafEntry → Result ℕ
unfolding first_int
last_int [] = ok 0
last_int (e ∷ []) = first_int e.key
last_int (e ∷ f ∷ all) = last_int (f ∷ all)

unfoldable pub after_last : List LeafEntry → Result ℕ
after_last [] = ok 1
after_last (e ∷ all) = last_int (e ∷ all) >>= λ max_key. ok ((max_key + 1) % 2 ^ 32)

unfoldable pub init_auto_increment : Action Table Unit
init_auto_increment t =
    if not (is_single_int_auto_increment t.schema)
    then (ok tt, t)
    else continue (on_btree scan_all t) (λ all t'. started (after_last all) t')
  where
    started : Result ℕ → Action Table Unit
    started (err e) t' = (err e, t')
    started (ok n) t' = (ok tt, record t' { next_auto_increment = n })

abbrev constructed : Result (Unit {0}) × Table → Result Table × HeaderManager
constructed (err e, t) = (err e, (t.btree).manager)
constructed (ok tt, t) = (ok t, (t.btree).manager)

-- The constructor, over the objects that the table and its indexes refer to.
unfoldable pub open_table : TableSchema → List Index → HeaderManager → Result Table × HeaderManager
open_table schema indexes manager = opened (bind_indexes indexes schema)
  where
    opened : Result (List IndexBinding) → Result Table × HeaderManager
    opened (err e) = (err e, manager)
    opened (ok bindings) = constructed (
        init_auto_increment (record {
          schema = schema;
          btree = record { manager = manager; root_page = schema.root_page };
          next_auto_increment = 1;
          indexes = bindings;
        }))

unfoldable pub extract_values : List ℕ → Row → Result Key
extract_values [] row = ok []
extract_values (col_idx ∷ columns) row = do
  v ← get row col_idx
  rest ← extract_values columns row
  ok (v ∷ rest)

unfoldable pub extract_indexed_value : Row → IndexBinding → Result Key
extract_indexed_value row binding = extract_values binding.column_indices row

unfoldable pub key_values : List ℕ → Row → Result Key
key_values [] row = ok []
key_values (col_idx ∷ columns) row = do
  v ← get row col_idx
  not_null ← if is_null v then err null_primary_key else ok v
  rest ← key_values columns row
  ok (not_null ∷ rest)

unfoldable pub extract_primary_key : Row → TableSchema → Result Key
extract_primary_key row schema = key_values schema.primary_key_indices row
