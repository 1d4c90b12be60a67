-- ===== src/Table/Update.antt =====
-- src/table/table.cpp: the methods that read rows, and those that change or delete the rows of a table.
use gs_dbengine.Base.{
  ℕ, ◌%◌, ◌^◌, Bool, true, false, not, ◌&&◌, List, [], ◌∷◌, Bytes, length, Option, none, some,
  Result, ok, err, if◌then◌else◌, leb, key_not_found, column_out_of_range, primary_key_collision,
}
use gs_dbengine.Base.Action.{Action, done, throw, attempt, when, continue, ◌>>=◌, ◌>>◌}
use gs_dbengine.Row.{Value, Row}
use gs_dbengine.Row.Serializer.{serialize, deserialize}
use gs_dbengine.Catalog.Schema.{TableSchema}
use gs_dbengine.Btree.Key.{Key, key_eq}
use gs_dbengine.Btree.Node.{LeafEntry}
use gs_dbengine.Btree.Tree.{search, begin_transaction, commit_transaction}
use gs_dbengine.Btree.Tree.Scan.{scan_all}
use gs_dbengine.Table.{Table, ScanResult, Predicate, on_btree, extract_primary_key}
use gs_dbengine.Table.Rows.{
  check_all_unique_constraints, write_row_and_indexes, remove_row_and_indexes, set, advance_past,
  is_found,
}

unfoldable pub row_of : Option Bytes → TableSchema → Result (Option Row)
row_of none schema = ok none
row_of (some bytes) schema = returned (deserialize bytes schema)
  where
    returned : Result Row → Result (Option Row)
    returned (err e) = err e
    returned (ok row) = ok (some row)

unfoldable pub select_by_key : Key → Action Table (Option Row)
select_by_key key t = continue (on_btree (search key) t) (λ bytes. attempt (row_of bytes t.schema))

-- The rows of the entries that the predicate takes.
unfoldable pub matching : Predicate → TableSchema → List LeafEntry → Result (List ScanResult)
matching predicate schema [] = ok []
matching predicate schema (e ∷ all) =
    decoded (deserialize e.value schema) (matching predicate schema all)
  where
    joined : Row → Bool → Result (List ScanResult) → Result (List ScanResult)
    joined row takes (err thrown) = err thrown
    joined row takes (ok results) =
        ok (if takes then record { primary_key = e.key; row = row } ∷ results else results)

    judged : Row → Result Bool → Result (List ScanResult) → Result (List ScanResult)
    judged row (err thrown) rest = err thrown
    judged row (ok takes) rest = joined row takes rest

    decoded : Result Row → Result (List ScanResult) → Result (List ScanResult)
    decoded (err thrown) rest = err thrown
    decoded (ok row) rest = judged row (predicate row) rest

unfoldable pub scan : Predicate → Action Table (List ScanResult)
scan predicate t = continue (on_btree scan_all t) (λ all. attempt (matching predicate t.schema all))

abbrev pub Changes : Type 0
Changes = List (ℕ × Value)

-- `update` tests the columns of the schema first; `update_matched` leaves that to `Row::get`.
unfoldable pub apply_values : Bool → Changes → TableSchema → Row → Result Row
apply_values tests [] schema row = ok row
apply_values tests ((col_idx, new_val) ∷ changes) schema row =
    if tests && leb (length schema.columns) col_idx
    then err column_out_of_range
    else changed (set col_idx new_val row) (apply_values tests changes schema)
  where
    changed : Result Row → (Row → Result Row) → Result Row
    changed (err e) others = err e
    changed (ok new_row) others = others new_row

-- One transaction: the row leaves every tree and comes back with its new values.
unfoldable pub replace_row : Key → Row → Key → Row → Bytes → Action Table Unit
replace_row old_key old_row new_key new_row new_bytes = do
  transaction_id ← on_btree begin_transaction
  remove_row_and_indexes transaction_id old_key old_row
  write_row_and_indexes transaction_id new_key new_row new_bytes
  on_btree (commit_transaction transaction_id)

-- The search of a key that the update moves a row to.
unfoldable pub check_new_key : Bool → Key → Action Table Unit
check_new_key false new_key = done tt
check_new_key true new_key = do
  existing ← on_btree (search new_key)
  when (is_found existing) (throw primary_key_collision)

unfoldable pub fetch_row : Key → Action Table Row
fetch_row primary_key t = continue (select_by_key primary_key t) present
  where
    present : Option Row → Action Table Row
    present none = throw key_not_found
    present (some row) = done row

unfoldable pub update : Key → Changes → Action Table Unit
update primary_key new_values t = steps t
  where
    steps : Action Table Unit
    steps = do
      old_row ← fetch_row primary_key
      new_row ← attempt (apply_values true new_values t.schema old_row)
      new_primary_key ← attempt (extract_primary_key new_row t.schema)
      let pk_changed = not (key_eq new_primary_key primary_key)
      check_new_key pk_changed new_primary_key
      check_all_unique_constraints new_row primary_key
      new_bytes ← attempt (serialize new_row t.schema)
      replace_row primary_key old_row new_primary_key new_row new_bytes
      when pk_changed (advance_past new_primary_key)

-- The deletion of a row with the values that the indexes hold, in a transaction.
unfoldable pub remove_row : Key → Row → Action Table Unit
remove_row primary_key old_row = do
  transaction_id ← on_btree begin_transaction
  remove_row_and_indexes transaction_id primary_key old_row
  on_btree (commit_transaction transaction_id)

unfoldable pub delete_row : Key → Action Table Unit
delete_row primary_key = do old_row ← fetch_row primary_key; remove_row primary_key old_row

unfoldable pub remove_rows : List ScanResult → Action Table Unit
remove_rows [] = done tt
remove_rows (r ∷ rows) = do remove_row r.primary_key r.row; remove_rows rows

unfoldable pub delete_where : Predicate → Action Table ℕ
delete_where predicate = do
  to_delete ← scan predicate
  remove_rows to_delete
  done (length to_delete % 2 ^ 32)
