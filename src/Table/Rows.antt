-- ===== src/Table/Rows.antt =====
-- src/table/table.cpp: the trees of a table together, and the insert of a row.
use gs_dbengine.Base.{
  ℕ, suc, ◌+◌, ◌%◌, ◌^◌, Bool, true, false, not, List, [], ◌∷◌, Bytes, Option, none, some, Result,
  ok, err, if◌then◌else◌, ltb, leb, length, duplicate_key, column_out_of_range,
}
use gs_dbengine.Base
use gs_dbengine.Base.Action.{Action, done, throw, attempt, when, ◌>>=◌, ◌>>◌}
use gs_dbengine.Row.{Value, int, is_null, Row, get}
use gs_dbengine.Row.Serializer.{serialize}
use gs_dbengine.Catalog.Schema.{TableSchema}
use gs_dbengine.Btree.Key.{Key}
use gs_dbengine.Btree.Tree.{BTree, search, begin_transaction, commit_transaction}
use gs_dbengine.Btree.Tree.Insert
use gs_dbengine.Btree.Tree.Remove
use gs_dbengine.Index.{Index, check_unique, insert_entry_in, remove_entry_in}
use gs_dbengine.Table.{
  Table, IndexBinding, on_btree, is_single_int_auto_increment, first_int, extract_indexed_value,
  extract_primary_key,
}

-- An index over the shared objects as they are by now.
abbrev shared : BTree → Index → Index
shared t i = record i { btree = record i.btree { manager = t.manager } }

abbrev returned :
    BTree → IndexBinding → Result (Unit {0}) × Index → Result (Unit {0}) × BTree × IndexBinding
returned t binding (r, i) =
    (r, record t { manager = (i.btree).manager }, record binding { bound = i })

-- A call of one index.
unfoldable pub on_index :
    Action Index Unit → BTree → IndexBinding → Result (Unit {0}) × BTree × IndexBinding
on_index m t binding = returned t binding (m (shared t binding.bound))

abbrev before :
    IndexBinding
    → Result (Unit {0}) × BTree × List IndexBinding
    → Result (Unit {0}) × BTree × List IndexBinding
before binding (r, t, bindings) = (r, t, binding ∷ bindings)

unfoldable pub then_others :
    List IndexBinding
    → (BTree → Result (Unit {0}) × BTree × List IndexBinding)
    → Result (Unit {0}) × BTree × IndexBinding
    → Result (Unit {0}) × BTree × List IndexBinding
then_others bindings others (err e, t, binding) = (err e, t, binding ∷ bindings)
then_others bindings others (ok tt, t, binding) = before binding (others t)

-- The loop over `indexes_`, up to the first that throws.
unfoldable pub each_index :
    (IndexBinding → Action Index Unit)
    → List IndexBinding
    → BTree
    → Result (Unit {0}) × BTree × List IndexBinding
unfolding then_others on_index
each_index body [] t = (ok tt, t, [])
each_index body (binding ∷ bindings) t =
    then_others bindings (each_index body bindings) (on_index (body binding) t binding)

abbrev with_indexes :
    Table → Result (Unit {0}) × BTree × List IndexBinding → Result (Unit {0}) × Table
with_indexes t (r, b, bindings) = (r, record t { btree = b; indexes = bindings })

unfoldable pub on_indexes : (IndexBinding → Action Index Unit) → Action Table Unit
on_indexes body t = with_indexes t (each_index body t.indexes t.btree)

unfoldable pub check_all_unique_constraints : Row → Key → Action Table Unit
check_all_unique_constraints row primary_key = on_indexes check
  where
    check : IndexBinding → Action Index Unit
    check binding = do
      indexed_value ← attempt (extract_indexed_value row binding)
      check_unique indexed_value primary_key

unfoldable pub write_row_and_indexes : ℕ → Key → Row → Bytes → Action Table Unit
write_row_and_indexes transaction_id primary_key row bytes = do
  on_btree (Insert.insert_in transaction_id primary_key bytes)
  on_indexes add
  where
    add : IndexBinding → Action Index Unit
    add binding = do
      indexed_value ← attempt (extract_indexed_value row binding)
      insert_entry_in transaction_id indexed_value primary_key

unfoldable pub remove_row_and_indexes : ℕ → Key → Row → Action Table Unit
remove_row_and_indexes transaction_id primary_key old_row = do
  on_btree (Remove.remove_in transaction_id primary_key)
  on_indexes erase
  where
    erase : IndexBinding → Action Index Unit
    erase binding = do
      indexed_value ← attempt (extract_indexed_value old_row binding)
      remove_entry_in transaction_id indexed_value primary_key

-- `row.get(i) = v`
unfoldable pub set : ℕ → Value → Row → Result Row
set col_idx v row =
    if ltb col_idx (length row.values)
    then ok (record { values = Base.set row.values col_idx v })
    else err column_out_of_range

-- The next key in place of a NULL, where the table counts its keys.
unfoldable pub assign_key : Row → TableSchema → ℕ → Result Row
assign_key row schema next =
    if not (is_single_int_auto_increment schema) then ok row else at_key schema.primary_key_indices
  where
    fill : ℕ → Result Value → Result Row
    fill i (err e) = err e
    fill i (ok pk_val) = if is_null pk_val then set i (int next) row else ok row

    at_key : List ℕ → Result Row
    at_key [] = ok row
    at_key (i ∷ is) = fill i (get row i)

-- The counter moves past a key that is written.
unfoldable pub advance_past : Key → Action Table Unit
advance_past key t =
    if is_single_int_auto_increment t.schema then past (first_int key) else (ok tt, t)
  where
    past : Result ℕ → Result (Unit {0}) × Table
    past (err e) = (err e, t)
    past (ok key_val) =
        if leb t.next_auto_increment key_val
        then (ok tt, record t { next_auto_increment = (key_val + 1) % 2 ^ 32 })
        else (ok tt, t)

unfoldable pub is_found : {A : Type 0} → Option A → Bool
is_found none = false
is_found (some a) = true

unfoldable pub insert_row : Row → Key → Action Table Key
insert_row row primary_key t = steps t
  where
    steps : Action Table Key
    steps = do
      existing ← on_btree (search primary_key)
      when (is_found existing) (throw duplicate_key)
      check_all_unique_constraints row primary_key
      bytes ← attempt (serialize row t.schema)
      transaction_id ← on_btree begin_transaction
      write_row_and_indexes transaction_id primary_key row bytes
      on_btree (commit_transaction transaction_id)
      advance_past primary_key
      done primary_key

unfoldable pub insert : Row → Action Table Key
insert row t = steps t
  where
    steps : Action Table Key
    steps = do
      assigned ← attempt (assign_key row t.schema t.next_auto_increment)
      primary_key ← attempt (extract_primary_key assigned t.schema)
      insert_row assigned primary_key
