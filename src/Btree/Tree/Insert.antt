-- ===== src/Btree/Tree/Insert.antt =====
-- src/btree/btree.cpp: `insert`, and the splits. The recursion of `split_internal` through
-- `insert_into_parent` is on fuel: it climbs the parent links, of which a path has fewer than the
-- file has pages.
use gs_dbengine.Base.{
  ℕ, zero, suc, ◌/◌, Bool, true, false, List, [], ◌∷◌, Bytes, length, take, drop, ok, if◌then◌else◌,
  ◌==◌, ltb, out_of_fuel, duplicate_key,
}
use gs_dbengine.Base.Action.{Action, done, throw, attempt, when, ◌>>=◌, ◌>>◌}
use gs_dbengine.Storage.Page.{invalid_page}
use gs_dbengine.Btree.Key.{Key}
use gs_dbengine.Btree.Node.{
  internal, init_node, is_full, parent_page, next_leaf, rightmost_child, InternalEntry,
  get_leaf_entries, get_internal_entries,
}
use gs_dbengine.Btree.Tree.{
  BTree, fetch, unpin, contents, assign, allocate, write_page_through_wal, begin_transaction,
  commit_transaction, set_root, read_page, change_page, find_leaf_page, tree_fuel,
  internal_entry_size,
}
use gs_dbengine.Btree.Tree.Edit.{
  available, inspect_leaf, add_to_leaf, new_parent, right_leaf, left_leaf, right_internal,
  with_entries, middle, first, link_child,
}

unfoldable pub insert_into_leaf : ℕ → ℕ → Key → Bytes → Action BTree Unit
insert_into_leaf transaction_id leaf_page_id key value =
    change_page transaction_id leaf_page_id (add_to_leaf key value)

-- A loop that makes `page_id` the parent of each child of some entries.
unfoldable pub adopt : ℕ → ℕ → List InternalEntry → Action BTree Unit
adopt transaction_id page_id [] = done tt
adopt transaction_id page_id (e ∷ entries) = do
  change_page transaction_id e.child_page_id (new_parent page_id)
  adopt transaction_id page_id entries

-- Where the left node was the root: a new root above the two.
unfoldable pub grow_root : ℕ → ℕ → Key → ℕ → Action BTree Unit
grow_root transaction_id left_page_id split_key right_page_id = do
  (new_root_id, slot) ← allocate transaction_id
  page ← attempt (
      with_entries (record { key = split_key; child_page_id = left_page_id } ∷ []) right_page_id
        (init_node internal))
  assign slot page
  unpin new_root_id true
  write_page_through_wal transaction_id new_root_id slot
  change_page transaction_id left_page_id (new_parent new_root_id)
  change_page transaction_id right_page_id (new_parent new_root_id)
  set_root new_root_id

-- `split` is `split_internal`.
unfoldable pub make_room : (ℕ → Action BTree Unit) → ℕ → ℕ → Bool → Action BTree ℕ
make_room split left_page_id parent_page_id false = done parent_page_id
make_room split left_page_id parent_page_id true = do
  split parent_page_id
  read_page left_page_id (λ page. ok (parent_page page))

unfoldable pub insert_into_old_parent :
    (ℕ → Action BTree Unit) → ℕ → ℕ → Key → ℕ → ℕ → Action BTree Unit
insert_into_old_parent split transaction_id left_page_id split_key right_page_id old_parent = do
  would_overflow ←
      read_page old_parent (λ page. ok (ltb (available page) (internal_entry_size split_key)))
  parent_page_id ← make_room split left_page_id old_parent would_overflow
  change_page transaction_id parent_page_id (link_child split_key left_page_id right_page_id)
  change_page transaction_id right_page_id (new_parent parent_page_id)
  parent_full ← read_page parent_page_id (λ page. ok (is_full page))
  when parent_full (split parent_page_id)

unfoldable pub insert_into_parent : (ℕ → Action BTree Unit) → ℕ → ℕ → Key → ℕ → Action BTree Unit
insert_into_parent split transaction_id left_page_id split_key right_page_id = do
  parent_page_id ← read_page left_page_id (λ page. ok (parent_page page))
  if parent_page_id == invalid_page
      then grow_root transaction_id left_page_id split_key right_page_id
      else insert_into_old_parent split transaction_id left_page_id split_key right_page_id
          parent_page_id

unfoldable pub split_internal : ℕ → ℕ → ℕ → Action BTree Unit
split_internal zero transaction_id internal_page_id = throw out_of_fuel
split_internal (suc fuel) transaction_id internal_page_id = do
  left_slot ← fetch internal_page_id
  old ← contents left_slot
  entries ← attempt (get_internal_entries old)
  promoted ← attempt (middle entries)
  let left_entries = take (length entries / 2) entries
  let right_entries = drop (suc (length entries / 2)) entries
  (right_page_id, right_slot) ← allocate transaction_id
  right ← attempt (right_internal right_entries (rightmost_child old) (parent_page old))
  assign right_slot right
  left_page ← contents left_slot
  left ← attempt (with_entries left_entries promoted.child_page_id left_page)
  assign left_slot left
  adopt transaction_id right_page_id right_entries
  change_page transaction_id (rightmost_child old) (new_parent right_page_id)
  unpin internal_page_id true
  unpin right_page_id true
  write_page_through_wal transaction_id internal_page_id left_slot
  write_page_through_wal transaction_id right_page_id right_slot
  insert_into_parent (split_internal fuel transaction_id) transaction_id internal_page_id
      promoted.key right_page_id

unfoldable pub split_leaf : ℕ → ℕ → Action BTree Unit
split_leaf transaction_id leaf_page_id = do
  left_slot ← fetch leaf_page_id
  old ← contents left_slot
  entries ← attempt (get_leaf_entries old)
  let left_entries = take (length entries / 2) entries
  let right_entries = drop (length entries / 2) entries
  (right_page_id, right_slot) ← allocate transaction_id
  right ← attempt (right_leaf right_entries (next_leaf old) (parent_page old))
  assign right_slot right
  left_page ← contents left_slot
  left ← attempt (left_leaf left_entries right_page_id left_page)
  assign left_slot left
  e ← attempt (first right_entries)
  unpin leaf_page_id true
  unpin right_page_id true
  write_page_through_wal transaction_id leaf_page_id left_slot
  write_page_through_wal transaction_id right_page_id right_slot
  (λ t.
      insert_into_parent (split_internal (tree_fuel t) transaction_id) transaction_id leaf_page_id
        e.key right_page_id t)

-- The leaf to insert into, after a split where the entry would not fit.
unfoldable pub leaf_with_room : ℕ → Key → ℕ → Bool → Action BTree ℕ
leaf_with_room transaction_id key leaf_page_id false = done leaf_page_id
leaf_with_room transaction_id key leaf_page_id true = do
  split_leaf transaction_id leaf_page_id
  find_leaf_page key

unfoldable pub insert_in : ℕ → Key → Bytes → Action BTree Unit
insert_in transaction_id key value = do
  leaf_page_id ← find_leaf_page key
  (found, would_overflow) ← read_page leaf_page_id (inspect_leaf key value)
  when found (throw duplicate_key)
  target ← leaf_with_room transaction_id key leaf_page_id would_overflow
  insert_into_leaf transaction_id target key value

unfoldable pub insert : Key → Bytes → Action BTree Unit
insert key value = do
  transaction_id ← begin_transaction
  insert_in transaction_id key value
  commit_transaction transaction_id
