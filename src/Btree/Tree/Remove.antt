-- ===== src/Btree/Tree/Remove.antt =====
-- src/btree/btree.cpp: `remove`, and the repair of nodes that are less than half full.
use gs_dbengine.Base.{ℕ, not, ◌&&◌, List, [], ◌∷◌, reverse, ok, if◌then◌else◌, ◌==◌, key_not_found}
use gs_dbengine.Base.Action.{Action, done, throw, when, ◌>>=◌, ◌>>◌}
use gs_dbengine.Storage.Page.{Page, invalid_page}
use gs_dbengine.Btree.Key.{Key}
use gs_dbengine.Btree.Node.{is_leaf, is_underfull, num_cells, rightmost_child, find_in_leaf}
use gs_dbengine.Btree.Tree.{
  BTree, begin_transaction, commit_transaction, get_root, set_root, read_page, change_page,
  find_leaf_page_with_path, free,
}
use gs_dbengine.Btree.Tree.Edit.{erase_from_leaf, erase_from_internal, new_parent, is_some}
use gs_dbengine.Btree.Tree.Rebalance.{try_redistribute, merge_with_sibling}

unfoldable pub remove_from_leaf : ℕ → ℕ → Key → Action BTree Unit
remove_from_leaf transaction_id leaf_page_id key =
    change_page transaction_id leaf_page_id (erase_from_leaf key)

unfoldable pub remove_from_internal : ℕ → ℕ → Key → Action BTree Unit
remove_from_internal transaction_id internal_page_id key =
    change_page transaction_id internal_page_id (erase_from_internal key)

-- The only child of a root without entries, or INVALID_PAGE.
unfoldable pub only_child : Page → ℕ
only_child page =
    if not (is_leaf page) && num_cells page == 0 then rightmost_child page else invalid_page

unfoldable pub replace_root : ℕ → ℕ → ℕ → Action BTree Unit
replace_root transaction_id page_id child = do
  change_page transaction_id child (new_parent invalid_page)
  set_root child
  free transaction_id page_id

unfoldable pub shrink_root : ℕ → ℕ → Action BTree Unit
shrink_root transaction_id page_id = do
  child ← read_page page_id (λ page. ok (only_child page))
  when (not (child == invalid_page)) (replace_root transaction_id page_id child)

-- `handle_underflow`, with the path from the page upwards.
unfoldable pub repair : ℕ → ℕ → List ℕ → Action BTree Unit
repair transaction_id page_id [] = do
  root ← get_root
  when (page_id == root) (shrink_root transaction_id page_id)
repair transaction_id page_id (parent_page_id ∷ above) = do
  root ← get_root
  if page_id == root then shrink_root transaction_id page_id else (do
    redistributed ← try_redistribute transaction_id page_id parent_page_id
    when (not redistributed) (do
      merge_with_sibling transaction_id page_id parent_page_id
      root ← get_root
      if parent_page_id == root then repair transaction_id parent_page_id above else (do
        parent_underfull ← read_page parent_page_id (λ page. ok (is_underfull page))
        when parent_underfull (repair transaction_id parent_page_id above))))

unfoldable pub handle_underflow : ℕ → ℕ → List ℕ → Action BTree Unit
handle_underflow transaction_id page_id path = repair transaction_id page_id (reverse path)

-- After the entry is gone from the leaf.
unfoldable pub check_leaf : ℕ → ℕ → List ℕ → Action BTree Unit
check_leaf transaction_id leaf_page_id path = do
  root ← get_root
  if leaf_page_id == root then done tt else (do
    underfull ← read_page leaf_page_id (λ page. ok (is_underfull page))
    when underfull (handle_underflow transaction_id leaf_page_id path))

unfoldable pub remove_in : ℕ → Key → Action BTree Unit
remove_in transaction_id key = do
  (leaf_page_id, path) ← find_leaf_page_with_path key
  existing ← read_page leaf_page_id (find_in_leaf key)
  when (not (is_some existing)) (throw key_not_found)
  remove_from_leaf transaction_id leaf_page_id key
  check_leaf transaction_id leaf_page_id path

unfoldable pub remove : Key → Action BTree Unit
remove key = do
  transaction_id ← begin_transaction
  remove_in transaction_id key
  commit_transaction transaction_id
