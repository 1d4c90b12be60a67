-- ===== src/Btree/Tree/Rebalance.antt =====
-- src/btree/btree.cpp: `try_redistribute` and `merge_with_sibling`.
use gs_dbengine.Base.{ℕ, Bool, true, false, not, [], ◌∷◌, ◌++◌, ok, if◌then◌else◌, ◌==◌}
use gs_dbengine.Base.Action.{Action, done, attempt, ◌>>=◌, ◌>>◌}
use gs_dbengine.Storage.Page.{invalid_page}
use gs_dbengine.Btree.Key.{Key}
use gs_dbengine.Btree.Node.{
  is_leaf, is_underfull, rightmost_child, set_rightmost_child, get_internal_entries,
  set_internal_entries,
}
use gs_dbengine.Btree.Tree.{
  BTree, fetch, unpin, contents, assign, write_page_through_wal, read_page, change_page,
  update_page, free,
}
use gs_dbengine.Btree.Tree.Edit.{uncons, unsnoc, new_parent, with_entries}
use gs_dbengine.Btree.Tree.Insert.{adopt}
use gs_dbengine.Btree.Tree.Siblings.{
  SiblingInfo, siblings_of, parent_contents, give_last, give_first, take_first, take_last, rekey,
  merged_leaf, unlink,
}

unfoldable pub find_siblings : ℕ → ℕ → Action BTree SiblingInfo
find_siblings page_id parent_page_id = do
  (entries, rightmost) ← read_page parent_page_id parent_contents
  attempt (siblings_of page_id entries rightmost)

-- The four ways to borrow an entry.
module _ (transaction_id page_id parent_page_id : ℕ) (siblings : SiblingInfo) where
  unfoldable pub borrow_left_leaf : Action BTree Unit
  borrow_left_leaf = do
    borrowed ← update_page transaction_id siblings.left_sibling give_last
    change_page transaction_id page_id (take_first borrowed)
    change_page transaction_id parent_page_id (rekey siblings.left_key borrowed.key)

  unfoldable pub borrow_left_internal : Action BTree Unit
  borrow_left_internal = do
    left_slot ← fetch siblings.left_sibling
    left ← contents left_slot
    left_entries ← attempt (get_internal_entries left)
    slot ← fetch page_id
    page ← contents slot
    entries ← attempt (get_internal_entries page)
    (promoted, rest) ← attempt (unsnoc left_entries)
    new_left ← attempt (set_internal_entries rest (set_rightmost_child promoted.child_page_id left))
    assign left_slot new_left
    page ← contents slot
    new ← attempt (
        set_internal_entries
          (record { key = siblings.left_key; child_page_id = rightmost_child left } ∷ entries) page)
    assign slot new
    unpin siblings.left_sibling true
    unpin page_id true
    write_page_through_wal transaction_id siblings.left_sibling left_slot
    write_page_through_wal transaction_id page_id slot
    change_page transaction_id (rightmost_child left) (new_parent page_id)
    change_page transaction_id parent_page_id (rekey siblings.left_key promoted.key)

  unfoldable pub borrow_right_leaf : Action BTree Unit
  borrow_right_leaf = do
    (borrowed, new_right_first) ← update_page transaction_id siblings.right_sibling give_first
    change_page transaction_id page_id (take_last borrowed)
    change_page transaction_id parent_page_id (rekey siblings.right_key new_right_first)

  unfoldable pub borrow_right_internal : Action BTree Unit
  borrow_right_internal = do
    right_slot ← fetch siblings.right_sibling
    right ← contents right_slot
    right_entries ← attempt (get_internal_entries right)
    (promoted, rest) ← attempt (uncons right_entries)
    slot ← fetch page_id
    page ← contents slot
    entries ← attempt (get_internal_entries page)
    new ← attempt (
        set_internal_entries
          (entries
            ++ record { key = siblings.right_key; child_page_id = rightmost_child page } ∷ [])
          (set_rightmost_child promoted.child_page_id page))
    assign slot new
    right ← contents right_slot
    new_right ← attempt (set_internal_entries rest right)
    assign right_slot new_right
    unpin siblings.right_sibling true
    unpin page_id true
    write_page_through_wal transaction_id siblings.right_sibling right_slot
    write_page_through_wal transaction_id page_id slot
    change_page transaction_id promoted.child_page_id (new_parent page_id)
    change_page transaction_id parent_page_id (rekey siblings.right_key promoted.key)

  -- Whether there is a sibling, and one that can donate.
  unfoldable pub can_donate : ℕ → Action BTree Bool
  can_donate sibling =
      if sibling == invalid_page
      then done false
      else read_page sibling (λ page. ok (not (is_underfull page)))

  unfoldable pub borrow_right : Bool → Action BTree Bool
  borrow_right leaf = do
    donates ← can_donate siblings.right_sibling
    if donates
        then ((if leaf then borrow_right_leaf else borrow_right_internal) >> done true)
        else done false

  unfoldable pub borrow : Bool → Action BTree Bool
  borrow leaf = do
    donates ← can_donate siblings.left_sibling
    if donates
        then ((if leaf then borrow_left_leaf else borrow_left_internal) >> done true)
        else borrow_right leaf

unfoldable pub try_redistribute : ℕ → ℕ → ℕ → Action BTree Bool
try_redistribute transaction_id page_id parent_page_id = do
  siblings ← find_siblings page_id parent_page_id
  leaf ← read_page page_id (λ page. ok (is_leaf page))
  borrow transaction_id page_id parent_page_id siblings leaf

-- The frames of the two pages are in `into_slot` and `from_slot`, both pinned.
unfoldable pub merge_leaves : ℕ → ℕ → Action BTree Unit
merge_leaves into_slot from_slot = do
  into ← contents into_slot
  from ← contents from_slot
  new ← attempt (merged_leaf into from)
  assign into_slot new

unfoldable pub merge_internals : ℕ → ℕ → Key → ℕ → ℕ → Action BTree Unit
merge_internals transaction_id merge_into separator_key into_slot from_slot = do
  into ← contents into_slot
  from ← contents from_slot
  into_entries ← attempt (get_internal_entries into)
  from_entries ← attempt (get_internal_entries from)
  new ← attempt (
      with_entries
        (into_entries
          ++ record { key = separator_key; child_page_id = rightmost_child into } ∷ from_entries)
        (rightmost_child from) into)
  assign into_slot new
  adopt transaction_id merge_into from_entries
  change_page transaction_id (rightmost_child from) (new_parent merge_into)

unfoldable pub merge_pages : ℕ → ℕ → ℕ → ℕ → Key → Action BTree Unit
merge_pages transaction_id parent_page_id merge_into merge_from separator_key = do
  into_slot ← fetch merge_into
  into ← contents into_slot
  from_slot ← fetch merge_from
  if is_leaf into
      then merge_leaves into_slot from_slot
      else merge_internals transaction_id merge_into separator_key into_slot from_slot
  unpin merge_into true
  unpin merge_from false
  write_page_through_wal transaction_id merge_into into_slot
  change_page transaction_id parent_page_id (unlink merge_from merge_into separator_key)
  free transaction_id merge_from

unfoldable pub merge_with_sibling : ℕ → ℕ → ℕ → Action BTree Unit
merge_with_sibling transaction_id page_id parent_page_id = do
  siblings ← find_siblings page_id parent_page_id
  if siblings.left_sibling == invalid_page
      then merge_pages transaction_id parent_page_id page_id siblings.right_sibling
          siblings.right_key
      else merge_pages transaction_id parent_page_id siblings.left_sibling page_id siblings.left_key
