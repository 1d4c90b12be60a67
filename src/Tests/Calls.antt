-- ===== src/Tests/Calls.antt =====
-- The methods of a B+tree on the trees of Tests.Tree.
use gs_dbengine.Base.{
  length, inl, duplicate_key, key_not_found, ◌^◌, ◌<◌, le_bytes, ◌≡◌, refl, ok, err, [], ◌∷◌, arith,
  none,
}
use gs_dbengine.Row.{int}
use gs_dbengine.Btree.Key.{encode, encode_elements, encode_value, append_u16, append_u32}
use gs_dbengine.Btree.Node.{find_entry, leaf_cell}
use gs_dbengine.Btree.Tree.{BTree, search}
use gs_dbengine.Btree.Tree.Store.{Holds}
use gs_dbengine.Btree.Tree.Packed.{entry}
use gs_dbengine.Btree.Tree.Shape.{leaf, entries}
use gs_dbengine.Btree.Tree.Scan.{scan_all, range_scan}
use gs_dbengine.Btree.Tree.Insert.{insert}
use gs_dbengine.Btree.Tree.Remove.{remove}
use gs_dbengine.Btree.Tree.Lookup.{search-find_entry}
use gs_dbengine.Btree.Tree.Transact.{started, LogsChange}
use gs_dbengine.Btree.Tree.Maps.{Updated}
use gs_dbengine.Btree.Tree.Erase.{insert-duplicate_key, remove-key_not_found, remove-Updated}
use gs_dbengine.Btree.Tree.Chain.{scan_all-entries}
use gs_dbengine.Btree.Tree.Range.{select, in_range, range_scan-select}
use gs_dbengine.Tests.Tree.{
  small, store, btree, shape, btree-Holds, shape-IsAt, shape-IsSearchTree, shape-IsTree,
  shape-IsSorted, shape-IsChain, three-IsOrdered, six-IsOrdered, no_six, three_here, small-IsTree,
  small_three,
}

search_example :
    (t' : BTree) × (search (int 6 ∷ []) (btree 0)
      ≡ (ok (find_entry (int 6 ∷ []) (entries shape)), t'))
    × Holds (store 0) t'
search_example =
    search-find_entry (int 6 ∷ []) shape (store 0) (btree 0) (btree-Holds 0) shape-IsAt
      shape-IsSearchTree (omega arith) six-IsOrdered

three_small : length (leaf_cell (entry (int 3 ∷ []) (4 ∷ []))) < 2 ^ 32
unfolding leaf_cell encode encode_elements encode_value append_u16 append_u32 le_bytes
three_small = omega arith

duplicate_example :
    (t' : BTree) × (insert (int 3 ∷ []) (4 ∷ []) (btree 0) ≡ (err duplicate_key, t'))
    × Holds (started (store 0)) t'
duplicate_example =
    insert-duplicate_key (int 3 ∷ []) (4 ∷ []) (1 ∷ 2 ∷ []) shape (store 0) (btree 0)
      (btree-Holds 0) shape-IsTree three-IsOrdered three_small three_here

missing_example :
    (t' : BTree) × (remove (int 6 ∷ []) (btree 0) ≡ (err key_not_found, t'))
    × Holds (started (store 0)) t'
missing_example =
    remove-key_not_found (int 6 ∷ []) shape (store 0) (btree 0) (btree-Holds 0) shape-IsTree
      six-IsOrdered no_six

remove_example :
    (t' : BTree) × (remove (int 3 ∷ []) (btree 1) ≡ (ok tt, t'))
    × (u : Updated (int 3 ∷ []) none (leaf small) t') × LogsChange
        ((store 1).wal).next_transaction_id
        1
        (store 1)
        u.store
remove_example =
    remove-Updated (int 3 ∷ []) (1 ∷ 2 ∷ []) (leaf small) (store 1) (btree 1) (btree-Holds 1)
      small-IsTree three-IsOrdered small_three (inl refl)

scan_all_example :
    (t' : BTree) × (scan_all (btree 0) ≡ (ok (entries shape), t')) × Holds (store 0) t'
scan_all_example =
    scan_all-entries shape (store 0) (btree 0) (btree-Holds 0) shape-IsAt shape-IsChain
      (omega arith) (omega arith)

range_example :
    (t' : BTree) × (range_scan (int 3 ∷ []) (int 6 ∷ []) (btree 0)
      ≡ (ok (select (in_range (int 3 ∷ []) (int 6 ∷ [])) (entries shape)), t'))
    × Holds (store 0) t'
range_example =
    range_scan-select (int 3 ∷ []) (int 6 ∷ []) shape (store 0) (btree 0) (btree-Holds 0) shape-IsAt
      shape-IsSearchTree shape-IsSorted shape-IsChain (omega arith) (omega arith) three-IsOrdered
      six-IsOrdered
