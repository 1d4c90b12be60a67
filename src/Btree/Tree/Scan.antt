-- ===== src/Btree/Tree/Scan.antt =====
-- src/btree/btree.cpp: the scans, which read the leaves along `next_leaf`.
use gs_dbengine.Base.{
  ℕ, zero, suc, Bool, true, false, not, ◌&&◌, List, [], ◌∷◌, ◌++◌, length, take, get_elem?, Option,
  none, some, Result, ok, err, if◌then◌else◌, ◌==◌, ltb, out_of_fuel, buffer_overrun,
}
use gs_dbengine.Base.Action.{Action, done, throw, attempt, ◌>>=◌}
use gs_dbengine.Storage.Page.{Page, invalid_page}
use gs_dbengine.Row.{Value, value_lt, value_eq}
use gs_dbengine.Btree.Key.{Key, key_lt}
use gs_dbengine.Btree.Node.{
  is_leaf, rightmost_child, next_leaf, LeafEntry, InternalEntry, get_leaf_entries,
  get_internal_entries,
}
use gs_dbengine.Btree.Tree.{BTree, read_page, tree_fuel, find_leaf_page}

-- The child that `find_leftmost_leaf` goes on with, or `none` in a leaf.
unfoldable pub first_child : List InternalEntry → ℕ → ℕ
first_child [] rightmost = rightmost
first_child (e ∷ _) rightmost = e.child_page_id

unfoldable pub leftmost_of : Page → Result (List InternalEntry) → Result (Option ℕ)
leftmost_of page (err e) = err e
leftmost_of page (ok entries) = ok (some (first_child entries (rightmost_child page)))

unfoldable pub leftmost_child : Page → Result (Option ℕ)
leftmost_child page = if is_leaf page then ok none else leftmost_of page (get_internal_entries page)

unfoldable pub go_left : (ℕ → Action BTree ℕ) → ℕ → Option ℕ → Action BTree ℕ
go_left go current none = done current
go_left go current (some child) = go child

unfoldable pub descend_left : ℕ → ℕ → Action BTree ℕ
descend_left zero current = throw out_of_fuel
descend_left (suc fuel) current = do
  child ← read_page current leftmost_child
  go_left (descend_left fuel) current child

unfoldable pub find_leftmost_leaf : Action BTree ℕ
find_leftmost_leaf t = descend_left (tree_fuel t) t.root_page t

-- The entries of a leaf, and the next leaf.
unfoldable pub linked : Page → Result (List LeafEntry) → Result (List LeafEntry × ℕ)
linked page (err e) = err e
linked page (ok entries) = ok (entries, next_leaf page)

unfoldable pub leaf_contents : Page → Result (List LeafEntry × ℕ)
leaf_contents page = linked page (get_leaf_entries page)

-- The loop over the leaves. `visit` is the loop over the entries of one: what it adds to the result,
-- and whether it sets `done`.
unfoldable pub walk :
    (List LeafEntry → Result (List LeafEntry × Bool)) → ℕ → ℕ → Action BTree (List LeafEntry)
walk visit zero current = if current == invalid_page then done [] else throw out_of_fuel
walk visit (suc fuel) current = if current == invalid_page then done [] else (do
  (entries, next) ← read_page current leaf_contents
  (taken, stop) ← attempt (visit entries)
  rest ← (if stop then done [] else walk visit fuel next)
  done (taken ++ rest))

unfoldable pub walk_from :
    (List LeafEntry → Result (List LeafEntry × Bool)) → ℕ → Action BTree (List LeafEntry)
walk_from visit current t = walk visit (tree_fuel t) current t

unfoldable pub visit_all : List LeafEntry → Result (List LeafEntry × Bool)
visit_all entries = ok (entries, false)

unfoldable pub scan_all : Action BTree (List LeafEntry)
scan_all = do current ← find_leftmost_leaf; walk_from visit_all current

abbrev pub keep : LeafEntry → List LeafEntry × Bool → List LeafEntry × Bool
keep e (taken, stop) = (e ∷ taken, stop)

unfoldable pub visit_range : Key → Key → List LeafEntry → List LeafEntry × Bool
visit_range start end [] = ([], false)
visit_range start end (e ∷ entries) =
    let later = visit_range start end entries in
    if key_lt e.key start then later else if key_lt end e.key then ([], true) else keep e later

unfoldable pub range_scan : Key → Key → Action BTree (List LeafEntry)
range_scan start end = do
  current ← find_leaf_page start
  walk_from (λ entries. ok (visit_range start end entries)) current

-- The loop of `key_has_prefix`, over the elements of the prefix.
unfoldable pub elements_eq : Key → Key → Bool
elements_eq key [] = true
elements_eq [] (p ∷ prefix) = false
elements_eq (v ∷ key) (p ∷ prefix) = value_eq v p && elements_eq key prefix

unfoldable pub key_has_prefix : Key → Key → Bool
key_has_prefix key prefix =
    if ltb (length key) (length prefix) then false else elements_eq key prefix

unfoldable pub visit_prefix : Key → List LeafEntry → List LeafEntry × Bool
visit_prefix prefix [] = ([], false)
visit_prefix prefix (e ∷ entries) =
    let later = visit_prefix prefix entries in
    if key_lt e.key prefix
    then later
    else if not (key_has_prefix e.key prefix)
    then ([], true)
    else keep e later

unfoldable pub prefix_scan : Key → Action BTree (List LeafEntry)
prefix_scan prefix = do
  current ← find_leaf_page prefix
  walk_from (λ entries. ok (visit_prefix prefix entries)) current

-- Whether a value is left out as too low, and whether it ends the scan as too high.
unfoldable pub too_low : Option Value → Bool → Value → Bool
too_low none inclusive v = false
too_low (some lo) inclusive v = if value_lt v lo then true else not inclusive && value_eq v lo

unfoldable pub too_high : Option Value → Bool → Value → Bool
too_high none inclusive v = false
too_high (some hi) inclusive v = if value_lt hi v then true else not inclusive && value_eq v hi

module _ (prefix : Key) (lo : Option Value) (lo_inclusive : Bool) (hi : Option Value)
    (hi_inclusive : Bool) where
  -- `e.key[prefix.size()]` of a key that ends with the prefix is outside the vector.
  unfoldable pub visit_value :
      Option Value → LeafEntry → Result (List LeafEntry × Bool) → Result (List LeafEntry × Bool)
  visit_value none e later = err buffer_overrun
  visit_value (some v) e later =
      if too_low lo lo_inclusive v
      then later
      else if too_high hi hi_inclusive v
      then ok ([], true)
      else kept later
    where
      kept : Result (List LeafEntry × Bool) → Result (List LeafEntry × Bool)
      kept (err x) = err x
      kept (ok r) = ok (keep e r)

  unfoldable pub visit_bounded : List LeafEntry → Result (List LeafEntry × Bool)
  visit_bounded [] = ok ([], false)
  visit_bounded (e ∷ entries) =
      let later = visit_bounded entries in
      if not (key_has_prefix e.key prefix)
      then (if key_lt (take (length prefix) e.key) prefix then later else ok ([], true))
      else visit_value (get_elem? e.key (length prefix)) e later

-- Where `bounded_scan` begins.
unfoldable pub bounded_start : Key → Option Value → Action BTree ℕ
bounded_start prefix (some lo) = find_leaf_page (prefix ++ lo ∷ [])
bounded_start [] none = find_leftmost_leaf
bounded_start (p ∷ prefix) none = find_leaf_page (p ∷ prefix)

unfoldable pub bounded_scan :
    Key → Option Value → Bool → Option Value → Bool → Action BTree (List LeafEntry)
bounded_scan prefix none lo_inclusive none hi_inclusive = prefix_scan prefix
bounded_scan prefix lo lo_inclusive hi hi_inclusive = do
  current ← bounded_start prefix lo
  walk_from (visit_bounded prefix lo lo_inclusive hi hi_inclusive) current
