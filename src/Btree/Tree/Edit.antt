-- ===== src/Btree/Tree/Edit.antt =====
-- src/btree/btree.cpp: what the methods that change the tree do to the bytes of one node.
use gs_dbengine.Base.{
  ℕ, zero, suc, ◌+◌, ◌-◌, ◌%◌, ◌^◌, ◌/◌, Bool, true, false, List, [], ◌∷◌, ◌++◌, Bytes, length,
  drop, Option, none, some, Result, ok, err, ◌>>=◌, if◌then◌else◌, ltb, buffer_overrun,
}
use gs_dbengine.Storage.Page.{Page, page_size}
use gs_dbengine.Btree.Key.{Key, key_lt, key_eq}
use gs_dbengine.Btree.Node.{
  leaf, internal, node_header_size, init_node, free_space_ptr_value, set_parent_page, set_next_leaf,
  set_rightmost_child, LeafEntry, InternalEntry, get_leaf_entries, set_leaf_entries,
  get_internal_entries, set_internal_entries, find_in_leaf,
}
use gs_dbengine.Btree.Tree.{leaf_entry_size}

-- `std::sort` by the keys.
module _ {A : Type 0} (key_of : A → Key) where
  unfoldable pub place : A → List A → List A
  place a [] = a ∷ []
  place a (b ∷ entries) =
      let rest = place a entries in
      if key_lt (key_of b) (key_of a) then b ∷ rest else a ∷ b ∷ entries

  unfoldable pub sort : List A → List A
  sort [] = []
  sort (a ∷ entries) = place a (sort entries)

  -- `std::remove_if` of the entries with a key, and `erase`
  unfoldable pub erase_key : Key → List A → List A
  erase_key key [] = []
  erase_key key (a ∷ entries) =
      let rest = erase_key key entries in if key_eq (key_of a) key then rest else a ∷ rest

  -- the position of the first entry with a key, or the end
  unfoldable pub find_key : Key → List A → ℕ
  find_key key [] = 0
  find_key key (a ∷ entries) =
      let rest = find_key key entries in if key_eq (key_of a) key then 0 else suc rest

abbrev pub leaf_key : LeafEntry → Key
leaf_key e = e.key

abbrev pub internal_key : InternalEntry → Key
internal_key e = e.key

abbrev pub child_of_entry : InternalEntry → ℕ
child_of_entry e = e.child_page_id

-- `front()` and `back()`, outside the vector where it is empty
module _ {A : Type 0} where
  unfoldable pub first : List A → Result A
  first [] = err buffer_overrun
  first (a ∷ rest) = ok a

  -- with what `pop_back` leaves
  unfoldable pub unsnoc : List A → Result (A × List A)
  unsnoc [] = err buffer_overrun
  unsnoc (a ∷ []) = ok (a, [])
  unsnoc (a ∷ b ∷ rest) = do (last, front) ← unsnoc (b ∷ rest); ok (last, a ∷ front)

  unfoldable pub uncons : List A → Result (A × List A)
  uncons [] = err buffer_overrun
  uncons (a ∷ rest) = ok (a, rest)

-- `available` in `insert` and in `insert_into_parent`; the differences wrap.
unfoldable pub available : Page → ℕ
available page =
    (page_size
      - node_header_size
      + 2 ^ 32
      - (page_size + 2 ^ 32 - free_space_ptr_value page) % 2 ^ 32)
    % 2 ^ 32

-- What `insert` reads in the leaf: whether the key is there, and whether the entry would not fit.
unfoldable pub is_some : Option Bytes → Bool
is_some none = false
is_some (some _) = true

unfoldable pub inspect_leaf : Key → Bytes → Page → Result (Bool × Bool)
unfolding is_some
inspect_leaf key value page = do
  existing ← find_in_leaf key page
  ok (is_some existing, ltb (available page) (leaf_entry_size key value))

unfoldable pub add_to_leaf : Key → Bytes → Page → Result Page
add_to_leaf key value page = do
  entries ← get_leaf_entries page
  set_leaf_entries (sort leaf_key (entries ++ record { key = key; value = value } ∷ [])) page

unfoldable pub erase_from_leaf : Key → Page → Result Page
erase_from_leaf key page = do
  entries ← get_leaf_entries page
  set_leaf_entries (erase_key leaf_key key entries) page

unfoldable pub erase_from_internal : Key → Page → Result Page
erase_from_internal key page = do
  entries ← get_internal_entries page
  set_internal_entries (erase_key internal_key key entries) page

unfoldable pub new_parent : ℕ → Page → Result Page
new_parent page_id page = ok (set_parent_page page_id page)

-- The right half of a leaf, from the fields that the left one had.
unfoldable pub right_leaf : List LeafEntry → ℕ → ℕ → Result Page
right_leaf right_entries old_next_leaf old_parent = do
  page ← set_leaf_entries right_entries (init_node leaf)
  ok (set_parent_page old_parent (set_next_leaf old_next_leaf page))

unfoldable pub left_leaf : List LeafEntry → ℕ → Page → Result Page
left_leaf left_entries right_page_id page = do
  new ← set_leaf_entries left_entries page
  ok (set_next_leaf right_page_id new)

unfoldable pub right_internal : List InternalEntry → ℕ → ℕ → Result Page
right_internal right_entries old_rightmost old_parent = do
  page ← set_internal_entries right_entries (init_node internal)
  ok (set_parent_page old_parent (set_rightmost_child old_rightmost page))

-- Also what a merge and a redistribution leave in an internal node.
unfoldable pub with_entries : List InternalEntry → ℕ → Page → Result Page
with_entries entries rightmost page = do
  new ← set_internal_entries entries page
  ok (set_rightmost_child rightmost new)

-- `entries[mid]`, which is outside the vector where it is empty
unfoldable pub middle : List InternalEntry → Result InternalEntry
middle entries = first (drop (length entries / 2) entries)

unfoldable pub set_child : List InternalEntry → ℕ → ℕ → List InternalEntry
set_child [] i child = []
set_child (e ∷ entries) zero child = record e { child_page_id = child } ∷ entries
set_child (e ∷ entries) (suc i) child = e ∷ set_child entries i child

-- How `insert_into_parent` links the new right child: the child after the new entry is `right`.
unfoldable pub link_child : Key → ℕ → ℕ → Page → Result Page
link_child split_key left_page_id right_page_id page = do
  entries ← get_internal_entries page
  let sorted =
      sort internal_key (entries ++ record { key = split_key; child_page_id = left_page_id } ∷ [])
  let next = suc (find_key internal_key split_key sorted)
  if ltb next (length sorted)
      then set_internal_entries (set_child sorted next right_page_id) page
      else set_internal_entries sorted (set_rightmost_child right_page_id page)
