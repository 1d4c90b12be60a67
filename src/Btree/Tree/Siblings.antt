-- ===== src/Btree/Tree/Siblings.antt =====
-- src/btree/btree.cpp: `find_siblings`, and what a redistribution and a merge do to the bytes of one
-- node.
use gs_dbengine.Base.{
  ℕ, zero, suc, List, [], ◌∷◌, ◌++◌, map, get_elem?, Option, none, some, Result, ok, err, ◌>>=◌,
  if◌then◌else◌, ◌==◌, sibling_not_found,
}
use gs_dbengine.Storage.Page.{Page, invalid_page}
use gs_dbengine.Btree.Key.{Key, key_eq}
use gs_dbengine.Btree.Node.{
  rightmost_child, set_rightmost_child, next_leaf, set_next_leaf, LeafEntry, InternalEntry,
  get_leaf_entries, set_leaf_entries, get_internal_entries, set_internal_entries,
}
use gs_dbengine.Btree.Tree.Edit.{uncons, unsnoc, internal_key, child_of_entry, erase_key}

pub record SiblingInfo : Type 0 where
  pub left_sibling : ℕ
  pub right_sibling : ℕ
  pub left_key : Key
  pub right_key : Key

-- The first child that is the page, counted from `i`.
unfoldable pub child_index : ℕ → ℕ → List ℕ → Option ℕ
child_index page_id i [] = none
child_index page_id i (c ∷ children) =
    if c == page_id then some i else child_index page_id (suc i) children

-- An element of a vector, and what the record holds where there is none.
unfoldable pub element_or {ℓ} : {A : Type ℓ} → A → Option A → A
element_or a none = a
element_or a (some b) = b

abbrev pub children_of : List InternalEntry → ℕ → List ℕ
children_of entries rightmost = map child_of_entry entries ++ rightmost ∷ []

-- The child at `i`, with its neighbours: the keys are those of the entries on its two sides.
unfoldable pub siblings_at : List InternalEntry → ℕ → Option ℕ → Result SiblingInfo
unfolding element_or
siblings_at entries rightmost none = err sibling_not_found
siblings_at entries rightmost (some zero) = ok record {
  left_sibling = invalid_page;
  left_key = [];
  right_sibling = element_or invalid_page (get_elem? (children_of entries rightmost) 1);
  right_key = element_or [] (get_elem? (map internal_key entries) 0);
}
siblings_at entries rightmost (some (suc i)) = ok record {
  left_sibling = element_or invalid_page (get_elem? (children_of entries rightmost) i);
  left_key = element_or [] (get_elem? (map internal_key entries) i);
  right_sibling = element_or invalid_page (get_elem? (children_of entries rightmost) (suc (suc i)));
  right_key = element_or [] (get_elem? (map internal_key entries) (suc i));
}

unfoldable pub siblings_of : ℕ → List InternalEntry → ℕ → Result SiblingInfo
siblings_of page_id entries rightmost =
    siblings_at entries rightmost (child_index page_id 0 (children_of entries rightmost))

unfoldable pub parent_contents : Page → Result (List InternalEntry × ℕ)
parent_contents page = do entries ← get_internal_entries page; ok (entries, rightmost_child page)

-- The leaf that gives its last entry, or its first one, and the key that its first entry then has.
unfoldable pub give_last : Page → Result (LeafEntry × Page)
give_last page = do
  entries ← get_leaf_entries page
  (borrowed, rest) ← unsnoc entries
  new ← set_leaf_entries rest page
  ok (borrowed, new)

unfoldable pub first_key : LeafEntry → List LeafEntry → Key
first_key borrowed [] = borrowed.key
first_key borrowed (e ∷ _) = e.key

unfoldable pub give_first : Page → Result ((LeafEntry × Key) × Page)
unfolding first_key
give_first page = do
  entries ← get_leaf_entries page
  (borrowed, rest) ← uncons entries
  new ← set_leaf_entries rest page
  ok ((borrowed, first_key borrowed rest), new)

unfoldable pub take_first : LeafEntry → Page → Result Page
take_first borrowed page = do
  entries ← get_leaf_entries page
  set_leaf_entries (borrowed ∷ entries) page

unfoldable pub take_last : LeafEntry → Page → Result Page
take_last borrowed page = do
  entries ← get_leaf_entries page
  set_leaf_entries (entries ++ borrowed ∷ []) page

-- The first separator equal to `old` becomes `new`.
unfoldable pub replace_key : Key → Key → List InternalEntry → List InternalEntry
replace_key old new [] = []
replace_key old new (e ∷ entries) =
    let rest = replace_key old new entries in
    if key_eq e.key old then record e { key = new } ∷ entries else e ∷ rest

unfoldable pub rekey : Key → Key → Page → Result Page
rekey old new page = do
  entries ← get_internal_entries page
  set_internal_entries (replace_key old new entries) page

-- The right leaf appended to the left one, and its link.
unfoldable pub merged_leaf : Page → Page → Result Page
merged_leaf into from = do
  into_entries ← get_leaf_entries into
  from_entries ← get_leaf_entries from
  new ← set_leaf_entries (into_entries ++ from_entries) into
  ok (set_next_leaf (next_leaf from) new)

-- The first entry that holds `merge_from` gets `merge_into`.
unfoldable pub replace_child : ℕ → ℕ → List InternalEntry → List InternalEntry
replace_child merge_from merge_into [] = []
replace_child merge_from merge_into (e ∷ entries) =
    let rest = replace_child merge_from merge_into entries in
    if e.child_page_id == merge_from
    then record e { child_page_id = merge_into } ∷ entries
    else e ∷ rest

unfoldable pub fix_rightmost : ℕ → ℕ → Page → Page
fix_rightmost merge_from merge_into page =
    if rightmost_child page == merge_from then set_rightmost_child merge_into page else page

-- The parent without the separator, and without a pointer to the page that was merged away.
unfoldable pub unlink : ℕ → ℕ → Key → Page → Result Page
unlink merge_from merge_into separator_key page = do
  entries ← get_internal_entries page
  new ←
      set_internal_entries
        (erase_key internal_key separator_key (replace_child merge_from merge_into entries)) page
  ok (fix_rightmost merge_from merge_into new)
