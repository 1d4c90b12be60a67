-- ===== src/Btree/Tree/Packed.antt =====
-- What `add_to_leaf` and `erase_from_leaf` make of a leaf that set_leaf_entries wrote.
use gs_dbengine.Base.{
  ℕ, ◌+◌, ◌-◌, ◌%◌, ◌^◌, ◌<◌, ◌≤◌, ◌≡◌, ap, true, List, [], ◌∷◌, ◌++◌, Bytes, length, length-append,
  All, All-append, ok, ltb, arith, le_bytes,
}
use gs_dbengine.Storage.Page.{Page, IsPage, page_size}
use gs_dbengine.Btree.Key.{Key, encode, append_u32}
use gs_dbengine.Btree.Node.{
  LeafEntry, is_leaf, free_space_ptr_value, get_leaf_entries, set_leaf_entries, leaf_cell,
  find_entry, find_in_leaf, node_header_size, next_leaf,
}
use gs_dbengine.Btree.Node.RoundTrip.{FitsLeaf, get-set_leaf_entries}
use gs_dbengine.Btree.Tree.{leaf_entry_size}
use gs_dbengine.Btree.Tree.Edit.{
  available, inspect_leaf, is_some, add_to_leaf, erase_from_leaf, sort, erase_key, leaf_key,
}
use gs_dbengine.Btree.Tree.Sorted.{
  space, space-sort, space-append, All-sort, All-erase_key, space-erase_key,
}

-- A leaf as set_leaf_entries leaves it: its cells end the page, without a gap.
pub record IsPacked (es : List LeafEntry) (page : Page) : Type 0 where
  pub is_page : IsPage page
  pub leaf_type : is_leaf page ≡ true
  pub fits : All FitsLeaf es
  pub room : space es + node_header_size ≤ page_size
  pub read : get_leaf_entries page ≡ ok es
  pub pointer : free_space_ptr_value page ≡ page_size - space es

abbrev pub entry : Key → Bytes → LeafEntry
entry key value = record { key = key; value = value }

set_leaf_entries-IsPacked :
    (es old : List LeafEntry) (page : Page)
    → IsPacked old page
    → All FitsLeaf es
    → space es + node_header_size ≤ page_size
    → (new : Page) × (set_leaf_entries es page ≡ ok new)
      × IsPacked es new
      × (next_leaf new ≡ next_leaf page)
unfolding is_leaf
set_leaf_entries-IsPacked es old page p fits room =
    let (s, e) = get-set_leaf_entries es page p.is_page fits room in
    (
      s.page,
      s.runs,
      record {
        is_page = s.is_page;
        leaf_type = rw s.type_eq p.leaf_type;
        fits = fits;
        room = room;
        read = e;
        pointer = s.free_space;
      },
      s.next_eq,
    )

available-IsPacked :
    (es : List LeafEntry) (page : Page)
    → IsPacked es page
    → available page ≡ page_size - node_header_size - space es
unfolding available
available-IsPacked es page p = let l = p.room in rw p.pointer (omega arith)

length-leaf_cell :
    (e : LeafEntry) → length (leaf_cell e) ≡ length (encode e.key) + 4 + length e.value
unfolding leaf_cell append_u32 le_bytes
length-leaf_cell e =
    omega (arith, length-append (encode e.key) (append_u32 (length e.value % 2 ^ 32) ++ e.value))

fits_lem : (s n : ℕ) → s ≤ 4079 → ltb (4079 - s) n ≡ ltb 4079 (s + n)
fits_lem s n h = ground arith

leaf_entry_size_lem :
    (key : Key) (value : Bytes)
    → length (leaf_cell (entry key value)) < 2 ^ 32
    → leaf_entry_size key value ≡ length (leaf_cell (entry key value))
unfolding leaf_entry_size
leaf_entry_size_lem key value h = omega (arith, length-leaf_cell (entry key value))

-- The check of `insert` in a packed leaf: an entry overflows the leaf exactly where its cell does
-- not fit the space left.
pub inspect_leaf_lem :
    (key : Key) (value : Bytes) (es : List LeafEntry) (page : Page)
    → IsPacked es page
    → length (leaf_cell (entry key value)) < 2 ^ 32
    → inspect_leaf key value page
      ≡ ok (
        is_some (find_entry key es),
        ltb (page_size - node_header_size) (space es + length (leaf_cell (entry key value))),
      )
unfolding inspect_leaf find_in_leaf
inspect_leaf_lem key value es page p h =
    rw (p.read, available-IsPacked es page p, leaf_entry_size_lem key value h)
      (ap (λ b. ok (is_some (find_entry key es), b))
        (fits_lem (space es) _ (let l = p.room in omega arith)))

pub add_to_leaf-IsPacked :
    (key : Key) (value : Bytes) (es : List LeafEntry) (page : Page)
    → IsPacked es page
    → FitsLeaf (entry key value)
    → space es + length (leaf_cell (entry key value)) ≤ page_size - node_header_size
    → (new : Page) × (add_to_leaf key value page ≡ ok new)
      × IsPacked (sort leaf_key (es ++ entry key value ∷ [])) new
      × (next_leaf new ≡ next_leaf page)
unfolding add_to_leaf
add_to_leaf-IsPacked key value es page p fits room =
    let all : List LeafEntry = es ++ entry key value ∷ [] in
    let (new, r, q, n) =
      set_leaf_entries-IsPacked (sort leaf_key all) es page p
        (All-sort FitsLeaf all (All-append FitsLeaf es _ p.fits (fits, tt)))
        (omega (arith, space-sort all, space-append es (entry key value))) in
    (new, rw p.read r, q, n)

pub erase_from_leaf-IsPacked :
    (key : Key) (es : List LeafEntry) (page : Page)
    → IsPacked es page
    → (new : Page) × (erase_from_leaf key page ≡ ok new)
      × IsPacked (erase_key leaf_key key es) new
      × (next_leaf new ≡ next_leaf page)
unfolding erase_from_leaf
erase_from_leaf-IsPacked key es page p =
    let l = p.room in
    let (new, r, q, n) =
      set_leaf_entries-IsPacked (erase_key leaf_key key es) es page p
        (All-erase_key FitsLeaf key es p.fits) (omega (arith, space-erase_key key es)) in
    (new, rw p.read r, q, n)
