-- ===== src/Tests/Tree.antt =====
-- A tree of three pages: a root and two linked leaves.
use gs_dbengine.Base.{
  ℕ, ◌==◌, ap, ◌+◌, ◌^◌, ◌<◌, ◌≤◌, le_bytes, ◌≡◌, ◌∙◌, refl, ok, List, [], ◌∷◌, All, arith, false,
  some, none,
}
use gs_dbengine.Base.Assoc.{find}
use gs_dbengine.Storage.Page.{Page, IsPage, page_size, invalid_page}
use gs_dbengine.Storage.Pool.{Pool, open_pool}
use gs_dbengine.Storage.Pool.Valid.{view}
use gs_dbengine.Row.{int}
use gs_dbengine.Wal.{open_wal, apply_pages}
use gs_dbengine.Wal.Apply.{or_else, AppliedAll, apply_pages-AppliedAll}
use gs_dbengine.Wal.Crash.{open_pool-IsIdle}
use gs_dbengine.Header.{new_header}
use gs_dbengine.Btree.Key.{
  FitsKey, key_lt, key_eq, encode, encode_elements, encode_value, append_u16, append_u32,
}
use gs_dbengine.Btree.Node.{
  NodeType, LeafEntry, InternalEntry, init_node, node_type_code, next_leaf, find_entry, is_leaf,
  rightmost_child, get_internal_entries, node_header_size, set_next_leaf, set_rightmost_child,
  leaf_cell, internal_cell,
}
use gs_dbengine.Btree.Node.Cells.{total}
use gs_dbengine.Btree.Node.RoundTrip.{
  FitsLeaf, InternalRoom, get-set_leaf_entries, get-set_internal_entries,
}
use gs_dbengine.Btree.Tree.{BTree}
use gs_dbengine.Btree.Tree.Store.{Store, Holds}
use gs_dbengine.Btree.Tree.Packed.{IsPacked}
use gs_dbengine.Btree.Tree.Sorted.{space}
use gs_dbengine.Btree.Node.Fresh.{IsFresh-leaf, IsFresh-internal}
use gs_dbengine.Btree.Tree.Shape.{tree, Tree, leaf, node, last, more, entries, IsAt, IsSearchTree}
use gs_dbengine.Row.Order.{IsOrdered}
use gs_dbengine.Btree.Tree.Maps.{IsTree}
use gs_dbengine.Btree.Tree.Chain.{leaves, IsChain}
use gs_dbengine.Btree.Tree.Range.{IsSorted}
use gs_dbengine.Tests.{three_pages, three_pages-IsDisk}

abbrev pub small : List LeafEntry
small = record { key = int 3 ∷ []; value = 1 ∷ 2 ∷ [] } ∷ []

abbrev large : List LeafEntry
large = record { key = int 5 ∷ []; value = [] } ∷ record { key = int 7 ∷ []; value = 9 ∷ [] } ∷ []

key-Fits : FitsKey (int 3 ∷ [])
key-Fits = (omega arith, (omega arith, tt))

-- A leaf with its entries and its link.
packed :
    (es : List LeafEntry) (next : ℕ)
    → next < 2 ^ 32
    → All FitsLeaf es
    → space es + node_header_size ≤ page_size
    → (page : Page) × IsPacked es page × (next_leaf page ≡ next)
packed es next small_next fits room =
    let (f, link) = IsFresh-leaf next small_next in
    let (s, e) =
      get-set_leaf_entries es (set_next_leaf next (init_node NodeType.leaf)) f.is_page fits room in
    (
      s.page,
      record {
        is_page = s.is_page;
        leaf_type = unfold is_leaf node_type_code in rw (s.type_eq, f.type_eq) refl;
        fits = fits;
        room = room;
        read = e;
        pointer = s.free_space;
      },
      s.next_eq ∙ link,
    )

small_room : space small + node_header_size ≤ page_size
unfolding leaf_cell total encode encode_elements encode_value append_u16 append_u32 le_bytes
small_room = omega arith

large_room : space large + node_header_size ≤ page_size
unfolding leaf_cell total encode encode_elements encode_value append_u16 append_u32 le_bytes
large_room = omega arith

pub left : (page : Page) × IsPacked small page × (next_leaf page ≡ 2)
left = packed small 2 (omega arith) (((omega arith, (omega arith, tt)), omega arith), tt) small_room

pub right : (page : Page) × IsPacked large page × (next_leaf page ≡ invalid_page)
right =
    packed large invalid_page (omega arith)
      (
        ((omega arith, (omega arith, tt)), omega arith),
        (((omega arith, (omega arith, tt)), omega arith), tt),
      )
      large_room

abbrev separator : List InternalEntry
separator = record { key = int 5 ∷ []; child_page_id = 1 } ∷ []

separator_room : InternalRoom separator
unfolding internal_cell total encode encode_elements encode_value append_u16 append_u32 le_bytes
separator_room = omega arith

pub root :
    (page : Page) × IsPage page
    × (is_leaf page ≡ false)
    × (get_internal_entries page ≡ ok separator)
    × (rightmost_child page ≡ 2)
root =
    let (f, link) = IsFresh-internal 2 (omega arith) in
    let (s, e) =
      get-set_internal_entries separator (set_rightmost_child 2 (init_node NodeType.internal))
        f.is_page (((omega arith, (omega arith, tt)), omega arith), tt) separator_room in
    (
      s.page,
      s.is_page,
      unfold is_leaf node_type_code in rw (s.type_eq, f.type_eq) refl,
      e,
      s.rightmost_eq ∙ link,
    )

abbrev nodes : List (ℕ × Page)
nodes = (0, root.0) ∷ (1, left.0) ∷ (2, right.0) ∷ []

pub filled :
    (q : Pool) × (apply_pages nodes (open_pool three_pages) ≡ (ok tt, q))
    × AppliedAll nodes (open_pool three_pages) q
filled =
    apply_pages-AppliedAll nodes (open_pool three_pages)
      (open_pool-IsIdle three_pages three_pages-IsDisk) (unfold find in (refl, (refl, (refl, tt))))
      (
        ((unfold open_pool in omega arith), root.1),
        (
          ((unfold open_pool in omega arith), (left.1).is_page),
          (((unfold open_pool in omega arith), (right.1).is_page), tt),
        ),
      )

abbrev pub store : ℕ → Store
store root_id = record {
  pages = λ j. or_else (find j nodes) (view (open_pool three_pages) j);
  total = 3;
  root = root_id;
  wal = open_wal [] 100;
  header = new_header;
}

abbrev pub btree : ℕ → BTree
btree root_id = record {
  manager = record {
    engine = record { pool = filled.0; wal = open_wal [] 100 };
    header = new_header;
  };
  root_page = root_id;
}

pub btree-Holds : (root_id : ℕ) → Holds (store root_id) (btree root_id)
btree-Holds root_id = record {
  idle = (filled.2).idle;
  shows = (filled.2).shows;
  total_eq = (filled.2).total_eq ∙ (unfold open_pool in refl);
  root_eq = refl;
  wal_eq = refl;
  header_eq = refl;
}

abbrev pub shape : Tree tree
shape = node (more 1 (leaf small) (int 5 ∷ []) (last 2 (leaf large)))

pub shape-IsAt : IsAt (store 0) 0 shape
unfolding find
shape-IsAt = (omega arith, root.2, root.3, root.4, ((omega arith, left.1), (omega arith, right.1)))

pub three-IsOrdered : All IsOrdered (int 3 ∷ [])
three-IsOrdered = (omega arith, tt)

pub six-IsOrdered : All IsOrdered (int 6 ∷ [])
six-IsOrdered = (omega arith, tt)

pub shape-IsSearchTree : IsSearchTree shape
unfolding key_lt
shape-IsSearchTree = (
  (omega arith, tt),
  (refl, tt),
  (refl, (refl, tt)),
  (three-IsOrdered, tt),
  ((omega arith, tt), ((omega arith, tt), tt)),
)

pub shape-IsTree : IsTree (store 0) shape
shape-IsTree = record {
  at = shape-IsAt;
  ordered = shape-IsSearchTree;
  apart = ((omega arith, (omega arith, tt)), (((omega arith, tt), tt), tt, tt));
  enough = omega arith;
}

pub no_six : find_entry (int 6 ∷ []) (entries shape) ≡ none
unfolding find_entry key_eq
no_six = refl

pub three_here : find_entry (int 3 ∷ []) (entries shape) ≡ some (1 ∷ 2 ∷ [])
unfolding find_entry key_eq
three_here = refl

-- The left leaf alone, as a tree.
pub small-IsTree : IsTree (store 1) (leaf small)
unfolding find
small-IsTree = record {
  at = (omega arith, left.1);
  ordered = (three-IsOrdered, tt);
  apart = tt;
  enough = omega arith;
}

pub small_three : find_entry (int 3 ∷ []) small ≡ some (1 ∷ 2 ∷ [])
unfolding find_entry key_eq
small_three = refl

pub shape-IsChain : IsChain (store 0) 1 (leaves 0 shape)
unfolding find
shape-IsChain = (
  refl,
  refl,
  omega arith,
  left.1,
  (left.2, refl, omega arith, right.1, ap (λ (n : ℕ). n == invalid_page) right.2),
)

pub shape-IsSorted : IsSorted (entries shape)
unfolding key_lt
shape-IsSorted = ((refl, (refl, tt)), ((refl, tt), (tt, tt)))
