-- ===== src/Btree/Node.antt =====
-- src/btree/btree_node.h and btree_node.cpp: the layout of a B+tree node in its page. A node is
-- its page, and a setter returns the new one.
pub mod Cells
pub mod RoundTrip
pub mod Search
pub mod Progress
pub mod Fresh
use gs_dbengine.Base.{
  ℕ, zero, suc, ◌+◌, ◌-◌, ◌%◌, ◌^◌, ◌<◌, ◌/◌, ◌≡◌, Bool, true, false, not, ◌&&◌, List, [], ◌∷◌,
  ◌++◌, Bytes, length, Result, ok, err, ◌>>=◌, buffer_overrun, page_overflow, out_of_fuel, le_bytes,
  load, read_bytes, if◌then◌else◌, ◌==◌, ltb, drop, replicate, map, reverse, splice, field,
  set_field, Option, none, some,
}
use gs_dbengine.Storage.Page.{Page, page_size, invalid_page, zero_page}
use gs_dbengine.Btree.Key.{Key, key_lt, key_eq, encode, decode, read_u32, append_u32}

pub data NodeType : Type 0 where
  internal leaf : NodeType

unfoldable pub node_type_code : NodeType → ℕ
node_type_code internal = 1
node_type_code leaf = 2

abbrev pub node_header_size : ℕ
node_header_size = 17

-- `struct NodeHeader`, packed: type, num_cells, free_space_ptr, parent_page, next_leaf and
-- rightmost_child, each by its offset.
unfoldable pub type : Page → ℕ
unfolding field
type p = field 1 0 p

unfoldable pub set_type : NodeType → Page → Page
unfolding node_type_code set_field
set_type t p = set_field 1 0 (node_type_code t) p

unfoldable pub num_cells : Page → ℕ
unfolding field
num_cells p = field 2 1 p

unfoldable pub set_num_cells : ℕ → Page → Page
unfolding set_field
set_num_cells n p = set_field 2 1 n p

unfoldable pub free_space_ptr_value : Page → ℕ
unfolding field
free_space_ptr_value p = field 2 3 p

unfoldable pub set_free_space_ptr : ℕ → Page → Page
unfolding set_field
set_free_space_ptr n p = set_field 2 3 n p

unfoldable pub parent_page : Page → ℕ
unfolding field
parent_page p = field 4 5 p

unfoldable pub set_parent_page : ℕ → Page → Page
unfolding set_field
set_parent_page page_id p = set_field 4 5 page_id p

unfoldable pub next_leaf : Page → ℕ
unfolding field
next_leaf p = field 4 9 p

unfoldable pub set_next_leaf : ℕ → Page → Page
unfolding set_field
set_next_leaf page_id p = set_field 4 9 page_id p

unfoldable pub rightmost_child : Page → ℕ
unfolding field
rightmost_child p = field 4 13 p

unfoldable pub set_rightmost_child : ℕ → Page → Page
unfolding set_field
set_rightmost_child page_id p = set_field 4 13 page_id p

unfoldable pub is_leaf : Page → Bool
unfolding type
is_leaf p = type p == 2

-- `init_node`: whatever the page held is cleared.
unfoldable pub init_node : NodeType → Page
unfolding set_type set_num_cells set_free_space_ptr set_parent_page set_next_leaf
    set_rightmost_child
init_node t = set_rightmost_child invalid_page (
    set_next_leaf invalid_page (
      set_parent_page invalid_page
        (set_free_space_ptr page_size (set_num_cells 0 (set_type t (zero_page))))))

pub record LeafEntry : Type 0 where
  pub key : Key
  pub value : Bytes

pub record InternalEntry : Type 0 where
  pub key : Key
  pub child_page_id : ℕ

-- The bytes of one cell.
unfoldable pub leaf_cell : LeafEntry → Bytes
leaf_cell e = encode e.key ++ (append_u32 (length e.value % 2 ^ 32) ++ e.value)

unfoldable pub internal_cell : InternalEntry → Bytes
internal_cell e = encode e.key ++ append_u32 e.child_page_id

-- The loop of `set_leaf_entries` and `set_internal_entries` over the entries from the last:
-- `write_ptr` starts at the end of the page and falls by the size of each cell.
unfoldable pub write_cells : List Bytes → ℕ → Page → Result (Page × ℕ)
write_cells [] write_ptr p = ok (p, write_ptr)
write_cells (cell ∷ cells) write_ptr p =
    if ltb write_ptr (length cell)
    then err page_overflow
    else write_cells cells (write_ptr - length cell) (splice (write_ptr - length cell) cell p)

-- The last two statements of both setters; the counts are cast to uint16_t.
unfoldable pub finish_cells : ℕ → Page × ℕ → Result Page
finish_cells count (p, write_ptr) =
    ok (set_free_space_ptr (write_ptr % 2 ^ 16) (set_num_cells (count % 2 ^ 16) p))

unfoldable pub set_leaf_entries : List LeafEntry → Page → Result Page
set_leaf_entries entries p =
    write_cells (reverse (map leaf_cell entries)) page_size p >>= finish_cells (length entries)

unfoldable pub set_internal_entries : List InternalEntry → Page → Result Page
set_internal_entries entries p =
    write_cells (reverse (map internal_cell entries)) page_size p >>= finish_cells (length entries)

unfoldable pub read_leaf_cell : Bytes → Result (LeafEntry × Bytes)
read_leaf_cell ptr = do
  (k, rest) ← decode ptr
  (value_size, rest) ← read_u32 rest
  (v, rest) ← read_bytes value_size rest
  ok (record { key = k; value = v }, rest)

unfoldable pub read_internal_cell : Bytes → Result (InternalEntry × Bytes)
read_internal_cell ptr = do
  (k, rest) ← decode ptr
  (child, rest) ← read_u32 rest
  ok (record { key = k; child_page_id = child }, rest)

-- `while (ptr < end)`: the list is what lies between the two, and each round takes bytes off it.
unfoldable pub read_cells {ℓ} :
    {A : Type ℓ} → (Bytes → Result (A × Bytes)) → ℕ → Bytes → Result (List A)
read_cells read fuel [] = ok []
read_cells read zero (b ∷ bs) = err out_of_fuel
read_cells read (suc fuel) (b ∷ bs) = do
  (entry, rest) ← read (b ∷ bs)
  entries ← read_cells read fuel rest
  ok (entry ∷ entries)

unfoldable pub get_leaf_entries : Page → Result (List LeafEntry)
get_leaf_entries p = read_cells read_leaf_cell page_size (drop (free_space_ptr_value p) p)

unfoldable pub get_internal_entries : Page → Result (List InternalEntry)
get_internal_entries p = read_cells read_internal_cell page_size (drop (free_space_ptr_value p) p)

unfoldable pub find_entry : Key → List LeafEntry → Option Bytes
find_entry k [] = none
find_entry k (e ∷ entries) = if key_eq e.key k then some e.value else find_entry k entries

unfoldable pub find_in_leaf : Key → Page → Result (Option Bytes)
find_in_leaf k p = do entries ← get_leaf_entries p; ok (find_entry k entries)

unfoldable pub child_for_key : Key → List InternalEntry → ℕ → ℕ
child_for_key k [] rightmost = rightmost
child_for_key k (e ∷ entries) rightmost =
    if key_lt k e.key then e.child_page_id else child_for_key k entries rightmost

unfoldable pub find_child_for_key : Key → Page → Result ℕ
find_child_for_key k p = do
  entries ← get_internal_entries p
  ok (child_for_key k entries (rightmost_child p))

-- `uint32_t free_space` wraps where the pointer lies inside the header.
unfoldable pub is_full : Page → Bool
is_full p = ltb ((free_space_ptr_value p + 2 ^ 32 - node_header_size) % 2 ^ 32) 64

unfoldable pub is_underfull : Page → Bool
is_underfull p =
    ltb ((page_size + 2 ^ 32 - free_space_ptr_value p) % 2 ^ 32)
      ((page_size - node_header_size) / 2)
