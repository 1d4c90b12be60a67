-- ===== src/Btree/Node/RoundTrip.antt =====
-- Writing the entries of a node and reading them back.
use gs_dbengine.Base.{
  ℕ, zero, suc, ◌+◌, ◌^◌, ◌<◌, ◌≤◌, ◌≡◌, refl, ◌∙◌, List, [], ◌∷◌, ◌++◌, Bytes, length, Result, ok,
  ◌>>=◌, All, map, arith, append_assoc, length-append, le_bytes, read_bytes-append,
}
use native.Mathlib.Nat.{mod-eq_of_lt}
use gs_dbengine.Storage.Page.{Page, IsPage, page_size}
use gs_dbengine.Btree.Key.{FitsKey, encode, append_u16}
use gs_dbengine.Btree.Key.RoundTrip.{decode-encode, read_u32-append_u32}
use gs_dbengine.Btree.Node.{
  LeafEntry, InternalEntry, leaf_cell, internal_cell, read_leaf_cell, read_internal_cell,
  read_cells, set_leaf_entries, set_internal_entries, get_leaf_entries, get_internal_entries,
  node_header_size,
}
use gs_dbengine.Btree.Node.Cells.{Stored, set_cells_lem, flat, total}

-- Entries within the widths of their length fields.
abbrev pub FitsLeaf : LeafEntry → Type 0
FitsLeaf e = FitsKey e.key × (length e.value < 2 ^ 32)

abbrev pub FitsInternal : InternalEntry → Type 0
FitsInternal e = FitsKey e.key × (e.child_page_id < 2 ^ 32)

read-leaf_cell :
    (e : LeafEntry) (rest : Bytes)
    → FitsLeaf e
    → read_leaf_cell (leaf_cell e ++ rest) ≡ ok (e, rest)
unfolding read_leaf_cell leaf_cell
read-leaf_cell e rest h = rw (
  append_assoc,
  append_assoc,
  decode-encode e.key _ h.0,
  mod-eq_of_lt h.1,
  read_u32-append_u32 (length e.value) (e.value ++ rest) h.1,
  read_bytes-append e.value rest,
)

read-internal_cell :
    (e : InternalEntry) (rest : Bytes)
    → FitsInternal e
    → read_internal_cell (internal_cell e ++ rest) ≡ ok (e, rest)
unfolding read_internal_cell internal_cell
read-internal_cell e rest h =
    rw (append_assoc, decode-encode e.key _ h.0, read_u32-append_u32 e.child_page_id rest h.1)

module _ {ℓ} {A : Type ℓ} (cell : A → Bytes) (read : Bytes → Result (A × Bytes)) (Fits : A → Type 0)
    (long : (a : A) → 1 ≤ length (cell a))
    (read_cell : (a : A) (rest : Bytes) → Fits a → read (cell a ++ rest) ≡ ok (a, rest)) where
  read_cells_step :
      (fuel : ℕ) (bs : Bytes) (a : A) (rest : Bytes)
      → 1 ≤ length bs
      → read bs ≡ ok (a, rest)
      → read_cells read (suc fuel) bs ≡ (read_cells read fuel rest >>= λ entries. ok (a ∷ entries))
  unfolding read_cells
  read_cells_step fuel [] a rest h e = absurd (omega arith)
  read_cells_step fuel (b ∷ bs) a rest h e = rw e

  read_cells-flat :
      (entries : List A) (fuel : ℕ)
      → All Fits entries
      → total (map cell entries) ≤ fuel
      → read_cells read fuel (flat (map cell entries)) ≡ ok entries
  unfolding flat total
  read_cells-flat [] fuel fits h = unfold read_cells in refl
  read_cells-flat (a ∷ entries) zero fits h = absurd (omega (arith, long a))
  read_cells-flat (a ∷ entries) (suc fuel) fits h =
      read_cells_step fuel (cell a ++ flat (map cell entries)) a (flat (map cell entries))
        (omega (arith, long a, length-append (cell a) (flat (map cell entries))))
        (read_cell a (flat (map cell entries)) fits.0)
      ∙ rw (read_cells-flat entries fuel fits.1 (omega (arith, long a)))

leaf_cell_long : (e : LeafEntry) → 1 ≤ length (leaf_cell e)
unfolding leaf_cell encode append_u16 le_bytes
leaf_cell_long e = omega arith

internal_cell_long : (e : InternalEntry) → 1 ≤ length (internal_cell e)
unfolding internal_cell encode append_u16 le_bytes
internal_cell_long e = omega arith

-- The space that the entries take, with the header, is within the page.
abbrev pub LeafRoom : List LeafEntry → Type 0
LeafRoom entries = total (map leaf_cell entries) + node_header_size ≤ page_size

abbrev pub InternalRoom : List InternalEntry → Type 0
InternalRoom entries = total (map internal_cell entries) + node_header_size ≤ page_size

-- For entries within the widths of their length fields, whose cells fit the page with the header,
-- set_leaf_entries succeeds, keeps the type and the links of the node, and get_leaf_entries then
-- returns the entries in their order.
pub get-set_leaf_entries :
    (entries : List LeafEntry) (p : Page)
    → IsPage p
    → All FitsLeaf entries
    → LeafRoom entries
    → (s : Stored (map leaf_cell entries) (length entries) p (set_leaf_entries entries p))
      × (get_leaf_entries s.page ≡ ok entries)
unfolding set_leaf_entries get_leaf_entries
get-set_leaf_entries entries p is_page fits room =
    let s : Stored (map leaf_cell entries) (length entries) p (set_leaf_entries entries p) =
      set_cells_lem (map leaf_cell entries) (length entries) p is_page room in
    (
      s,
      rw s.cells_eq (
          read_cells-flat leaf_cell read_leaf_cell FitsLeaf leaf_cell_long read-leaf_cell entries
            page_size fits (omega arith)),
    )

-- For entries within the widths of their fields, whose cells fit the page with the header,
-- set_internal_entries succeeds, keeps the type and the links of the node, and
-- get_internal_entries then returns the entries in their order.
pub get-set_internal_entries :
    (entries : List InternalEntry) (p : Page)
    → IsPage p
    → All FitsInternal entries
    → InternalRoom entries
    → (s : Stored (map internal_cell entries) (length entries) p (set_internal_entries entries p))
      × (get_internal_entries s.page ≡ ok entries)
unfolding set_internal_entries get_internal_entries
get-set_internal_entries entries p is_page fits room =
    let s : Stored (map internal_cell entries) (length entries) p (set_internal_entries entries p) =
      set_cells_lem (map internal_cell entries) (length entries) p is_page room in
    (
      s,
      rw s.cells_eq (
          read_cells-flat internal_cell read_internal_cell FitsInternal internal_cell_long
            read-internal_cell entries page_size fits (omega arith)),
    )
