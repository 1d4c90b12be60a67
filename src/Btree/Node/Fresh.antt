-- ===== src/Btree/Node/Fresh.antt =====
-- A node as `init_node` leaves it.
use gs_dbengine.Base.{
  ℕ, ◌+◌, ◌^◌, ◌<◌, ◌≤◌, ◌≡◌, ◌⊎◌, field, set_field, ◌∙◌, arith, length-set_field, field-set_field,
  field-set_field_ne, inl,
}
use gs_dbengine.Storage.Page.{Page, IsPage, zero_page, zero_page-IsPage, page_size, invalid_page}
use gs_dbengine.Btree.Node.{
  NodeType, internal, leaf, init_node, type, set_type, set_num_cells, set_free_space_ptr,
  set_parent_page, set_next_leaf, set_rightmost_child, node_type_code, next_leaf, rightmost_child,
}

pub set_field-IsPage :
    (w off v : ℕ) (p : Page) → off + w ≤ page_size → IsPage p → IsPage (set_field w off v p)
set_field-IsPage w off v p fits h = length-set_field w off v p (omega arith) ∙ h

-- A field that does not overlap the one that was set.
field_ne :
    (w off v w' off' : ℕ) (p : Page)
    → off + w ≤ page_size
    → IsPage p
    → (off' + w' ≤ off) ⊎ (off + w ≤ off')
    → field w' off' (set_field w off v p) ≡ field w' off' p
field_ne w off v w' off' p fits h apart = field-set_field_ne w off v p (omega arith) w' off' apart

pub set_next_leaf-IsPage : (next : ℕ) (p : Page) → IsPage p → IsPage (set_next_leaf next p)
unfolding set_next_leaf
set_next_leaf-IsPage next p h = set_field-IsPage 4 9 next p (omega arith) h

pub set_rightmost_child-IsPage :
    (child : ℕ) (p : Page) → IsPage p → IsPage (set_rightmost_child child p)
unfolding set_rightmost_child
set_rightmost_child-IsPage child p h = set_field-IsPage 4 13 child p (omega arith) h

-- The page and its fields.
pub record IsFresh (t : NodeType) (p : Page) : Type 0 where
  pub is_page : IsPage p
  pub type_eq : type p ≡ node_type_code t

pub init_node-IsFresh : (t : NodeType) → IsFresh t (init_node t)
unfolding init_node set_type set_num_cells set_free_space_ptr set_parent_page set_next_leaf
    set_rightmost_child type
init_node-IsFresh t =
    let p0 : Page = zero_page in
    let p1 : Page = set_field 1 0 (node_type_code t) p0 in
    let h1 : IsPage p1 =
      set_field-IsPage 1 0 (node_type_code t) p0 (omega arith) zero_page-IsPage in
    let p2 : Page = set_field 2 1 0 p1 in
    let h2 : IsPage p2 = set_field-IsPage 2 1 0 p1 (omega arith) h1 in
    let p3 : Page = set_field 2 3 page_size p2 in
    let h3 : IsPage p3 = set_field-IsPage 2 3 page_size p2 (omega arith) h2 in
    let p4 : Page = set_field 4 5 invalid_page p3 in
    let h4 : IsPage p4 = set_field-IsPage 4 5 invalid_page p3 (omega arith) h3 in
    let p5 : Page = set_field 4 9 invalid_page p4 in
    let h5 : IsPage p5 = set_field-IsPage 4 9 invalid_page p4 (omega arith) h4 in
    record {
      is_page = set_field-IsPage 4 13 invalid_page p5 (omega arith) h5;
      type_eq =
          field_ne 4 13 invalid_page 1 0 p5 (omega arith) h5 (inl (omega arith))
          ∙ field_ne 4 9 invalid_page 1 0 p4 (omega arith) h4 (inl (omega arith))
          ∙ field_ne 4 5 invalid_page 1 0 p3 (omega arith) h3 (inl (omega arith))
          ∙ field_ne 2 3 page_size 1 0 p2 (omega arith) h2 (inl (omega arith))
          ∙ field_ne 2 1 0 1 0 p1 (omega arith) h1 (inl (omega arith))
          ∙ field-set_field 1 0 (node_type_code t) p0 (omega (arith, zero_page-IsPage))
              (code_small t);
    }
  where
    code_small : (t : NodeType) → node_type_code t < 256 ^ 1
    code_small leaf = unfold node_type_code in omega arith
    code_small internal = unfold node_type_code in omega arith

-- A fresh node with its link, or its rightmost child, set.
pub IsFresh-leaf :
    (next : ℕ)
    → next < 2 ^ 32
    → IsFresh leaf (set_next_leaf next (init_node leaf))
      × (next_leaf (set_next_leaf next (init_node leaf)) ≡ next)
unfolding set_next_leaf next_leaf type
IsFresh-leaf next h =
    let f : IsFresh leaf (init_node leaf) = init_node-IsFresh leaf in
    (
      record {
        is_page = set_field-IsPage 4 9 next (init_node leaf) (omega arith) f.is_page;
        type_eq =
            field_ne 4 9 next 1 0 (init_node leaf) (omega arith) f.is_page (inl (omega arith))
            ∙ f.type_eq;
      },
      field-set_field 4 9 next (init_node leaf) (let l = f.is_page in omega arith) h,
    )

pub IsFresh-internal :
    (child : ℕ)
    → child < 2 ^ 32
    → IsFresh internal (set_rightmost_child child (init_node internal))
      × (rightmost_child (set_rightmost_child child (init_node internal)) ≡ child)
unfolding set_rightmost_child rightmost_child type
IsFresh-internal child h =
    let f : IsFresh internal (init_node internal) = init_node-IsFresh internal in
    (
      record {
        is_page = set_field-IsPage 4 13 child (init_node internal) (omega arith) f.is_page;
        type_eq =
            field_ne 4 13 child 1 0 (init_node internal) (omega arith) f.is_page (inl (omega arith))
            ∙ f.type_eq;
      },
      field-set_field 4 13 child (init_node internal) (let l = f.is_page in omega arith) h,
    )
