-- ===== src/Btree/Tree/Shape.antt =====
-- Trees of pages, as the reader of a store sees them: which pages hold a tree, the entries of its
-- leaves, and where a key leads.
use gs_dbengine.Base.{
  ℕ, suc, ◌+◌, ◌≤◌, ◌<◌, ◌≡◌, refl, inl, inr, true, false, List, [], ◌∷◌, ◌++◌, All, ok,
  if◌then◌else◌, Bool-cases, arith,
}
use gs_dbengine.Row.Order.{IsOrdered}
use gs_dbengine.Btree.Key.{Key, key_lt}
use gs_dbengine.Btree.Node.{
  LeafEntry, InternalEntry, is_leaf, rightmost_child, get_internal_entries, child_for_key,
}
use gs_dbengine.Btree.Tree.Store.{Store}
use gs_dbengine.Btree.Tree.Packed.{IsPacked}

pub data Kind : Type 0 where
  tree children : Kind

-- A leaf with its entries, or a node with its children: each child by its page, those before the
-- rightmost with the separator after them.
pub data Tree : Kind → Type 0 where
  leaf : List LeafEntry → Tree tree
  node : Tree children → Tree tree
  last : ℕ → Tree tree → Tree children
  more : ℕ → Tree tree → Key → Tree children → Tree children

abbrev pub separators : {k : Kind} → Tree k → List InternalEntry
separators (leaf es) = []
separators (node f) = []
separators (last c t) = []
separators (more c t k f) = record { key = k; child_page_id = c } ∷ separators f

abbrev pub rightmost : {k : Kind} → Tree k → ℕ
rightmost (leaf es) = 0
rightmost (node f) = 0
rightmost (last c t) = c
rightmost (more c t k f) = rightmost f

-- The entries of the leaves, from left to right.
abbrev pub entries : {k : Kind} → Tree k → List LeafEntry
entries (leaf es) = es
entries (node f) = entries f
entries (last c t) = entries t
entries (more c t k f) = entries t ++ entries f

-- The nodes that are not leaves, each a page of its own: no path through the tree has more.
abbrev pub inner_nodes : {k : Kind} → Tree k → ℕ
inner_nodes (leaf es) = 0
inner_nodes (node f) = suc (inner_nodes f)
inner_nodes (last c t) = inner_nodes t
inner_nodes (more c t k f) = inner_nodes t + inner_nodes f

-- The pages of the store hold the tree, from page `id`; the leaves are as set_leaf_entries leaves
-- them.
abbrev pub IsAt : {k : Kind} → Store → ℕ → Tree k → Type 0
IsAt c id (leaf es) = (id < c.total) × IsPacked es (c.pages id)
IsAt c id (node f) =
    (id < c.total)
    × (is_leaf (c.pages id) ≡ false)
    × (get_internal_entries (c.pages id) ≡ ok (separators f))
    × (rightmost_child (c.pages id) ≡ rightmost f)
    × IsAt c id f
IsAt c id (last child t) = IsAt c child t
IsAt c id (more child t k f) = IsAt c child t × IsAt c id f

-- Keys left of a separator are below it, and those right of it are not; no key has a NaN.
abbrev pub IsSearchTree : {k : Kind} → Tree k → Type 0
IsSearchTree (leaf es) = All (λ (e : LeafEntry). All IsOrdered e.key) es
IsSearchTree (node f) = IsSearchTree f
IsSearchTree (last c t) = IsSearchTree t
IsSearchTree (more c t k f) =
    All IsOrdered k
    × All (λ (e : LeafEntry). key_lt e.key k ≡ true) (entries t)
    × All (λ (e : LeafEntry). key_lt e.key k ≡ false) (entries f)
    × IsSearchTree t
    × IsSearchTree f

-- The leaf that a key leads to: its page and its entries.
abbrev pub route : {k : Kind} → Key → ℕ → Tree k → ℕ × List LeafEntry
route key id (leaf es) = (id, es)
route key id (node f) = route key id f
route key id (last c t) = route key c t
route key id (more c t k f) =
    let left = route key c t in let right = route key id f in if key_lt key k then left else right

-- The child on the way, below a node.
pub record Chosen (c : Store) (key : Key) (id : ℕ) (f : Tree children) : Type 0 where
  pub child : ℕ
  pub subtree : Tree tree
  pub chosen : child_for_key key (separators f) (rightmost f) ≡ child
  pub at : IsAt c child subtree
  pub same_route : route key id f ≡ route key child subtree
  pub lower : inner_nodes subtree ≤ inner_nodes f

pub choose : (c : Store) (key : Key) (id : ℕ) (f : Tree children) → IsAt c id f → Chosen c key id f
unfolding child_for_key
choose c key id (last child t) h = record {
  child = child;
  subtree = t;
  chosen = refl;
  at = h;
  same_route = refl;
  lower = omega arith;
}
choose c key id (more child t k f) (h, g) = elim (Bool-cases (key_lt key k)) [
  | inl e ↦ record {
    child = child;
    subtree = t;
    chosen = rw e refl;
    at = h;
    same_route = rw e refl;
    lower = omega arith;
  }
  | inr e ↦
      let r : Chosen c key id f = choose c key id f g in
      record {
        child = r.child;
        subtree = r.subtree;
        chosen = rw e r.chosen;
        at = r.at;
        same_route = rw e r.same_route;
        lower = let l = r.lower in omega arith;
      }
]
