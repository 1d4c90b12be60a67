-- ===== src/Btree/Tree/Chain.antt =====
-- The leaves along `next_leaf`: `scan_all` returns the entries of the whole tree.
use gs_dbengine.Base.{
  ℕ, zero, suc, ◌≤◌, ◌<◌, ◌≡◌, refl, ap, sym, ◌∙◌, inl, inr, Bool, true, false, List, [], ◌∷◌, ◌++◌,
  append_assoc, append-nil, length, none, some, ok, if◌then◌else◌, ◌==◌, Bool-cases, arith,
}
use gs_dbengine.Storage.Page.{invalid_page}
use gs_dbengine.Storage.Pool.{total_pages}
use gs_dbengine.Btree.Node.{LeafEntry, next_leaf}
use gs_dbengine.Btree.Tree.{BTree, tree_fuel, pool_of}
use gs_dbengine.Btree.Tree.Scan.{
  first_child, leftmost_of, leftmost_child, go_left, descend_left, find_leftmost_leaf, linked,
  leaf_contents, walk, walk_from, visit_all, scan_all,
}
use gs_dbengine.Btree.Tree.Store.{Store, Holds, read_page-Holds}
use gs_dbengine.Btree.Tree.Packed.{IsPacked}
use gs_dbengine.Btree.Tree.Shape.{
  Kind, tree, children, Tree, leaf, node, last, more, separators, rightmost, entries, inner_nodes,
  IsAt,
}

-- The leaves of a tree from left to right, each by its page and its entries.
abbrev pub leaves : {κ : Kind} → ℕ → Tree κ → List (ℕ × List LeafEntry)
leaves id (leaf es) = (id, es) ∷ []
leaves id (node f) = leaves id f
leaves id (last c t) = leaves c t
leaves id (more c t k f) = leaves c t ++ leaves id f

-- The leaves are linked in this order from page `id`, and the last one ends the chain.
abbrev pub IsChain : Store → ℕ → List (ℕ × List LeafEntry) → Type 0
IsChain c id [] = id == invalid_page ≡ true
IsChain c id ((page, es) ∷ rest) =
    (id ≡ page)
    × (page == invalid_page ≡ false)
    × (page < c.total)
    × IsPacked es (c.pages page)
    × IsChain c (next_leaf (c.pages page)) rest

-- What the loop over the leaves collects.
abbrev pub gather :
    (List LeafEntry → List LeafEntry × Bool) → List (ℕ × List LeafEntry) → List LeafEntry
gather visit [] = []
gather visit ((page, es) ∷ rest) =
    let later = gather visit rest in (visit es).0 ++ (if (visit es).1 then [] else later)

abbrev pub all_entries : List (ℕ × List LeafEntry) → List LeafEntry
all_entries [] = []
all_entries ((page, es) ∷ rest) = es ++ all_entries rest

pub walk-gather :
    (visit : List LeafEntry → List LeafEntry × Bool) (fuel id : ℕ)
    (chain : List (ℕ × List LeafEntry)) (c : Store) (t : BTree)
    → Holds c t
    → IsChain c id chain
    → length chain ≤ fuel
    → (t' : BTree) × (walk (λ es. ok (visit es)) fuel id t ≡ (ok (gather visit chain), t'))
      × Holds c t'
unfolding walk leaf_contents linked
walk-gather visit zero id [] c t h g l = (t, rw g refl, h)
walk-gather visit (suc fuel) id [] c t h g l = (t, rw g refl, h)
walk-gather visit zero id (x ∷ chain) c t h g l = absurd (omega arith)
walk-gather visit (suc fuel) id ((page, es) ∷ chain) c t h (e, real, inside, p, g) l =
    let (t', r, h') =
      read_page-Holds page leaf_contents (es, next_leaf (c.pages page)) c t h inside
        (rw p.read refl) in
    elim (Bool-cases (visit es).1) [
      | inl stop ↦ (t', rw (e, real, r, stop) refl, h')
      | inr on ↦
          let (t'', r', h'') =
            walk-gather visit fuel (next_leaf (c.pages page)) chain c t' h' g (omega arith) in
          (t'', rw (e, real, r, on, r') refl, h'')
    ]

-- The first leaf.
abbrev pub first_leaf : {κ : Kind} → ℕ → Tree κ → ℕ
first_leaf id (leaf es) = id
first_leaf id (node f) = first_leaf id f
first_leaf id (last c t) = first_leaf c t
first_leaf id (more c t k f) = first_leaf c t

pub all_entries-append :
    (xs ys : List (ℕ × List LeafEntry)) → all_entries (xs ++ ys) ≡ all_entries xs ++ all_entries ys
all_entries-append [] ys = refl
all_entries-append ((page, es) ∷ xs) ys =
    ap (λ zs. es ++ zs) (all_entries-append xs ys)
    ∙ sym (append_assoc es (all_entries xs) (all_entries ys))

pub leaves-entries :
    {κ : Kind} (id : ℕ) (shape : Tree κ) → all_entries (leaves id shape) ≡ entries shape
leaves-entries id (leaf es) = append-nil es
leaves-entries id (node f) = leaves-entries id f
leaves-entries id (last c t) = leaves-entries c t
leaves-entries id (more c t k f) =
    all_entries-append (leaves c t) (leaves id f)
    ∙ ap (λ xs. xs ++ all_entries (leaves id f)) (leaves-entries c t)
    ∙ ap (λ xs. entries t ++ xs) (leaves-entries id f)

gather-visit_all :
    (chain : List (ℕ × List LeafEntry)) → gather (λ es. (es, false)) chain ≡ all_entries chain
gather-visit_all [] = refl
gather-visit_all ((page, es) ∷ chain) = ap (λ xs. es ++ xs) (gather-visit_all chain)

-- The leftmost child, below a node.
leftmost :
    (c : Store) (id : ℕ) (f : Tree children)
    → IsAt c id f
    → (child : ℕ) × (subtree : Tree tree) × (first_child (separators f) (rightmost f) ≡ child)
      × IsAt c child subtree
      × (first_leaf id f ≡ first_leaf child subtree)
      × (inner_nodes subtree ≤ inner_nodes f)
unfolding first_child
leftmost c id (last child t) h = (child, t, refl, h, refl, omega arith)
leftmost c id (more child t k f) (h, g) = (child, t, refl, h, refl, omega arith)

descend_left-first_leaf :
    (fuel id : ℕ) (shape : Tree tree) (c : Store) (t : BTree)
    → Holds c t
    → IsAt c id shape
    → inner_nodes shape ≤ fuel
    → (t' : BTree) × (descend_left (suc fuel) id t ≡ (ok (first_leaf id shape), t')) × Holds c t'
unfolding descend_left leftmost_child leftmost_of go_left
descend_left-first_leaf fuel id (leaf es) c t h (inside, p) n =
    let (t', r, h') = read_page-Holds id leftmost_child none c t h inside (rw p.leaf_type refl) in
    (t', rw r refl, h')
descend_left-first_leaf zero id (node f) c t h at n = absurd (omega arith)
descend_left-first_leaf (suc fuel) id (node f) c t h (inside, l, e, m, at) n =
    let (child, subtree, first, at', same, lower) = leftmost c id f at in
    let (t', r, h') =
      read_page-Holds id leftmost_child (some child) c t h inside (rw (l, e, m, first) refl) in
    let (t'', r', h'') = descend_left-first_leaf fuel child subtree c t' h' at' (omega arith) in
    (t'', rw (r, same) r', h'')

-- The loop with the fuel of the tree.
pub walk_from-gather :
    (visit : List LeafEntry → List LeafEntry × Bool) (id : ℕ) (chain : List (ℕ × List LeafEntry))
    (c : Store) (t : BTree)
    → Holds c t
    → IsChain c id chain
    → length chain ≤ c.total
    → (t' : BTree) × (walk_from (λ es. ok (visit es)) id t ≡ (ok (gather visit chain), t'))
      × Holds c t'
unfolding walk_from tree_fuel total_pages
walk_from-gather visit id chain c t h g l =
    walk-gather visit (suc ((pool_of t).disk).total_pages) id chain c t h g
      (let e = h.total_eq in omega arith)

-- Where the pages hold a tree whose leaves are linked from left to right, with no more inner nodes
-- and no more leaves than the file has pages, scan_all ends and returns the entries of all leaves
-- in their order; no page, no pin and nothing of the log and header changes.
pub scan_all-entries :
    (shape : Tree tree) (c : Store) (t : BTree)
    → Holds c t
    → IsAt c c.root shape
    → IsChain c (first_leaf c.root shape) (leaves c.root shape)
    → inner_nodes shape ≤ c.total
    → length (leaves c.root shape) ≤ c.total
    → (t' : BTree) × (scan_all t ≡ (ok (entries shape), t')) × Holds c t'
unfolding scan_all find_leftmost_leaf tree_fuel total_pages visit_all
scan_all-entries shape c t h at chain enough few =
    let (t', r, h') = descend_left-first_leaf c.total c.root shape c t h at enough in
    let start : descend_left (suc ((pool_of t).disk).total_pages) t.root_page t
        ≡ (ok (first_leaf c.root shape), t') =
      ap (λ (n : ℕ). descend_left (suc n) t.root_page t) h.total_eq
      ∙ ap (λ (n : ℕ). descend_left (suc c.total) n t) h.root_eq
      ∙ r in
    let (t'', r', h'') =
      walk_from-gather (λ es. (es, false)) (first_leaf c.root shape) (leaves c.root shape) c t' h'
        chain few in
    (
      t'',
      rw start (
          r'
          ∙ ap (λ es. (ok es, t''))
              (gather-visit_all (leaves c.root shape) ∙ leaves-entries c.root shape)),
      h'',
    )
