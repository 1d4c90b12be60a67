-- ===== src/Btree/Tree/Lookup.antt =====
-- `search` finds what the leaves of the tree hold.
use gs_dbengine.Base.{
  ℕ, zero, suc, ◌≤◌, ◌<◌, ◌≡◌, refl, ap, sym, ◌∙◌, inl, inr, Bool, true, false, not, List, [], ◌∷◌,
  ◌++◌, All, All-append, none, some, ok, Bool-cases, arith,
}
use gs_dbengine.Storage.Pool.{total_pages}
use gs_dbengine.Row.Order.{IsOrdered}
use gs_dbengine.Btree.Key.{Key, key_lt, key_eq, key-IsOrder}
use gs_dbengine.Btree.Node.{LeafEntry, find_entry, find_in_leaf, find_child_for_key}
use gs_dbengine.Btree.Tree.{
  BTree, descend, go_down, next_child, child_of, find_leaf_page_with_path, find_leaf_page, search,
  tree_fuel,
}
use gs_dbengine.Btree.Tree.Store.{Store, Holds, read_page-Holds}
use gs_dbengine.Btree.Tree.Packed.{IsPacked}
use gs_dbengine.Btree.Tree.Shape.{
  Kind, tree, Tree, leaf, node, last, more, entries, inner_nodes, IsAt, IsSearchTree, route, Chosen,
  choose,
}

-- The page `id` holds a leaf with the entries.
abbrev pub IsLeafAt : Store → ℕ × List LeafEntry → Type 0
IsLeafAt c (id, es) = (id < c.total) × IsPacked es (c.pages id)

-- With a round for every inner node and one for the leaf, the descent ends in the leaf that the key
-- leads to.
pub descend-route :
    (fuel : ℕ) (key : Key) (id : ℕ) (path : List ℕ) (shape : Tree tree) (c : Store) (t : BTree)
    → Holds c t
    → IsAt c id shape
    → inner_nodes shape ≤ fuel
    → (p : List ℕ) × (t' : BTree) × (descend (suc fuel) key id path t
        ≡ (ok ((route key id shape).0, p), t'))
      × Holds c t'
      × IsLeafAt c (route key id shape)
unfolding descend go_down next_child child_of find_child_for_key
descend-route fuel key id path (leaf es) c t h (inside, p) n =
    let (t', r, h') = read_page-Holds id (next_child key) none c t h inside (rw p.leaf_type refl) in
    (path, t', rw r refl, h', (inside, p))
descend-route zero key id path (node f) c t h at n = absurd (omega arith)
descend-route (suc fuel) key id path (node f) c t h (inside, l, e, m, at) n =
    let chosen : Chosen c key id f = choose c key id f at in
    let (t', r, h') =
      read_page-Holds id (next_child key) (some chosen.child) c t h inside
        (rw (l, e, m, chosen.chosen) refl) in
    let (p, t'', r', h'', at') =
      descend-route fuel key chosen.child (path ++ id ∷ []) chosen.subtree c t' h' chosen.at
        (let x = chosen.lower in omega arith) in
    rw chosen.same_route (p, t'', rw r r', h'', at')

not_fixed : (b : Bool) → b ≡ not b → ⊥
not_fixed true e = cc
not_fixed false e = cc

module _ (key : Key) (hk : All IsOrdered key) where
  -- An entry below a separator that the key is not below has another key, and so has one that is not
  -- below a separator above the key.
  other_side :
      (e s : Key) (b : Bool)
      → All IsOrdered e
      → All IsOrdered s
      → key_lt e s ≡ b
      → key_lt key s ≡ not b
      → key_eq e key ≡ false
  other_side e s b he hs x y = elim (Bool-cases (key_eq e key)) [
    | inr n ↦ n
    | inl n ↦ let z = key-IsOrder.eq_lt e key s he hk hs n in absurd (not_fixed b (sym x ∙ z ∙ y))
  ]

  pub absent :
      (s : Key) (b : Bool) (es : List LeafEntry)
      → All IsOrdered s
      → All (λ (e : LeafEntry). All IsOrdered e.key) es
      → All (λ (e : LeafEntry). key_lt e.key s ≡ b) es
      → key_lt key s ≡ not b
      → find_entry key es ≡ none
  unfolding find_entry
  absent s b [] hs ho hb y = refl
  absent s b (e ∷ es) hs ho hb y =
      rw (other_side e.key s b ho.0 hs hb.0 y) (absent s b es hs ho.1 hb.1 y)

find_entry-append_left :
    (key : Key) (xs ys : List LeafEntry)
    → find_entry key ys ≡ none
    → find_entry key (xs ++ ys) ≡ find_entry key xs
unfolding find_entry
find_entry-append_left key [] ys h = h
find_entry-append_left key (x ∷ xs) ys h = ground (arith, find_entry-append_left key xs ys h)

find_entry-append_right :
    (key : Key) (xs ys : List LeafEntry)
    → find_entry key xs ≡ none
    → find_entry key (xs ++ ys) ≡ find_entry key ys
unfolding find_entry
find_entry-append_right key [] ys h = refl
find_entry-append_right key (x ∷ xs) ys h = ground (arith, find_entry-append_right key xs ys)

pub entries-IsOrdered :
    {k : Kind} (shape : Tree k)
    → IsSearchTree shape
    → All (λ (e : LeafEntry). All IsOrdered e.key) (entries shape)
entries-IsOrdered (leaf es) h = h
entries-IsOrdered (node f) h = entries-IsOrdered f h
entries-IsOrdered (last c t) h = entries-IsOrdered t h
entries-IsOrdered (more c t k f) (hs, below, above, ht, hf) =
    All-append _ (entries t) (entries f) (entries-IsOrdered t ht) (entries-IsOrdered f hf)

-- Entries elsewhere than in the leaf that the key leads to have other keys.
pub find_entry-route :
    {k : Kind} (key : Key) (id : ℕ) (shape : Tree k)
    → All IsOrdered key
    → IsSearchTree shape
    → find_entry key (route key id shape).1 ≡ find_entry key (entries shape)
find_entry-route key id (leaf es) hk h = refl
find_entry-route key id (node f) hk h = find_entry-route key id f hk h
find_entry-route key id (last c t) hk h = find_entry-route key c t hk h
find_entry-route key id (more c t k f) hk (hs, below, above, ht, hf) =
    elim (Bool-cases (key_lt key k)) [
      | inl e ↦ rw e (
          find_entry-route key c t hk ht
          ∙ sym (
              find_entry-append_left key (entries t) (entries f)
                (absent key hk k false (entries f) hs (entries-IsOrdered f hf) above e)))
      | inr e ↦ rw e (
          find_entry-route key id f hk hf
          ∙ sym (
              find_entry-append_right key (entries t) (entries f)
                (absent key hk k true (entries t) hs (entries-IsOrdered t ht) below e)))
    ]

-- `find_leaf_page_with_path` ends in the leaf that the key leads to.
pub find_leaf_page-route :
    (key : Key) (shape : Tree tree) (c : Store) (t : BTree)
    → Holds c t
    → IsAt c c.root shape
    → inner_nodes shape ≤ c.total
    → (p : List ℕ) × (t' : BTree) × (find_leaf_page_with_path key t
        ≡ (ok ((route key c.root shape).0, p), t'))
      × Holds c t'
      × IsLeafAt c (route key c.root shape)
unfolding find_leaf_page_with_path tree_fuel total_pages
find_leaf_page-route key shape c t h at enough =
    let (p, t', r, h', at') = descend-route c.total key c.root [] shape c t h at enough in
    (
      p,
      t',
      ap (λ (n : ℕ). descend (suc n) key t.root_page [] t) h.total_eq
          ∙ ap (λ (n : ℕ). descend (suc c.total) key n [] t) h.root_eq
          ∙ r,
      h',
      at',
    )

-- Where the pages hold a search tree without NaN, of no more inner nodes than the file has pages,
-- search of a key without NaN ends and returns the value of the first entry with the key in the
-- leaves of the whole tree, or none; no page, no pin and nothing of the log and header changes.
pub search-find_entry :
    (key : Key) (shape : Tree tree) (c : Store) (t : BTree)
    → Holds c t
    → IsAt c c.root shape
    → IsSearchTree shape
    → inner_nodes shape ≤ c.total
    → All IsOrdered key
    → (t' : BTree) × (search key t ≡ (ok (find_entry key (entries shape)), t')) × Holds c t'
unfolding search find_leaf_page
search-find_entry key shape c t h at ordered enough hk =
    let (p, t', r, h', at') = find_leaf_page-route key shape c t h at enough in
    let (t'', r', h'') =
      read_page-Holds (route key c.root shape).0 (find_in_leaf key) (find_entry key (entries shape))
        c t' h' at'.0
        (unfold find_in_leaf in
          rw (at'.1).read (ap ok (find_entry-route key c.root shape hk ordered))) in
    (t'', rw r r', h'')
