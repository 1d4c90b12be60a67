-- ===== src/Index/Find.antt =====
-- What `find` and `check_unique` see of the tree.
use gs_dbengine.Base.{
  ◌≤◌, ◌≡◌, refl, inl, inr, ◌⊎◌, true, false, List, [], ◌∷◌, length, drop, All, ok, err, ltb-false,
  Bool-cases, unique_violation,
}
use gs_dbengine.Row.Order.{IsOrdered}
use gs_dbengine.Btree.Key.{Key, key_eq}
use gs_dbengine.Btree.Node.{LeafEntry}
use gs_dbengine.Btree.Tree.{BTree}
use gs_dbengine.Btree.Tree.Store.{Store, Holds}
use gs_dbengine.Btree.Tree.Shape.{Tree, tree, entries, inner_nodes, IsAt, IsSearchTree}
use gs_dbengine.Btree.Tree.Chain.{leaves, IsChain, first_leaf}
use gs_dbengine.Btree.Tree.Range.{select, IsSorted}
use gs_dbengine.Btree.Tree.Prefix.{has_prefix, prefix_scan-select}
use gs_dbengine.Index.{
  Index, arity, is_indexable, is_taken, on_tree, check_existing, check_unique, find_entries, find,
  tails,
}

-- The store of an index holds a search tree with linked leaves.
pub record IsIndex (c : Store) (shape : Tree tree) (i : Index) : Type 0 where
  pub holds : Holds c i.btree
  pub at : IsAt c c.root shape
  pub ordered : IsSearchTree shape
  pub sorted : IsSorted (entries shape)
  pub chain : IsChain c (first_leaf c.root shape) (leaves c.root shape)
  pub enough : inner_nodes shape ≤ c.total
  pub few : length (leaves c.root shape) ≤ c.total

-- A scan that keeps the store keeps the index.
after_scan :
    {c : Store} {shape : Tree tree} (i : Index)
    → IsIndex c shape i
    → (t' : BTree) → Holds c t'
    → IsIndex c shape (record i { btree = t' })
after_scan i h t' h' = record {
  holds = h';
  at = h.at;
  ordered = h.ordered;
  sorted = h.sorted;
  chain = h.chain;
  enough = h.enough;
  few = h.few;
}

-- On an index whose store holds a search tree with linked leaves, for values without NULL and NaN,
-- no more of them than the index has columns, find ends and returns, in the order of the tree,
-- what follows the columns of the index in each entry of the whole tree that begins with the
-- values, which for fewer values than columns need not be the ascending order of primary keys; the
-- store of the index stays the same.
pub find-select :
    (indexed_value : Key) (shape : Tree tree) (c : Store) (i : Index)
    → IsIndex c shape i
    → All IsOrdered indexed_value
    → is_indexable indexed_value ≡ true
    → length indexed_value ≤ arity i
    → (i' : Index) × (find indexed_value i
        ≡ (ok (tails (arity i) (select (has_prefix indexed_value) (entries shape))), i'))
      × IsIndex c shape i'
unfolding find find_entries on_tree
find-select indexed_value shape c i h order indexable short =
    let (t', r, h') =
      prefix_scan-select indexed_value shape c i.btree h.holds h.at h.ordered h.sorted h.chain
        h.enough h.few order in
    (record i { btree = t' }, rw (indexable, ltb-false _ _ short, r) refl, after_scan i h t' h')

-- All entries that begin with the values are those of the row; or one is another row's.
abbrev pub AllOfRow : Key → Key → List LeafEntry → Type 0
AllOfRow indexed_value primary_key =
    All (λ (e : LeafEntry). key_eq (drop (length indexed_value) e.key) primary_key ≡ true)

is_taken-false :
    (indexed_value primary_key : Key) (es : List LeafEntry)
    → is_taken indexed_value primary_key es ≡ false
    → AllOfRow indexed_value primary_key es
unfolding is_taken
is_taken-false indexed_value primary_key [] h = tt
is_taken-false indexed_value primary_key (e ∷ es) h =
    elim (Bool-cases (key_eq (drop (length indexed_value) e.key) primary_key)) [
      | inl x ↦ (x, is_taken-false indexed_value primary_key es (rw x at h))
      | inr x ↦ let y : true ≡ false = rw x at h in cc
    ]

is_taken-true :
    (indexed_value primary_key : Key) (es : List LeafEntry)
    → is_taken indexed_value primary_key es ≡ true
    → AllOfRow indexed_value primary_key es
    → ⊥
unfolding is_taken
is_taken-true indexed_value primary_key [] h a = cc
is_taken-true indexed_value primary_key (e ∷ es) h (x, a) =
    is_taken-true indexed_value primary_key es (rw x at h) a

-- On a unique index whose store holds a search tree with linked leaves, for values without NaN,
-- with NULL or without: check_unique returns where every entry of the tree that begins with the
-- values goes on with exactly the primary key, and else throws; the store of the index stays the
-- same.
pub check_unique_cases :
    (indexed_value primary_key : Key) (shape : Tree tree) (c : Store) (i : Index)
    → IsIndex c shape i
    → All IsOrdered indexed_value
    → (i.schema).is_unique ≡ true
    → (i' : Index) × IsIndex c shape i'
      × (((check_unique indexed_value primary_key i ≡ (ok tt, i'))
            × AllOfRow indexed_value primary_key
                (select (has_prefix indexed_value) (entries shape)))
          ⊎ ((check_unique indexed_value primary_key i ≡ (err unique_violation, i'))
              × (AllOfRow indexed_value primary_key
                    (select (has_prefix indexed_value) (entries shape))
                  → ⊥)))
unfolding check_unique check_existing on_tree
check_unique_cases indexed_value primary_key shape c i h order unique =
    let (t', r, h') =
      prefix_scan-select indexed_value shape c i.btree h.holds h.at h.ordered h.sorted h.chain
        h.enough h.few order in
    let same : IsIndex c shape (record i { btree = t' }) = after_scan i h t' h' in
    let found : List LeafEntry = select (has_prefix indexed_value) (entries shape) in
    elim (Bool-cases (is_taken indexed_value primary_key found)) [
      | inl x ↦ (
        record i { btree = t' },
        same,
        inr (rw (unique, r, x) refl, is_taken-true indexed_value primary_key found x),
      )
      | inr x ↦ (
        record i { btree = t' },
        same,
        inl (rw (unique, r, x) refl, is_taken-false indexed_value primary_key found x),
      )
    ]
