-- ===== src/Btree/Tree/Maps.antt =====
-- A tree as a map from keys to values, and what replacing a leaf makes of it.
use gs_dbengine.Base.{
  ℕ, ◌≤◌, ◌≡◌, refl, ap, sym, ◌∙◌, inl, inr, Bool, true, false, List, [], ◌∷◌, ◌++◌, Bytes, All,
  Option, none, some, ok, if◌then◌else◌, ==_ne, ==_refl, Bool-cases,
}
use gs_dbengine.Storage.Page.{Page}
use gs_dbengine.Row.Order.{IsOrdered}
use gs_dbengine.Btree.Key.{Key, key_lt, key_eq, key-IsOrder}
use gs_dbengine.Btree.Node.{LeafEntry, find_entry}
use gs_dbengine.Btree.Tree.{BTree, commit_transaction}
use gs_dbengine.Btree.Tree.Store.{Store, Holds, put}
use gs_dbengine.Btree.Tree.Packed.{IsPacked}
use gs_dbengine.Btree.Tree.Shape.{
  Kind, tree, Tree, leaf, node, last, more, entries, inner_nodes, IsAt, IsSearchTree, route,
}
use gs_dbengine.Btree.Tree.Lookup.{absent, entries-IsOrdered}
use gs_dbengine.Btree.Tree.Transact.{IsLogged, LogsChange, one_write_log, commit-Holds}
use gs_dbengine.Btree.Tree.Graft.{
  graft, IsApart, Keeps, IsAt-graft, IsApart-graft, IsSearchTree-graft, inner_nodes-graft,
}

abbrev or_entry : Option Bytes → Option Bytes → Option Bytes
or_entry none o = o
or_entry (some v) o = some v

find_entry-append :
    (k : Key) (xs ys : List LeafEntry)
    → find_entry k (xs ++ ys) ≡ or_entry (find_entry k xs) (find_entry k ys)
unfolding find_entry
find_entry-append k [] ys = refl
find_entry-append k (x ∷ xs) ys = elim (Bool-cases (key_eq x.key k)) [
  | inl e ↦ rw e refl
  | inr e ↦ rw e (find_entry-append k xs ys)
]

or_entry-left :
    (b : Bool) (v x y : Option Bytes)
    → (b ≡ true → y ≡ none)
    → or_entry (if b then v else x) y ≡ (if b then v else or_entry x y)
or_entry-left true none x y h = h refl
or_entry-left true (some v) x y h = refl
or_entry-left false v x y h = refl

or_entry-right :
    (b : Bool) (v x y : Option Bytes)
    → (b ≡ true → x ≡ none)
    → or_entry x (if b then v else y) ≡ (if b then v else or_entry x y)
or_entry-right true v x y h = rw (h refl) refl
or_entry-right false v x y h = refl

-- What a lookup sees of the replaced leaf, it sees of the tree.
pub find_entry-graft :
    {κ : Kind} (key k : Key) (v : Option Bytes) (new : List LeafEntry) (id : ℕ) (shape : Tree κ)
    → All IsOrdered key
    → All IsOrdered k
    → IsSearchTree shape
    → find_entry k new ≡ (if key_eq key k then v else find_entry k (route key id shape).1)
    → find_entry k (entries (graft key new shape))
      ≡ (if key_eq key k then v else find_entry k (entries shape))
find_entry-graft key k v new id (leaf es) hk hq h e = e
find_entry-graft key k v new id (node f) hk hq h e = find_entry-graft key k v new id f hk hq h e
find_entry-graft key k v new id (last c t) hk hq h e = find_entry-graft key k v new c t hk hq h e
find_entry-graft key k v new id (more c t s f) hk hq (hs, below, above, h, g) e =
    let same : key_eq key k ≡ true → key_lt k s ≡ key_lt key s =
      λ x. sym (key-IsOrder.eq_lt key k s hk hq hs x) in
    elim (Bool-cases (key_lt key s)) [
      | inl x ↦ rw x (
          find_entry-append k (entries (graft key new t)) (entries f)
          ∙ ap (λ o. or_entry o (find_entry k (entries f)))
              (find_entry-graft key k v new c t hk hq h (rw x at e))
          ∙ or_entry-left (key_eq key k) v (find_entry k (entries t)) (find_entry k (entries f))
              (λ y. absent k hq s false (entries f) hs (entries-IsOrdered f g) above (same y ∙ x))
          ∙ ap (λ o. if key_eq key k then v else o)
              (sym (find_entry-append k (entries t) (entries f))))
      | inr x ↦ rw x (
          find_entry-append k (entries t) (entries (graft key new f))
          ∙ ap (or_entry (find_entry k (entries t)))
              (find_entry-graft key k v new id f hk hq g (rw x at e))
          ∙ or_entry-right (key_eq key k) v (find_entry k (entries t)) (find_entry k (entries f))
              (λ y. absent k hq s true (entries t) hs (entries-IsOrdered t h) below (same y ∙ x))
          ∙ ap (λ o. if key_eq key k then v else o)
              (sym (find_entry-append k (entries t) (entries f))))
    ]

-- A tree that the pages of a store hold.
pub record IsTree (c : Store) (shape : Tree tree) : Type 0 where
  pub at : IsAt c c.root shape
  pub ordered : IsSearchTree shape
  pub apart : IsApart c.root shape
  pub enough : inner_nodes shape ≤ c.total

-- The tree holds `v` at the key, and else what it held.
pub record Updated (key : Key) (v : Option Bytes) (shape : Tree tree) (t' : BTree) : Type 0 where
  pub store : Store
  pub new_shape : Tree tree
  pub holds : Holds store t'
  pub is_tree : IsTree store new_shape
  pub maps :
      (k : Key)
      → All IsOrdered k
      → find_entry k (entries new_shape)
        ≡ (if key_eq key k then v else find_entry k (entries shape))

-- The commit of a transaction that replaced the leaf that the key leads to.
pub commit-Updated :
    (transaction_id : ℕ) (key : Key) (v : Option Bytes) (new : List LeafEntry) (page : Page)
    (shape : Tree tree) (c : Store) (t : BTree)
    → IsTree c shape
    → Holds (put transaction_id (route key c.root shape).0 page c) t
    → IsLogged (put transaction_id (route key c.root shape).0 page c)
    → All IsOrdered key
    → IsPacked new page
    → Keeps key (route key c.root shape).1 new
    → ((k : Key)
        → All IsOrdered k
        → find_entry k new ≡ (if key_eq key k then v else find_entry k (route key c.root shape).1))
    → (t' : BTree) × (commit_transaction transaction_id t ≡ (ok tt, t'))
      × (u : Updated key v shape t') × LogsChange transaction_id
          (route key c.root shape).0
          c
          u.store
unfolding put
commit-Updated transaction_id key v new page shape c t tr h l hk p keep finds =
    let leaf_id : ℕ = (route key c.root shape).0 in
    let (w, t', r, h', grown, synced) =
      commit-Holds transaction_id (put transaction_id leaf_id page c) t h l in
    (
      t',
      r,
      record {
        store = record (put transaction_id leaf_id page c) { wal = w };
        new_shape = graft key new shape;
        holds = h';
        is_tree = record {
          at =
              IsAt-graft c (record (put transaction_id leaf_id page c) { wal = w }) leaf_id new refl
                (λ j ne. rw (==_ne j leaf_id (λ x. ne (sym x))) refl) (rw (==_refl leaf_id) p) key
                c.root shape refl tr.apart tr.at;
          ordered = IsSearchTree-graft key new c.root shape keep hk tr.ordered;
          apart = IsApart-graft key new c.root shape tr.apart;
          enough = rw (inner_nodes-graft key new shape) tr.enough;
        };
        maps = λ k hq. find_entry-graft key k v new c.root shape hk hq tr.ordered (finds k hq);
      },
      (
        rw (==_refl leaf_id) (grown ∙ one_write_log transaction_id leaf_id page c.wal),
        synced,
        λ j ne. rw (==_ne j leaf_id ne) refl,
      ),
    )
