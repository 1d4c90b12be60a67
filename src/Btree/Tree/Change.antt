-- ===== src/Btree/Tree/Change.antt =====
-- Insert and remove where the leaf has room and stays full enough: the tree as a map.
use gs_dbengine.Base.{
  ℕ, ◌+◌, ◌-◌, ◌≤◌, ◌<◌, ◌≡◌, refl, ◌∙◌, inl, inr, false, List, [], ◌∷◌, ◌++◌, Bytes, length, All,
  All-append, none, some, ok, if◌then◌else◌, Bool-cases, arith, ltb-false,
}
use gs_dbengine.Storage.Page.{page_size}
use gs_dbengine.Row.Order.{IsOrdered}
use gs_dbengine.Wal.{Wal, begin}
use gs_dbengine.Btree.Key.{Key, key_lt, key_eq}
use gs_dbengine.Btree.Node.{LeafEntry, find_entry, leaf_cell, node_header_size}
use gs_dbengine.Btree.Node.RoundTrip.{FitsLeaf}
use gs_dbengine.Btree.Tree.{BTree, find_leaf_page}
use gs_dbengine.Btree.Tree.Edit.{inspect_leaf, add_to_leaf, is_some, sort, leaf_key}
use gs_dbengine.Btree.Tree.Insert.{insert, insert_in, leaf_with_room, insert_into_leaf}
use gs_dbengine.Btree.Tree.Store.{Store, Holds, read_page-Holds, change_page-Holds}
use gs_dbengine.Btree.Tree.Sorted.{space, HasOrder, find_entry-sort, find_entry-new, All-sort}
use gs_dbengine.Btree.Tree.Packed.{IsPacked, entry, inspect_leaf_lem, add_to_leaf-IsPacked}
use gs_dbengine.Btree.Tree.Shape.{
  Kind, tree, Tree, leaf, node, last, more, entries, IsAt, IsSearchTree, route,
}
use gs_dbengine.Btree.Tree.Lookup.{find_leaf_page-route, find_entry-route}
use gs_dbengine.Btree.Tree.Transact.{started, LogsChange, begin-Holds, put-IsLogged}
use gs_dbengine.Btree.Tree.Maps.{IsTree, Updated, commit-Updated}
use gs_dbengine.Btree.Tree.Graft.{Keeps}

-- The search part of `insert` and `remove`.
pub find_leaf_page-lem :
    (key : Key) (shape : Tree tree) (c : Store) (t : BTree)
    → Holds c t
    → IsTree c shape
    → (t' : BTree) × (find_leaf_page key t ≡ (ok (route key c.root shape).0, t'))
      × Holds c t'
      × ((route key c.root shape).0 < c.total)
      × IsPacked (route key c.root shape).1 (c.pages (route key c.root shape).0)
unfolding find_leaf_page
find_leaf_page-lem key shape c t h tr =
    let (p, t', r, h', at) = find_leaf_page-route key shape c t h tr.at tr.enough in
    (t', rw r refl, h', at.0, at.1)

-- The log has no part in the tree.
IsAt-wal :
    {κ : Kind} (c : Store) (w : Wal) (id : ℕ) (shape : Tree κ)
    → IsAt c id shape
    → IsAt (record c { wal = w }) id shape
IsAt-wal c w id (leaf es) h = h
IsAt-wal c w id (node f) (a, b, d, e, h) = (a, b, d, e, IsAt-wal c w id f h)
IsAt-wal c w id (last child t) h = IsAt-wal c w child t h
IsAt-wal c w id (more child t s f) (h, g) = (IsAt-wal c w child t h, IsAt-wal c w id f g)

pub started-IsTree : (c : Store) (shape : Tree tree) → IsTree c shape → IsTree (started c) shape
unfolding started
started-IsTree c shape h = record {
  at = IsAt-wal c (begin c.wal).1 c.root shape h.at;
  ordered = h.ordered;
  apart = h.apart;
  enough = h.enough;
}

-- A leaf of a search tree.
pub route-IsOrdered :
    {κ : Kind} (key : Key) (id : ℕ) (shape : Tree κ)
    → IsSearchTree shape
    → HasOrder (route key id shape).1
route-IsOrdered key id (leaf es) h = h
route-IsOrdered key id (node f) h = route-IsOrdered key id f h
route-IsOrdered key id (last c t) h = route-IsOrdered key c t h
route-IsOrdered key id (more c t s f) (hs, below, above, h, g) = elim (Bool-cases (key_lt key s)) [
  | inl x ↦ rw x (route-IsOrdered key c t h)
  | inr x ↦ rw x (route-IsOrdered key id f g)
]

sorted-Keeps :
    (key : Key) (value : Bytes) (es : List LeafEntry)
    → Keeps key es (sort leaf_key (es ++ entry key value ∷ []))
sorted-Keeps key value es P p h =
    All-sort (λ (e : LeafEntry). P e.key) (es ++ entry key value ∷ [])
      (All-append (λ (e : LeafEntry). P e.key) es (entry key value ∷ []) h (p, tt))

sorted-find_entry :
    (key k : Key) (value : Bytes) (es : List LeafEntry)
    → All IsOrdered key
    → All IsOrdered k
    → HasOrder es
    → find_entry key es ≡ none
    → find_entry k (sort leaf_key (es ++ entry key value ∷ []))
      ≡ (if key_eq key k then some value else find_entry k es)
sorted-find_entry key k value es hk hq h e =
    find_entry-sort k (es ++ entry key value ∷ []) hq
      (All-append _ es (entry key value ∷ []) h (hk, tt))
    ∙ find_entry-new k (entry key value) es hq hk h e

pub insert-Updated :
    (key : Key) (value : Bytes) (shape : Tree tree) (c : Store) (t : BTree)
    → Holds c t
    → IsTree c shape
    → All IsOrdered key
    → FitsLeaf (entry key value)
    → find_entry key (entries shape) ≡ none
    → space (route key c.root shape).1 + length (leaf_cell (entry key value))
      ≤ page_size - node_header_size
    → (t' : BTree) × (insert key value t ≡ (ok tt, t'))
      × (u : Updated key (some value) shape t') × LogsChange
          (c.wal).next_transaction_id
          (route key c.root shape).0
          c
          u.store
unfolding insert insert_in leaf_with_room insert_into_leaf started begin
insert-Updated key value shape c t h tr hk fits new room =
    let leaf_id : ℕ = (route key c.root shape).0 in
    let es : List LeafEntry = (route key c.root shape).1 in
    let txn : ℕ = (c.wal).next_transaction_id in
    let (t0, r0, h0, l0) = begin-Holds c t h in
    let tr0 : IsTree (started c) shape = started-IsTree c shape tr in
    let (t1, r1, h1, inside, packed) = find_leaf_page-lem key shape (started c) t0 h0 tr0 in
    let absent_here : find_entry key es ≡ none =
      find_entry-route key c.root shape hk tr.ordered ∙ new in
    let seen : inspect_leaf key value (c.pages leaf_id) ≡ ok (false, false) =
      inspect_leaf_lem key value es (c.pages leaf_id) packed (omega arith)
      ∙ (unfold is_some in rw (absent_here, ltb-false _ _ room) refl) in
    let (t2, r2, h2) =
      read_page-Holds leaf_id (inspect_leaf key value) (false, false) (started c) t1 h1 inside
        seen in
    let (page, added, packed', next) =
      add_to_leaf-IsPacked key value es (c.pages leaf_id) packed fits room in
    let (t3, r3, h3) =
      change_page-Holds txn leaf_id (add_to_leaf key value) page (started c) t2 h2 inside
        packed'.is_page added in
    let (t4, r4, u, logs) =
      commit-Updated txn key (some value) (sort leaf_key (es ++ entry key value ∷ [])) page shape
        (started c) t3 tr0 h3 (put-IsLogged txn leaf_id page (started c) l0 inside packed'.is_page)
        hk packed' (sorted-Keeps key value es)
        (λ k hq.
          sorted-find_entry key k value es hk hq (route-IsOrdered key c.root shape tr.ordered)
            absent_here) in
    (t4, rw (r0, r1, r2, r3) r4, u, logs)
