-- ===== src/Btree/Tree/Erase.antt =====
-- `remove` where the leaf stays full enough, and the two exceptions that leave the tree alone.
use gs_dbengine.Base.{
  ℕ, ◌+◌, ◌-◌, ◌^◌, ◌≤◌, ◌<◌, ◌≡◌, ◌⊎◌, refl, ap, sym, ◌∙◌, inl, inr, Bool, true, false, List,
  Bytes, length, All, none, some, ok, err, ◌==◌, Bool-cases, arith, duplicate_key, key_not_found,
  ltb, ==_refl,
}
use gs_dbengine.Storage.Page.{Page, page_size}
use gs_dbengine.Row.Order.{IsOrdered}
use gs_dbengine.Wal.{begin}
use gs_dbengine.Btree.Key.{Key}
use gs_dbengine.Btree.Node.{
  LeafEntry, find_entry, leaf_cell, node_header_size, find_in_leaf, is_underfull,
}
use gs_dbengine.Btree.Tree.{BTree}
use gs_dbengine.Btree.Tree.Edit.{inspect_leaf, erase_from_leaf, is_some, leaf_key, erase_key}
use gs_dbengine.Btree.Tree.Insert.{insert, insert_in}
use gs_dbengine.Btree.Tree.Store.{Store, Holds, put, read_page-Holds, change_page-Holds}
use gs_dbengine.Btree.Tree.Sorted.{space, All-erase_key, find_entry-erase_key}
use gs_dbengine.Btree.Tree.Packed.{IsPacked, entry, inspect_leaf_lem, erase_from_leaf-IsPacked}
use gs_dbengine.Btree.Tree.Shape.{tree, Tree, entries, route}
use gs_dbengine.Btree.Tree.Lookup.{find_leaf_page-route, find_entry-route}
use gs_dbengine.Btree.Tree.Transact.{started, LogsChange, begin-Holds, put-IsLogged}
use gs_dbengine.Btree.Tree.Change.{find_leaf_page-lem, started-IsTree, route-IsOrdered}
use gs_dbengine.Btree.Tree.Remove.{remove, remove_in, remove_from_leaf, check_leaf}
use gs_dbengine.Btree.Tree.Maps.{IsTree, Updated, commit-Updated}

-- An insert of a key that the tree holds throws, and no page, no pin and nothing of the header
-- changes; of the log only the transaction has begun.
pub insert-duplicate_key :
    (key : Key) (value old : Bytes) (shape : Tree tree) (c : Store) (t : BTree)
    → Holds c t
    → IsTree c shape
    → All IsOrdered key
    → length (leaf_cell (entry key value)) < 2 ^ 32
    → find_entry key (entries shape) ≡ some old
    → (t' : BTree) × (insert key value t ≡ (err duplicate_key, t')) × Holds (started c) t'
unfolding insert insert_in started
insert-duplicate_key key value old shape c t h tr hk small here =
    let txn : ℕ = (c.wal).next_transaction_id in
    let leaf_id : ℕ = (route key c.root shape).0 in
    let es : List LeafEntry = (route key c.root shape).1 in
    let (t0, r0, h0, l0) = begin-Holds c t h in
    let (t1, r1, h1, inside, packed) =
      find_leaf_page-lem key shape (started c) t0 h0 (started-IsTree c shape tr) in
    let present : find_entry key es ≡ some old =
      find_entry-route key c.root shape hk tr.ordered ∙ here in
    let overflow : Bool =
      ltb (page_size - node_header_size) (space es + length (leaf_cell (entry key value))) in
    let seen : inspect_leaf key value (c.pages leaf_id) ≡ ok (true, overflow) =
      inspect_leaf_lem key value es (c.pages leaf_id) packed small
      ∙ (unfold is_some in rw present refl) in
    let (t2, r2, h2) =
      read_page-Holds leaf_id (inspect_leaf key value) (true, overflow) (started c) t1 h1 inside
        seen in
    (t2, rw (r0, r1, r2) refl, h2)

-- A remove of a key that the tree does not hold throws, and no page, no pin and nothing of the
-- header changes; of the log only the transaction has begun.
pub remove-key_not_found :
    (key : Key) (shape : Tree tree) (c : Store) (t : BTree)
    → Holds c t
    → IsTree c shape
    → All IsOrdered key
    → find_entry key (entries shape) ≡ none
    → (t' : BTree) × (remove key t ≡ (err key_not_found, t')) × Holds (started c) t'
unfolding remove remove_in is_some started
remove-key_not_found key shape c t h tr hk gone =
    let leaf_id : ℕ = (route key c.root shape).0 in
    let es : List LeafEntry = (route key c.root shape).1 in
    let (t0, r0, h0, l0) = begin-Holds c t h in
    let tr0 : IsTree (started c) shape = started-IsTree c shape tr in
    let (p, t1, r1, h1, at) = find_leaf_page-route key shape (started c) t0 h0 tr0.at tr0.enough in
    let read : find_in_leaf key ((started c).pages (route key (started c).root shape).0) ≡ ok none =
      unfold find_in_leaf in
      rw (at.1).read (ap ok (find_entry-route key c.root shape hk tr.ordered ∙ gone)) in
    let (t2, r2, h2) =
      read_page-Holds (route key (started c).root shape).0 (find_in_leaf key) none (started c) t1 h1
        at.0 read in
    (t2, rw (r0, r1, r2) refl, h2)

half-IsPacked :
    (es : List LeafEntry) (page : Page)
    → IsPacked es page
    → 2039 ≤ space es
    → is_underfull page ≡ false
unfolding is_underfull
half-IsPacked es page p h = let l = p.room in rw p.pointer (ground arith)

-- A leaf that is the root, or full enough, is left alone.
check_leaf_lem :
    (txn leaf_id : ℕ) (path : List ℕ) (es : List LeafEntry) (c : Store) (t : BTree)
    → Holds c t
    → leaf_id < c.total
    → IsPacked es (c.pages leaf_id)
    → (leaf_id ≡ c.root) ⊎ (2039 ≤ space es)
    → (t' : BTree) × (check_leaf txn leaf_id path t ≡ (ok tt, t')) × Holds c t'
unfolding check_leaf
check_leaf_lem txn leaf_id path es c t h inside p (inl e) =
    let same : leaf_id == t.root_page ≡ true =
      ap (λ (n : ℕ). n == t.root_page) (e ∙ sym h.root_eq) ∙ ==_refl t.root_page in
    (t, rw same refl, h)
check_leaf_lem txn leaf_id path es c t h inside p (inr full) =
    elim (Bool-cases (leaf_id == t.root_page)) [
      | inl e ↦ (t, rw e refl, h)
      | inr e ↦
          let (t', r, h') =
            read_page-Holds leaf_id (λ page. ok (is_underfull page)) false c t h inside
              (ap ok (half-IsPacked es (c.pages leaf_id) p full)) in
          (t', rw (e, r) refl, h')
    ]

-- In a tree of pages that holds the key, which has no NaN, on a pool with no pins, where the leaf
-- that the key leads to is the root or stays at least half full, remove returns; the log, durable
-- whole, has grown by the WRITE record of that leaf as it is now and by the COMMIT record of the
-- transaction, no other page has changed, and the pages hold a search tree that maps the key to
-- nothing and every other key as before.
pub remove-Updated :
    (key : Key) (old : Bytes) (shape : Tree tree) (c : Store) (t : BTree)
    → Holds c t
    → IsTree c shape
    → All IsOrdered key
    → find_entry key (entries shape) ≡ some old
    → ((route key c.root shape).0 ≡ c.root)
      ⊎ (2039 ≤ space (erase_key leaf_key key (route key c.root shape).1))
    → (t' : BTree) × (remove key t ≡ (ok tt, t'))
      × (u : Updated key none shape t') × LogsChange
          (c.wal).next_transaction_id
          (route key c.root shape).0
          c
          u.store
unfolding remove remove_in remove_from_leaf is_some started begin
remove-Updated key old shape c t h tr hk here full =
    let txn : ℕ = (c.wal).next_transaction_id in
    let leaf_id : ℕ = (route key c.root shape).0 in
    let es : List LeafEntry = (route key c.root shape).1 in
    let (t0, r0, h0, l0) = begin-Holds c t h in
    let tr0 : IsTree (started c) shape = started-IsTree c shape tr in
    let (path, t1, r1, h1, (inside, packed)) =
      find_leaf_page-route key shape (started c) t0 h0 tr0.at tr0.enough in
    let read : find_in_leaf key (c.pages leaf_id) ≡ ok (some old) =
      unfold find_in_leaf in
      rw packed.read (ap ok (find_entry-route key c.root shape hk tr.ordered ∙ here)) in
    let (t2, r2, h2) =
      read_page-Holds leaf_id (find_in_leaf key) (some old) (started c) t1 h1 inside read in
    let (page, erased, packed', next) = erase_from_leaf-IsPacked key es (c.pages leaf_id) packed in
    let (t3, r3, h3) =
      change_page-Holds txn leaf_id (erase_from_leaf key) page (started c) t2 h2 inside
        packed'.is_page erased in
    let c3 : Store = put txn leaf_id page (started c) in
    let (t4, r4, h4) =
      check_leaf_lem txn leaf_id path (erase_key leaf_key key es) c3 t3 h3 (unfold put in inside)
        (unfold put in rw (==_refl leaf_id) packed') (unfold put in full) in
    let (t5, r5, u, logs) =
      commit-Updated txn key none (erase_key leaf_key key es) page shape (started c) t4 tr0 h4
        (put-IsLogged txn leaf_id page (started c) l0 inside packed'.is_page) hk packed'
        (λ P p all. All-erase_key (λ (e : LeafEntry). P e.key) key es all)
        (λ k hq.
          find_entry-erase_key k key es hq hk (route-IsOrdered key c.root shape tr.ordered)) in
    (t5, rw (r0, r1, r2, r3, r4) r5, u, logs)
