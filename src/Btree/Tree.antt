-- ===== src/Btree/Tree.antt =====
-- src/btree/btree.h and btree.cpp: the B+tree. Its state is the objects that it refers to, which are
-- those of the free list, and `root_page_`. A method that the source writes with a `Page*` takes the
-- slot of the frame that the pointer points into.
pub mod Scan
pub mod Edit
pub mod Insert
pub mod Siblings
pub mod Rebalance
pub mod Remove
pub mod Store
pub mod Sorted
pub mod Packed
pub mod Shape
pub mod Lookup
pub mod Transact
pub mod Graft
pub mod Maps
pub mod Change
pub mod Erase
pub mod Chain
pub mod Range
pub mod Prefix
use gs_dbengine.Base.{
  ℕ, zero, suc, ◌+◌, ◌-◌, ◌%◌, ◌^◌, Bool, true, false, List, [], ◌∷◌, ◌++◌, Bytes, length, Option,
  Result, ok, err, if◌then◌else◌, out_of_fuel, none, some,
}
use gs_dbengine.Base.Action.{Action, done, throw, attempt, ◌>>=◌, ◌>>◌, continue}
use gs_dbengine.Storage.Page.{Page}
use gs_dbengine.Storage.Pool.{Pool, fetch_page, unpin_page, write_frame, total_pages}
use gs_dbengine.Wal.{Wal, Engine, begin, write, commit}
use gs_dbengine.Header.{HeaderManager, with_pool}
use gs_dbengine.FreeList.{allocate_page, free_page}
use gs_dbengine.Btree.Key.{Key, encode}
use gs_dbengine.Btree.Node.{
  NodeType, leaf, init_node, is_leaf, find_child_for_key, find_in_leaf, LeafEntry, InternalEntry,
}

pub record BTree : Type 0 where
  pub manager : HeaderManager
  pub root_page : ℕ

abbrev pub pool_of : BTree → Pool
pool_of t = ((t.manager).engine).pool

unfoldable pub with_tree_pool : Pool → BTree → BTree
unfolding with_pool
with_tree_pool p t = record t { manager = with_pool p t.manager }

unfoldable pub with_wal : Wal → BTree → BTree
with_wal w t = record t {
  manager = record t.manager { engine = record (t.manager).engine { wal = w } };
}

abbrev with_manager : {A : Type 0} → BTree → Result A × HeaderManager → Result A × BTree
with_manager t (r, m) = (r, record t { manager = m })

-- The calls of the buffer pool, the log and the free list.
unfoldable pub fetch : ℕ → Action BTree ℕ
unfolding with_tree_pool
fetch page_id t = let (r, p) = fetch_page page_id (pool_of t) in (r, with_tree_pool p t)

unfoldable pub unpin : ℕ → Bool → Action BTree Unit
unfolding with_tree_pool
unpin page_id dirty t = (ok tt, with_tree_pool (unpin_page page_id dirty (pool_of t)) t)

-- `*page`, and an assignment through it
unfoldable pub contents : ℕ → Action BTree Page
contents slot t = (ok ((pool_of t).frames slot).page, t)

unfoldable pub assign : ℕ → Page → Action BTree Unit
unfolding with_tree_pool
assign slot page t = (ok tt, with_tree_pool (write_frame slot page (pool_of t)) t)

unfoldable pub begin_transaction : Action BTree ℕ
unfolding with_wal
begin_transaction t =
    let (transaction_id, w) = begin ((t.manager).engine).wal in (ok transaction_id, with_wal w t)

unfoldable pub commit_transaction : ℕ → Action BTree Unit
commit_transaction transaction_id t =
    let (r, e) = commit transaction_id (t.manager).engine in
    (r, record t { manager = record t.manager { engine = e } })

-- `write_page_through_wal`: the page as the frame holds it by then.
unfoldable pub write_page_through_wal : ℕ → ℕ → ℕ → Action BTree Unit
unfolding with_wal
write_page_through_wal transaction_id page_id slot t = (
  ok tt,
  with_wal (write transaction_id page_id ((pool_of t).frames slot).page ((t.manager).engine).wal) t,
)

-- `BTree::allocate_page`: the page id and the slot
unfoldable pub allocate : ℕ → Action BTree (ℕ × ℕ)
allocate transaction_id t = with_manager t (allocate_page transaction_id t.manager)

unfoldable pub free : ℕ → ℕ → Action BTree Unit
free transaction_id page_id t = with_manager t (free_page transaction_id page_id t.manager)

abbrev pub get_root : Action BTree ℕ
get_root t = (ok t.root_page, t)

unfoldable pub set_root : ℕ → Action BTree Unit
set_root page_id t = (ok tt, record t { root_page = page_id })

unfoldable pub create_empty_root : Action BTree Unit
create_empty_root = do
  transaction_id ← begin_transaction
  (page_id, slot) ← allocate transaction_id
  assign slot (init_node leaf)
  unpin page_id true
  write_page_through_wal transaction_id page_id slot
  commit_transaction transaction_id
  set_root page_id

-- The casts to uint32_t and the sum wrap.
unfoldable pub leaf_entry_size : Key → Bytes → ℕ
leaf_entry_size key value = (length (encode key) % 2 ^ 32 + 4 + length value % 2 ^ 32) % 2 ^ 32

unfoldable pub internal_entry_size : Key → ℕ
internal_entry_size key = (length (encode key) % 2 ^ 32 + 4) % 2 ^ 32

-- What the methods do with a page that they only read: it is fetched, read and unpinned. It stays
-- pinned where a node cannot be read.
unfoldable pub read_page : {A : Type 0} → ℕ → (Page → Result A) → Action BTree A
read_page page_id read = do
  slot ← fetch page_id
  page ← contents slot
  a ← attempt (read page)
  unpin page_id false
  done a

-- And with a page that they change: it is fetched, changed, unpinned and logged.
unfoldable pub update_page : {A : Type 0} → ℕ → ℕ → (Page → Result (A × Page)) → Action BTree A
update_page transaction_id page_id update = do
  slot ← fetch page_id
  page ← contents slot
  (a, new) ← attempt (update page)
  assign slot new
  unpin page_id true
  write_page_through_wal transaction_id page_id slot
  done a

unfoldable pub changed : Result Page → Result (Unit {0} × Page)
changed (err e) = err e
changed (ok page) = ok (tt, page)

unfoldable pub change_page : ℕ → ℕ → (Page → Result Page) → Action BTree Unit
change_page transaction_id page_id change =
    update_page transaction_id page_id (λ page. changed (change page))

unfoldable pub child_of : Result ℕ → Result (Option ℕ)
child_of (err e) = err e
child_of (ok child) = ok (some child)

-- One round of `find_leaf_page_with_path`: the child to go on with, or `none` in a leaf.
unfoldable pub next_child : Key → Page → Result (Option ℕ)
next_child key page = if is_leaf page then ok none else child_of (find_child_for_key key page)

unfoldable pub go_down :
    (ℕ → List ℕ → Action BTree (ℕ × List ℕ)) → ℕ → List ℕ → Option ℕ → Action BTree (ℕ × List ℕ)
go_down go current path none = done (current, path)
go_down go current path (some child) = go child (path ++ current ∷ [])

unfoldable pub descend : ℕ → Key → ℕ → List ℕ → Action BTree (ℕ × List ℕ)
descend zero key current path = throw out_of_fuel
descend (suc fuel) key current path = do
  child ← read_page current (next_child key)
  go_down (descend fuel key) current path child

-- The fuel of a walk down or along the tree: a tree has no more pages than its file.
unfoldable pub tree_fuel : BTree → ℕ
tree_fuel t = suc (total_pages (pool_of t))

unfoldable pub find_leaf_page_with_path : Key → Action BTree (ℕ × List ℕ)
find_leaf_page_with_path key t = descend (tree_fuel t) key t.root_page [] t

unfoldable pub find_leaf_page : Key → Action BTree ℕ
find_leaf_page key = do (page_id, path) ← find_leaf_page_with_path key; done page_id

unfoldable pub search : Key → Action BTree (Option Bytes)
search key = do leaf_page_id ← find_leaf_page key; read_page leaf_page_id (find_in_leaf key)
