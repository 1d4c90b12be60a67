-- ===== src/Table/Delete.antt =====
-- What delete_row leaves in a table without indexes, seen through select_by_key.
use gs_dbengine.Base.{ℕ, ◌≡◌, ◌≤◌, refl, Bytes, All, none, some, ok, ◌⊎◌, false}
use gs_dbengine.Base.Action.{continue}
use gs_dbengine.Row.{Row}
use gs_dbengine.Row.Order.{IsOrdered}
use gs_dbengine.Row.Serializer.{deserialize}
use gs_dbengine.Catalog.Schema.{TableSchema}
use gs_dbengine.Btree.Key.{Key, key_eq}
use gs_dbengine.Btree.Node.{find_entry}
use gs_dbengine.Btree.Tree.{BTree, begin_transaction, commit_transaction}
use gs_dbengine.Btree.Tree.Edit.{erase_key, leaf_key}
use gs_dbengine.Btree.Tree.Sorted.{space}
use gs_dbengine.Btree.Tree.Remove
use gs_dbengine.Btree.Tree.Store.{Store, Holds}
use gs_dbengine.Btree.Tree.Shape.{Tree, tree, entries, route}
use gs_dbengine.Btree.Tree.Maps.{IsTree}
use gs_dbengine.Btree.Tree.Erase.{remove-Updated}
use gs_dbengine.Table.{Table, on_btree}
use gs_dbengine.Table.Rows.{remove_row_and_indexes, on_indexes, each_index}
use gs_dbengine.Table.Update.{row_of, select_by_key, fetch_row, remove_row, delete_row}
use gs_dbengine.Table.Numbering.{plain}
use gs_dbengine.Table.Select.{IsDurable, continued, key_eq-same, select-find_entry}

remove_row-remove :
    (row : Row) (key : Key) (schema : TableSchema) (next : ℕ) (b b' : BTree)
    → Remove.remove key b ≡ (ok tt, b')
    → remove_row key row (plain schema next b) ≡ (ok tt, plain schema next b')
unfolding remove_row on_btree Remove.remove remove_row_and_indexes on_indexes each_index
remove_row-remove row key schema next b b' removed =
    let (id, b1, r1, rest) =
      continued (begin_transaction b)
        (λ (id : ℕ) (s : BTree).
          continue (Remove.remove_in id key s) (λ (u : Unit {0}). commit_transaction id))
        tt b' removed in
    let (u, b2, r2, r3) =
      continued (Remove.remove_in id key b1) (λ (u : Unit {0}). commit_transaction id) tt b' rest in
    rw (r1, r2, r3) refl

row_of-deserialize :
    (row : Row) (bytes : Bytes) (schema : TableSchema)
    → deserialize bytes schema ≡ ok row
    → row_of (some bytes) schema ≡ ok (some row)
unfolding row_of
row_of-deserialize row bytes schema read = rw read refl

row_of-none : (schema : TableSchema) → row_of none schema ≡ ok none
unfolding row_of
row_of-none schema = refl

-- In a table without indexes whose pages hold a search tree, on a pool with no pins: delete_row of
-- a key without NaN that the tree holds with the bytes of a row returns, where the leaf of the key
-- is the root or stays at least half full; the counter stays, the log, durable whole, has grown by
-- the WRITE record of that leaf as it is now and by the COMMIT record of the transaction, and no
-- other page has changed; select_by_key of the key then finds nothing, and select_by_key of every
-- other key without NaN what the tree had there.
pub select-delete_row :
    (row : Row) (key : Key) (bytes : Bytes) (schema : TableSchema) (next : ℕ) (shape : Tree tree)
    (c : Store) (b : BTree)
    → Holds c b
    → IsTree c shape
    → All IsOrdered key
    → find_entry key (entries shape) ≡ some bytes
    → deserialize bytes schema ≡ ok row
    → ((route key c.root shape).0 ≡ c.root)
      ⊎ (2039 ≤ space (erase_key leaf_key key (route key c.root shape).1))
    → (b' : BTree) × (delete_row key (plain schema next b) ≡ (ok tt, plain schema next b'))
      × IsDurable (c.wal).next_transaction_id (route key c.root shape).0 c b'
      × ((t'' : Table) × (select_by_key key (plain schema next b') ≡ (ok none, t'')))
      × ((k : Key)
          → All IsOrdered k
          → key_eq key k ≡ false
          → (t'' : Table) × (select_by_key k (plain schema next b')
              ≡ (row_of (find_entry k (entries shape)) schema, t'')))
unfolding delete_row fetch_row
select-delete_row row key bytes schema next shape c b h tr order here read full =
    let (b', r, h') = select-find_entry key schema next shape c b h tr order in
    let selected : select_by_key key (plain schema next b) ≡ (ok (some row), plain schema next b') =
      rw (here, row_of-deserialize row bytes schema read) at r in
    let (b'', r', u, logs) = remove-Updated key bytes shape c b' h' tr order here full in
    let (b3, r3, _) =
      select-find_entry key schema next u.new_shape u.store b'' u.holds u.is_tree order in
    (
      b'',
      rw selected (remove_row-remove row key schema next b' b'' r'),
      (u.store, u.holds, logs),
      (
        plain schema next b3,
        rw (u.maps key order, key_eq-same key order, row_of-none schema) at r3,
      ),
      λ k hk other.
          let (b4, r4, _) =
            select-find_entry k schema next u.new_shape u.store b'' u.holds u.is_tree hk in
          (plain schema next b4, rw (u.maps k hk, other) at r4),
    )
