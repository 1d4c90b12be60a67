-- ===== src/Table/Select.antt =====
-- What an insert leaves in a table without indexes, seen through select_by_key.
use gs_dbengine.Base.{
  ℕ, ◌≤◌, ◌-◌, ◌+◌, ◌≡◌, refl, ap, sym, ◌∙◌, inl, inr, true, false, [], Bytes, length, All, none,
  some, Result, ok, err, duplicate_key, append-nil, Bool-cases,
}
use gs_dbengine.Base.Action.{Action, continue}
use gs_dbengine.Storage.Page.{page_size}
use gs_dbengine.Row.{Row}
use gs_dbengine.Row.Order.{IsOrdered}
use gs_dbengine.Row.Serializer.{serialize, deserialize}
use gs_dbengine.Row.Serializer.RoundTrip.{deserialize-serialize}
use gs_dbengine.Row.Serializer.Marks.{FitsColumns}
use gs_dbengine.Catalog.Schema.{TableSchema}
use gs_dbengine.Btree.Key.{Key, key_eq, key_lt, key-IsOrder}
use gs_dbengine.Btree.Node.{leaf_cell, find_entry, node_header_size}
use gs_dbengine.Btree.Node.RoundTrip.{FitsLeaf}
use gs_dbengine.Btree.Tree.{BTree, search, begin_transaction, commit_transaction}
use gs_dbengine.Btree.Tree.Insert
use gs_dbengine.Btree.Tree.Sorted.{space}
use gs_dbengine.Btree.Tree.Packed.{entry}
use gs_dbengine.Btree.Tree.Store.{Store, Holds}
use gs_dbengine.Btree.Tree.Shape.{Tree, tree, entries, route}
use gs_dbengine.Btree.Tree.Lookup.{search-find_entry}
use gs_dbengine.Btree.Tree.Maps.{IsTree}
use gs_dbengine.Btree.Tree.Change.{insert-Updated}
use gs_dbengine.Table.{Table, on_btree, extract_primary_key}
use gs_dbengine.Table.Rows.{
  assign_key, advance_past, insert_row, insert, is_found, write_row_and_indexes,
  check_all_unique_constraints, on_indexes, each_index,
}
use gs_dbengine.Btree.Tree.Transact.{LogsChange}
use gs_dbengine.Table.Numbering.{plain, IsNumbered, assign_key-IsNumbered, advance_past-IsNumbered}
use gs_dbengine.Table.Update.{row_of, select_by_key}

-- The pages show a store in which one page has changed, by a transaction that is durable in the log.
abbrev pub IsDurable : ℕ → ℕ → Store → BTree → Type 0
IsDurable transaction_id id c t = (c' : Store) × Holds c' t × LogsChange transaction_id id c c'

pub key_eq-same : (key : Key) → All IsOrdered key → key_eq key key ≡ true
key_eq-same key h =
    let below : key_lt key key ≡ false = elim (Bool-cases (key_lt key key)) [
      | inl x ↦ key-IsOrder.asym key key h h x
      | inr x ↦ x
    ] in
    key-IsOrder.tie key key h h below below

-- What ran before a call that returned.
pub continued :
    {S A B : Type 0} (m : Result A × S) (next : A → Action S B) (b : B) (s : S)
    → continue m next ≡ (ok b, s)
    → (a : A) × (s' : S) × (m ≡ (ok a, s')) × (next a s' ≡ (ok b, s))
continued (err e, s') next b s h = cc
continued (ok a, s') next b s h = (a, s', refl, h)

pub select-find_entry :
    (key : Key) (schema : TableSchema) (next : ℕ) (shape : Tree tree) (c : Store) (b : BTree)
    → Holds c b
    → IsTree c shape
    → All IsOrdered key
    → (b' : BTree) × (select_by_key key (plain schema next b)
        ≡ (row_of (find_entry key (entries shape)) schema, plain schema next b'))
      × Holds c b'
unfolding select_by_key on_btree
select-find_entry key schema next shape c b h tr order =
    let (b', r, h') = search-find_entry key shape c b h tr.at tr.ordered tr.enough order in
    (b', rw r refl, h')

insert_row-insert :
    (row : Row) (key : Key) (bytes : Bytes) (schema : TableSchema) (next next' : ℕ)
    (b b' b'' : BTree)
    → search key b ≡ (ok none, b')
    → serialize row schema ≡ ok bytes
    → advance_past key (plain schema next b'') ≡ (ok tt, plain schema next' b'')
    → Insert.insert key bytes b' ≡ (ok tt, b'')
    → insert_row row key (plain schema next b) ≡ (ok key, plain schema next' b'')
unfolding insert_row on_btree Insert.insert write_row_and_indexes check_all_unique_constraints
    on_indexes each_index is_found
insert_row-insert row key bytes schema next next' b b' b'' missing written advances inserted =
    let (id, b1, r1, rest) =
      continued (begin_transaction b')
        (λ (id : ℕ) (s : BTree).
          continue (Insert.insert_in id key bytes s) (λ (u : Unit {0}). commit_transaction id))
        tt b'' inserted in
    let (u, b2, r2, r3) =
      continued (Insert.insert_in id key bytes b1) (λ (u : Unit {0}). commit_transaction id) tt b''
        rest in
    rw (missing, written, r1, r2, r3, advances) refl

row_of-serialize :
    (row : Row) (bytes : Bytes) (schema : TableSchema)
    → FitsColumns schema.columns row.values
    → serialize row schema ≡ ok bytes
    → row_of (some bytes) schema ≡ ok (some row)
unfolding row_of
row_of-serialize row bytes schema fits written =
    let (bytes', w, back) = deserialize-serialize row schema fits in
    let same : bytes' ≡ bytes = cc in
    let read : deserialize bytes schema ≡ ok row =
      ap (λ (xs : Bytes). deserialize xs schema) (sym same ∙ sym (append-nil bytes')) ∙ back [] in
    rw read refl

-- In a table without indexes whose pages hold a search tree, on a pool with no pins, a row is
-- inserted: a table that does not count stores the row and keeps its counter; one that counts
-- stores the row where its key is a number, and the counter moves to the next number, modulo 2 ^
-- 32, unless it is behind the key already, and where its key is NULL it stores the row with the
-- counter in its place, and the counter moves by one, modulo 2 ^ 32; where the key of the stored
-- row has no NULL and no NaN and is not in the table, its values fit the columns, and its entry is
-- within the widths of its length fields and has room in the leaf that the key leads to, insert
-- returns the key; the log, durable whole, has grown by the WRITE record of that leaf as it is now
-- and by the COMMIT record of the transaction, and no other page has changed; select_by_key of the
-- key then returns the stored row, and select_by_key of every other key without NaN what the tree
-- had there.
pub select-insert :
    (row stored : Row) (key : Key) (bytes : Bytes) (schema : TableSchema) (next next' : ℕ)
    (shape : Tree tree) (c : Store) (b : BTree)
    → Holds c b
    → IsTree c shape
    → IsNumbered schema next row stored next'
    → extract_primary_key stored schema ≡ ok key
    → serialize stored schema ≡ ok bytes
    → FitsColumns schema.columns stored.values
    → All IsOrdered key
    → FitsLeaf (entry key bytes)
    → find_entry key (entries shape) ≡ none
    → space (route key c.root shape).1 + length (leaf_cell (entry key bytes))
      ≤ page_size - node_header_size
    → (b' : BTree) × (insert row (plain schema next b) ≡ (ok key, plain schema next' b'))
      × IsDurable (c.wal).next_transaction_id (route key c.root shape).0 c b'
      × ((t'' : Table) × (select_by_key key (plain schema next' b') ≡ (ok (some stored), t'')))
      × ((k : Key)
          → All IsOrdered k
          → key_eq key k ≡ false
          → (t'' : Table) × (select_by_key k (plain schema next' b')
              ≡ (row_of (find_entry k (entries shape)) schema, t'')))
unfolding insert
select-insert row stored key bytes schema next next' shape c b h tr numbered extracted written fits
      order fits_leaf missing room =
    let (b', r, h') = search-find_entry key shape c b h tr.at tr.ordered tr.enough order in
    let (b'', r', u, logs) =
      insert-Updated key bytes shape c b' h' tr order fits_leaf missing room in
    let assigned : assign_key row schema next ≡ ok stored =
      assign_key-IsNumbered schema next next' row stored numbered in
    let r'' =
      insert_row-insert stored key bytes schema next next' b b' b'' (rw missing at r) written
        (advance_past-IsNumbered schema next next' row stored key b'' numbered extracted) r' in
    let (b3, r3, _) =
      select-find_entry key schema next' u.new_shape u.store b'' u.holds u.is_tree order in
    let read_back : row_of (some bytes) schema ≡ ok (some stored) =
      row_of-serialize stored bytes schema fits written in
    (
      b'',
      rw (assigned, extracted) r'',
      (u.store, u.holds, logs),
      (plain schema next' b3, rw (u.maps key order, key_eq-same key order, read_back) at r3),
      λ k hk other.
          let (b4, r4, _) =
            select-find_entry k schema next' u.new_shape u.store b'' u.holds u.is_tree hk in
          (plain schema next' b4, rw (u.maps k hk, other) at r4),
    )

-- In a table with any indexes whose pages hold a search tree, an insert of a row whose key the
-- tree holds throws, and the table keeps its pages, its indexes and its counter.
pub insert-taken_key :
    (row stored : Row) (key : Key) (value : Bytes) (shape : Tree tree) (c : Store) (t : Table)
    → Holds c t.btree
    → IsTree c shape
    → assign_key row t.schema t.next_auto_increment ≡ ok stored
    → extract_primary_key stored t.schema ≡ ok key
    → All IsOrdered key
    → find_entry key (entries shape) ≡ some value
    → (b' : BTree) × (insert row t ≡ (err duplicate_key, record t { btree = b' })) × Holds c b'
unfolding insert insert_row on_btree is_found
insert-taken_key row stored key value shape c t h tr assigned extracted order taken =
    let (b', r, h') = search-find_entry key shape c t.btree h tr.at tr.ordered tr.enough order in
    (b', rw (assigned, extracted, r, taken) refl, h')
