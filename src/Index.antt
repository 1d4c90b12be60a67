-- ===== src/Index.antt =====
-- src/index/index.h and index.cpp: a secondary index, over a B+tree whose keys are the indexed values
-- followed by the primary key of the row.
pub mod Find
pub mod Ascending
use gs_dbengine.Base.{
  ℕ, suc, ◌+◌, Bool, true, false, not, ◌&&◌, ◌||◌, List, [], ◌∷◌, ◌++◌, Bytes, length, map, take,
  drop, Option, none, some, Result, ok, err, if◌then◌else◌, ◌==◌, ltb, value_arity_mismatch,
  key_arity_mismatch, unique_violation, too_many_columns, no_bound, no_range_column,
}
use gs_dbengine.Base.Action.{Action, done, throw, attempt, when, continue, ◌>>=◌, ◌>>◌}
use gs_dbengine.Row.{Value, is_null}
use gs_dbengine.Catalog.Schema.{IndexSchema}
use gs_dbengine.Btree.Key.{Key, key_eq}
use gs_dbengine.Btree.Node.{LeafEntry}
use gs_dbengine.Btree.Tree.{BTree}
use gs_dbengine.Btree.Tree.Scan.{prefix_scan, bounded_scan}
use gs_dbengine.Btree.Tree.Insert
use gs_dbengine.Btree.Tree.Remove

pub record Index : Type 0 where
  pub schema : IndexSchema
  pub pk_arity : ℕ
  pub btree : BTree

-- A call of the tree of the index.
abbrev with_tree : {A : Type 0} → Index → Result A × BTree → Result A × Index
with_tree i (r, t) = (r, record i { btree = t })

unfoldable pub on_tree : {A : Type 0} → Action BTree A → Action Index A
on_tree m i = with_tree i (m i.btree)

unfoldable pub root_page : Index → ℕ
root_page i = (i.btree).root_page

unfoldable pub is_indexable : Key → Bool
unfolding is_null
is_indexable [] = true
is_indexable (v ∷ indexed_value) =
    let rest = is_indexable indexed_value in if is_null v then false else rest

-- The number of the columns of the index.
abbrev pub arity : Index → ℕ
arity i = length (i.schema).column_names

unfoldable pub make_entry_key : Key → Key → Index → Result Key
make_entry_key indexed_value primary_key i =
    if not (length indexed_value == arity i)
    then err value_arity_mismatch
    else if not (length primary_key == i.pk_arity)
    then err key_arity_mismatch
    else ok (indexed_value ++ primary_key)

unfoldable pub entry_key : Key → Key → Action Index Key
entry_key indexed_value primary_key i = (make_entry_key indexed_value primary_key i, i)

-- Whether an entry that the scan found belongs to another row.
unfoldable pub is_taken : Key → Key → List LeafEntry → Bool
is_taken indexed_value primary_key [] = false
is_taken indexed_value primary_key (e ∷ existing) =
    let rest = is_taken indexed_value primary_key existing in
    if not (key_eq (drop (length indexed_value) e.key) primary_key) then true else rest

unfoldable pub check_existing : Key → Key → Action Index Unit
check_existing indexed_value primary_key = do
  existing ← on_tree (prefix_scan indexed_value)
  when (is_taken indexed_value primary_key existing) (throw unique_violation)

unfoldable pub check_unique : Key → Key → Action Index Unit
check_unique indexed_value primary_key i =
    if not (i.schema).is_unique then (ok tt, i) else check_existing indexed_value primary_key i

unfoldable pub insert_entry : Key → Key → Action Index Unit
insert_entry indexed_value primary_key = if not (is_indexable indexed_value) then done tt else (do
  check_unique indexed_value primary_key
  key ← entry_key indexed_value primary_key
  on_tree (Insert.insert key []))

-- The overload in a transaction of the caller.
unfoldable pub insert_entry_in : ℕ → Key → Key → Action Index Unit
insert_entry_in transaction_id indexed_value primary_key =
    if not (is_indexable indexed_value) then done tt else (do
      check_unique indexed_value primary_key
      key ← entry_key indexed_value primary_key
      on_tree (Insert.insert_in transaction_id key []))

unfoldable pub remove_entry : Key → Key → Action Index Unit
remove_entry indexed_value primary_key =
    if not (is_indexable indexed_value)
    then done tt
    else (do key ← entry_key indexed_value primary_key; on_tree (Remove.remove key))

unfoldable pub remove_entry_in : ℕ → Key → Key → Action Index Unit
remove_entry_in transaction_id indexed_value primary_key =
    if not (is_indexable indexed_value) then done tt else (do
      key ← entry_key indexed_value primary_key
      on_tree (Remove.remove_in transaction_id key))

-- The keys of the entries, cut behind the first `n` elements.
abbrev pub tails : ℕ → List LeafEntry → List Key
tails n = map (λ (e : LeafEntry). drop n e.key)

abbrev pub halves : ℕ → List LeafEntry → List (Key × Key)
halves n = map (λ (e : LeafEntry). (take n e.key, drop n e.key))

-- `find` and `find_with_values`, which differ in what they make of the entries: the primary key
-- begins behind all the columns of the index.
unfoldable pub find_entries :
    {A : Type 0} → (ℕ → List LeafEntry → List A) → Key → Action Index (List A)
find_entries cut indexed_value i =
    if not (is_indexable indexed_value)
    then (ok [], i)
    else if ltb (arity i) (length indexed_value)
    then (err too_many_columns, i)
    else continue (on_tree (prefix_scan indexed_value) i) (λ entries. done (cut (arity i) entries))

unfoldable pub find : Key → Action Index (List Key)
find = find_entries tails

unfoldable pub find_with_values : Key → Action Index (List (Key × Key))
find_with_values = find_entries halves

unfoldable pub is_absent : Option Value → Bool
is_absent none = true
is_absent (some v) = false

unfoldable pub is_null_bound : Option Value → Bool
unfolding is_null
is_null_bound none = false
is_null_bound (some v) = is_null v

-- `find_range` and `find_range_with_values`: the cut is behind the column of the range.
unfoldable pub find_range_entries :
    {A : Type 0}
    → (ℕ → List LeafEntry → List A)
    → Key
    → Option Value
    → Bool
    → Option Value
    → Bool
    → Action Index (List A)
unfolding is_absent is_null_bound
find_range_entries cut prefix lo lo_inclusive hi hi_inclusive i =
    if is_absent lo && is_absent hi
    then (err no_bound, i)
    else if not (ltb (length prefix) (arity i))
    then (err no_range_column, i)
    else if not (is_indexable prefix) || (is_null_bound lo || is_null_bound hi)
    then (ok [], i)
    else continue (on_tree (bounded_scan prefix lo lo_inclusive hi hi_inclusive) i)
        (λ entries. done (cut (suc (length prefix)) entries))

unfoldable pub find_range :
    Key → Option Value → Bool → Option Value → Bool → Action Index (List Key)
find_range = find_range_entries tails

unfoldable pub find_range_with_values :
    Key → Option Value → Bool → Option Value → Bool → Action Index (List (Key × Key))
find_range_with_values = find_range_entries halves
