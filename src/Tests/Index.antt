-- ===== src/Tests/Index.antt =====
-- An index of one column over the tree of three pages.
use gs_dbengine.Base.{◌≡◌, ◌⊎◌, refl, true, List, [], ◌∷◌, ok, err, unique_violation, arith}
use gs_dbengine.Row.{int, is_null}
use gs_dbengine.Btree.Tree.{BTree}
use gs_dbengine.Btree.Tree.Store.{Holds}
use gs_dbengine.Btree.Tree.Shape.{entries}
use gs_dbengine.Btree.Tree.Scan.{prefix_scan}
use gs_dbengine.Btree.Tree.Range.{select}
use gs_dbengine.Btree.Tree.Prefix.{has_prefix, prefix_scan-select}
use gs_dbengine.Index.{Index, is_indexable, check_unique, find, tails}
use gs_dbengine.Index.Find.{IsIndex, AllOfRow, find-select, check_unique_cases}
use gs_dbengine.Index.Ascending.{IsAscending, find-IsAscending}
use gs_dbengine.Btree.Key.{Key}
use gs_dbengine.Tests.Tree.{
  store, btree, shape, btree-Holds, shape-IsAt, shape-IsSearchTree, shape-IsSorted, shape-IsChain,
  three-IsOrdered, six-IsOrdered,
}

abbrev by_age : Index
by_age = record {
  schema = record {
    name = 105 ∷ [];
    table_name = 116 ∷ [];
    column_names = (97 ∷ []) ∷ [];
    root_page = 0;
    is_unique = true;
  };
  pk_arity = 0;
  btree = btree 0;
}

by_age-IsIndex : IsIndex (store 0) shape by_age
by_age-IsIndex = record {
  holds = btree-Holds 0;
  at = shape-IsAt;
  ordered = shape-IsSearchTree;
  sorted = shape-IsSorted;
  chain = shape-IsChain;
  enough = omega arith;
  few = omega arith;
}

prefix_example :
    (t' : BTree) × (prefix_scan (int 3 ∷ []) (btree 0)
      ≡ (ok (select (has_prefix (int 3 ∷ [])) (entries shape)), t'))
    × Holds (store 0) t'
prefix_example =
    prefix_scan-select (int 3 ∷ []) shape (store 0) (btree 0) (btree-Holds 0) shape-IsAt
      shape-IsSearchTree shape-IsSorted shape-IsChain (omega arith) (omega arith) three-IsOrdered

three-indexable : is_indexable (int 3 ∷ []) ≡ true
unfolding is_indexable is_null
three-indexable = refl

find_example :
    (i' : Index) × (find (int 3 ∷ []) by_age
      ≡ (ok (tails 1 (select (has_prefix (int 3 ∷ [])) (entries shape))), i'))
    × IsIndex (store 0) shape i'
find_example =
    find-select (int 3 ∷ []) shape (store 0) by_age by_age-IsIndex three-IsOrdered three-indexable
      (omega arith)

by_all_columns_example :
    (keys : List Key) × (i' : Index) × (find (int 3 ∷ []) by_age ≡ (ok keys, i'))
    × (keys ≡ tails 1 (select (has_prefix (int 3 ∷ [])) (entries shape)))
    × IsAscending keys
    × IsIndex (store 0) shape i'
by_all_columns_example =
    find-IsAscending (int 3 ∷ []) shape (store 0) by_age by_age-IsIndex three-IsOrdered
      three-indexable refl

check_unique_example :
    (i' : Index) × IsIndex (store 0) shape i'
    × (((check_unique (int 6 ∷ []) [] by_age ≡ (ok tt, i'))
          × AllOfRow (int 6 ∷ []) [] (select (has_prefix (int 6 ∷ [])) (entries shape)))
        ⊎ ((check_unique (int 6 ∷ []) [] by_age ≡ (err unique_violation, i'))
            × (AllOfRow (int 6 ∷ []) [] (select (has_prefix (int 6 ∷ [])) (entries shape)) → ⊥)))
check_unique_example =
    check_unique_cases (int 6 ∷ []) [] shape (store 0) by_age by_age-IsIndex six-IsOrdered refl
