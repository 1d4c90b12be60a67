-- ===== src/Index/Ascending.antt =====
-- The order of what `find` returns.
use gs_dbengine.Base.{
  ◌≡◌, refl, sym, ◌∙◌, inl, inr, true, false, List, [], ◌∷◌, length, drop, All, ok, arith,
  Bool-cases,
}
use gs_dbengine.Row.{Value, value_lt, value_eq, lex_lt}
use gs_dbengine.Row.Order.{IsOrdered, value-IsOrder}
use gs_dbengine.Btree.Key.{Key, key_lt}
use gs_dbengine.Btree.Node.{LeafEntry}
use gs_dbengine.Btree.Tree.Scan.{elements_eq}
use gs_dbengine.Btree.Tree.Store.{Store}
use gs_dbengine.Btree.Tree.Sorted.{HasOrder}
use gs_dbengine.Btree.Tree.Shape.{Tree, tree, entries}
use gs_dbengine.Btree.Tree.Lookup.{entries-IsOrdered}
use gs_dbengine.Btree.Tree.Range.{select, IsSorted}
use gs_dbengine.Btree.Tree.Prefix.{has_prefix, key_has_prefix_lem, eq_not_lt, and-split, lex-true}
use gs_dbengine.Index.{Index, arity, is_indexable, find, tails}
use gs_dbengine.Index.Find.{IsIndex, find-select}

-- Neither of two values that equal a third is below the other.
neither :
    (x y q : Value)
    → IsOrdered x
    → IsOrdered y
    → IsOrdered q
    → value_eq x q ≡ true
    → value_eq y q ≡ true
    → value_lt x y ≡ false
neither x y q hx hy hq ex ey = value-IsOrder.lt_eq y q x hy hq hx ey ∙ eq_not_lt x q hx hq ex

-- Keys that begin alike stand in the order of what follows.
rest_lt :
    (prefix a b : Key)
    → All IsOrdered prefix
    → All IsOrdered a
    → All IsOrdered b
    → elements_eq a prefix ≡ true
    → elements_eq b prefix ≡ true
    → key_lt a b ≡ true
    → key_lt (drop (length prefix) a) (drop (length prefix) b) ≡ true
unfolding elements_eq key_lt lex_lt
rest_lt [] a b hp ha hb ea eb h = h
rest_lt (q ∷ prefix) [] b hp ha hb ea eb h = cc
rest_lt (q ∷ prefix) (x ∷ a) [] hp ha hb ea eb h = cc
rest_lt (q ∷ prefix) (x ∷ a) (y ∷ b) hp ha hb ea eb h =
    let (xq, a_rest) = and-split _ _ ea in
    let (yq, b_rest) = and-split _ _ eb in
    let (_, below) =
      lex-true (value_lt x y) (value_lt y x) (key_lt a b) (neither x y q ha.0 hb.0 hp.0 xq yq) h in
    rest_lt prefix a b hp.1 ha.1 hb.1 a_rest b_rest below

-- Strictly ascending keys.
abbrev pub IsAscending : List Key → Type 0
IsAscending [] = Unit {0}
IsAscending (k ∷ ks) = All (λ (l : Key). key_lt k l ≡ true) ks × IsAscending ks

module _ (prefix : Key) (hp : All IsOrdered prefix) where
  above-tails :
      (e : LeafEntry) (es : List LeafEntry)
      → All IsOrdered e.key
      → HasOrder es
      → has_prefix prefix e ≡ true
      → All (λ (f : LeafEntry). key_lt e.key f.key ≡ true) es
      → All
          (λ (l : Key). key_lt (drop (length prefix) e.key) l ≡ true)
          (tails (length prefix) (select (has_prefix prefix) es))
  above-tails e [] he h x g = tt
  above-tails e (f ∷ es) he (hf, h) x (below, g) =
      let rest = above-tails e es he h x g in
      elim (Bool-cases (has_prefix prefix f)) [
        | inr n ↦ rw n rest
        | inl y ↦
            let ea = sym (key_has_prefix_lem e.key prefix) ∙ x in
            let eb = sym (key_has_prefix_lem f.key prefix) ∙ y in
            rw y (rest_lt prefix e.key f.key hp he hf ea eb below, rest)
      ]

  tails-IsAscending :
      (es : List LeafEntry)
      → HasOrder es
      → IsSorted es
      → IsAscending (tails (length prefix) (select (has_prefix prefix) es))
  tails-IsAscending [] h s = tt
  tails-IsAscending (e ∷ es) (he, h) (above, s) = elim (Bool-cases (has_prefix prefix e)) [
    | inr n ↦ rw n (tails-IsAscending es h s)
    | inl x ↦ rw x (above-tails e es he h x above, tails-IsAscending es h s)
  ]

-- On an index whose store holds a search tree with linked leaves, for values without NULL and NaN
-- for all its columns, find ends and returns the primary keys of exactly the entries of the whole
-- tree that begin with the values, each once and in ascending order of primary keys; the store of
-- the index stays the same.
pub find-IsAscending :
    (indexed_value : Key) (shape : Tree tree) (c : Store) (i : Index)
    → IsIndex c shape i
    → All IsOrdered indexed_value
    → is_indexable indexed_value ≡ true
    → length indexed_value ≡ arity i
    → (keys : List Key) × (i' : Index) × (find indexed_value i ≡ (ok keys, i'))
      × (keys ≡ tails (length indexed_value) (select (has_prefix indexed_value) (entries shape)))
      × IsAscending keys
      × IsIndex c shape i'
find-IsAscending indexed_value shape c i h order indexable whole =
    let (i', r, same) =
      find-select indexed_value shape c i h order indexable (omega (arith, whole)) in
    (
      tails (length indexed_value) (select (has_prefix indexed_value) (entries shape)),
      i',
      rw whole r,
      refl,
      tails-IsAscending indexed_value order (entries shape) (entries-IsOrdered shape h.ordered)
          h.sorted,
      same,
    )
