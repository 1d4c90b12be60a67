-- ===== src/Btree/Tree/Prefix.antt =====
-- `prefix_scan` against a selection from all entries.
use gs_dbengine.Base.{
  ℕ, ◌≤◌, ◌<◌, ◌≡◌, ◌⊎◌, refl, ap, sym, ◌∙◌, subst, inl, inr, Bool, true, false, not, ◌&&◌, ◌||◌,
  List, [], ◌∷◌, ◌++◌, length, length-append, All, ok, if◌then◌else◌, ltb, Bool-cases, arith,
}
use gs_dbengine.Row.{Value, value_lt, value_eq, lex_lt}
use gs_dbengine.Row.Order.{IsOrdered, value-IsOrder}
use gs_dbengine.Btree.Key.{Key, key_lt}
use gs_dbengine.Btree.Node.{LeafEntry}
use gs_dbengine.Btree.Tree.{BTree, find_leaf_page}
use gs_dbengine.Btree.Tree.Scan.{elements_eq, key_has_prefix, visit_prefix, prefix_scan}
use gs_dbengine.Btree.Tree.Store.{Store, Holds}
use gs_dbengine.Btree.Tree.Sorted.{HasOrder}
use gs_dbengine.Btree.Tree.Shape.{Tree, tree, entries, inner_nodes, IsAt, IsSearchTree, route}
use gs_dbengine.Btree.Tree.Lookup.{find_leaf_page-route, entries-IsOrdered}
use gs_dbengine.Btree.Tree.Chain.{
  leaves, IsChain, gather, all_entries, all_entries-append, first_leaf, leaves-entries,
  walk_from-gather,
}
use gs_dbengine.Btree.Tree.Range.{
  select, IsSorted, IsSorted-right, All-right, Landing, land, IsChain-right,
}

-- A key that is too short has not all elements.
elements_eq-short : (key prefix : Key) → length key < length prefix → elements_eq key prefix ≡ false
unfolding elements_eq
elements_eq-short key [] h = absurd (omega arith)
elements_eq-short [] (p ∷ prefix) h = refl
elements_eq-short (v ∷ key) (p ∷ prefix) h =
    rw (elements_eq-short key prefix (omega arith)) (ground arith)

pub key_has_prefix_lem : (key prefix : Key) → key_has_prefix key prefix ≡ elements_eq key prefix
unfolding key_has_prefix
key_has_prefix_lem key prefix = elim (Bool-cases (ltb (length key) (length prefix))) [
  | inl e ↦ rw e (sym (elements_eq-short key prefix (ground (arith, e))))
  | inr e ↦ rw e refl
]

pub eq_not_lt :
    (v p : Value) → IsOrdered v → IsOrdered p → value_eq v p ≡ true → value_lt v p ≡ false
eq_not_lt v p hv hp e = value-IsOrder.eq_lt v p p hv hp hp e ∙ irrefl p hp
  where
    irrefl : (a : Value) → IsOrdered a → value_lt a a ≡ false
    irrefl a h = elim (Bool-cases (value_lt a a)) [
      | inl e ↦ value-IsOrder.asym a a h h e
      | inr e ↦ e
    ]

pub and-split : (a b : Bool) → a && b ≡ true → (a ≡ true) × (b ≡ true)
and-split true true h = (refl, refl)
and-split true false h = cc
and-split false b h = cc

-- What the order of two lists says of their heads and tails.
lex-false : (a b c : Bool) → a || (not b && c) ≡ false → (a ≡ false) × ((b ≡ true) ⊎ (c ≡ false))
lex-false true b c h = cc
lex-false false true c h = (refl, inl refl)
lex-false false false c h = (refl, inr h)

pub lex-true : (a b c : Bool) → a ≡ false → a || (not b && c) ≡ true → (b ≡ false) × (c ≡ true)
lex-true true b c e h = cc
lex-true false true c e h = cc
lex-true false false c e h = (refl, h)

-- A key that begins with the prefix is not below it.
prefix_not_lt :
    (key prefix : Key)
    → All IsOrdered key
    → All IsOrdered prefix
    → elements_eq key prefix ≡ true
    → key_lt key prefix ≡ false
unfolding elements_eq key_lt lex_lt
prefix_not_lt key [] hk hp e = refl
prefix_not_lt [] (p ∷ prefix) hk hp e = cc
prefix_not_lt (v ∷ key) (p ∷ prefix) hk hp e =
    let (x, y) = and-split _ _ e in
    rw (eq_not_lt v p hk.0 hp.0 x, prefix_not_lt key prefix hk.1 hp.1 y) (ground arith)

-- Between the prefix and a key that begins with it, keys begin with it.
prefix_between :
    (key later prefix : Key)
    → All IsOrdered key
    → All IsOrdered later
    → All IsOrdered prefix
    → key_lt key prefix ≡ false
    → key_lt key later ≡ true
    → elements_eq later prefix ≡ true
    → elements_eq key prefix ≡ true
unfolding elements_eq key_lt lex_lt
prefix_between key later [] hk hl hp x y e = refl
prefix_between [] later (p ∷ prefix) hk hl hp x y e = cc
prefix_between (v ∷ key) [] (p ∷ prefix) hk hl hp x y e = cc
prefix_between (v ∷ key) (w ∷ later) (p ∷ prefix) hk hl hp x y e =
    let (wp, rest) = and-split _ _ e in
    let vw : value_lt v w ≡ value_lt v p = value-IsOrder.lt_eq w p v hl.0 hp.0 hk.0 wp in
    let wv : value_lt w v ≡ value_lt p v = value-IsOrder.eq_lt w p v hl.0 hp.0 hk.0 wp in
    let (l, alt) = lex-false (value_lt v p) (value_lt p v) (key_lt key prefix) x in
    let (g, c) = lex-true (value_lt v w) (value_lt w v) (key_lt key later) (vw ∙ l) y in
    elim alt [
      | inl b ↦ absurd (cc (b, g, wv))
      | inr f ↦
          rw
            (
              value-IsOrder.tie v p hk.0 hp.0 l (sym wv ∙ g),
              prefix_between key later prefix hk.1 hl.1 hp.1 f c rest,
            )
            refl
    ]

abbrev pub has_prefix : Key → LeafEntry → Bool
has_prefix prefix e = key_has_prefix e.key prefix

not_before :
    (prefix : Key) (e : LeafEntry)
    → All IsOrdered e.key
    → All IsOrdered prefix
    → key_lt e.key prefix ≡ true
    → has_prefix prefix e ≡ false
not_before prefix e he hp x = elim (Bool-cases (has_prefix prefix e)) [
  | inr n ↦ n
  | inl y ↦
      let z = prefix_not_lt e.key prefix he hp (sym (key_has_prefix_lem e.key prefix) ∙ y) in cc
]

-- After a key that is not below the prefix and does not begin with it, none does.
select-after :
    (prefix : Key) (e : LeafEntry) (es : List LeafEntry)
    → All IsOrdered prefix
    → All IsOrdered e.key
    → HasOrder es
    → key_lt e.key prefix ≡ false
    → has_prefix prefix e ≡ false
    → All (λ (f : LeafEntry). key_lt e.key f.key ≡ true) es
    → select (has_prefix prefix) es ≡ []
select-after prefix e [] hp he h x y g = refl
select-after prefix e (f ∷ es) hp he h x y g = elim (Bool-cases (has_prefix prefix f)) [
  | inr n ↦ rw n (select-after prefix e es hp he h.1 x y g.1)
  | inl z ↦
      let w =
        prefix_between e.key f.key prefix he h.0 hp x g.0
          (sym (key_has_prefix_lem f.key prefix) ∙ z) in
      let v = key_has_prefix_lem e.key prefix in absurd (cc (w, v, y))
]

select-visit_prefix :
    (prefix : Key) (es later : List LeafEntry)
    → All IsOrdered prefix
    → HasOrder (es ++ later)
    → IsSorted (es ++ later)
    → (visit_prefix prefix es).0
        ++ (if (visit_prefix prefix es).1 then [] else select (has_prefix prefix) later)
      ≡ select (has_prefix prefix) (es ++ later)
unfolding visit_prefix
select-visit_prefix prefix [] later hp o h = refl
select-visit_prefix prefix (e ∷ es) later hp o h = elim (Bool-cases (key_lt e.key prefix)) [
  | inl x ↦ rw (x, not_before prefix e o.0 hp x) (select-visit_prefix prefix es later hp o.1 h.1)
  | inr x ↦ elim (Bool-cases (has_prefix prefix e)) [
    | inr y ↦ rw (x, y) (sym (select-after prefix e (es ++ later) hp o.0 o.1 x y h.0))
    | inl y ↦ rw (x, y) (ap (λ xs. e ∷ xs) (select-visit_prefix prefix es later hp o.1 h.1))
  ]
]

gather-visit_prefix :
    (prefix : Key) (chain : List (ℕ × List LeafEntry))
    → All IsOrdered prefix
    → HasOrder (all_entries chain)
    → IsSorted (all_entries chain)
    → gather (visit_prefix prefix) chain ≡ select (has_prefix prefix) (all_entries chain)
gather-visit_prefix prefix [] hp o h = refl
gather-visit_prefix prefix ((page, es) ∷ chain) hp o h =
    ap
      (λ (xs : List LeafEntry).
        (visit_prefix prefix es).0 ++ (if (visit_prefix prefix es).1 then [] else xs))
      (gather-visit_prefix prefix chain hp (All-right _ es (all_entries chain) o)
        (IsSorted-right es (all_entries chain) h))
    ∙ select-visit_prefix prefix es (all_entries chain) hp o h

select-before :
    (prefix : Key) (xs ys : List LeafEntry)
    → All IsOrdered prefix
    → HasOrder xs
    → All (λ (e : LeafEntry). key_lt e.key prefix ≡ true) xs
    → select (has_prefix prefix) (xs ++ ys) ≡ select (has_prefix prefix) ys
select-before prefix [] ys hp o h = refl
select-before prefix (e ∷ xs) ys hp o (x, h) =
    rw (not_before prefix e o.0 hp x) (select-before prefix xs ys hp o.1 h)

All-front {ℓ} : {A : Type ℓ} (P : A → Type 0) (xs ys : List A) → All P (xs ++ ys) → All P xs
All-front P [] ys h = tt
All-front P (x ∷ xs) ys h = (h.0, All-front P xs ys h.1)

-- Where the pages hold a search tree without NaN, whose keys ascend strictly and whose leaves are
-- linked from left to right, with no more inner nodes and no more leaves than the file has pages,
-- and for a prefix without NaN, prefix_scan ends and returns, in their order, the entries of the
-- whole tree whose keys begin with the prefix; nothing else changes.
pub prefix_scan-select :
    (prefix : Key) (shape : Tree tree) (c : Store) (t : BTree)
    → Holds c t
    → IsAt c c.root shape
    → IsSearchTree shape
    → IsSorted (entries shape)
    → IsChain c (first_leaf c.root shape) (leaves c.root shape)
    → inner_nodes shape ≤ c.total
    → length (leaves c.root shape) ≤ c.total
    → All IsOrdered prefix
    → (t' : BTree) × (prefix_scan prefix t ≡ (ok (select (has_prefix prefix) (entries shape)), t'))
      × Holds c t'
unfolding prefix_scan find_leaf_page
prefix_scan-select prefix shape c t h at ordered sorted chain enough few hp =
    let (p, t', r, h', here) = find_leaf_page-route prefix shape c t h at enough in
    let l : Landing prefix c.root shape = land prefix c.root shape hp ordered in
    let rest : List (ℕ × List LeafEntry) = route prefix c.root shape ∷ l.after in
    let whole : entries shape ≡ all_entries l.before ++ all_entries rest =
      sym (leaves-entries c.root shape)
      ∙ ap all_entries l.split
      ∙ all_entries-append l.before rest in
    let order : HasOrder (all_entries l.before ++ all_entries rest) =
      subst HasOrder whole (entries-IsOrdered shape ordered) in
    let (t'', r', h'') =
      walk_from-gather (visit_prefix prefix) (route prefix c.root shape).0 rest c t' h'
        (IsChain-right c (first_leaf c.root shape) l.before (route prefix c.root shape).0
          (route prefix c.root shape).1 l.after
          (subst (IsChain c (first_leaf c.root shape)) l.split chain))
        (let n = ap length l.split in omega (arith, length-append l.before rest)) in
    let selected : gather (visit_prefix prefix) rest ≡ select (has_prefix prefix) (entries shape) =
      gather-visit_prefix prefix rest hp
        (All-right _ (all_entries l.before) (all_entries rest) order)
        (IsSorted-right (all_entries l.before) (all_entries rest) (subst IsSorted whole sorted))
      ∙ sym (
          select-before prefix (all_entries l.before) (all_entries rest) hp
            (All-front _ (all_entries l.before) (all_entries rest) order) l.low)
      ∙ ap (select (has_prefix prefix)) (sym whole) in
    (t'', rw r (r' ∙ ap (λ (es : List LeafEntry). (ok es, t'')) selected), h'')
