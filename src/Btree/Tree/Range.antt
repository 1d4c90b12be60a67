-- ===== src/Btree/Tree/Range.antt =====
-- `range_scan` against a selection from all entries.
use gs_dbengine.Base.{
  ℕ, ◌≤◌, ◌≡◌, refl, ap, sym, ◌∙◌, subst, inl, inr, Bool, true, false, not, ◌&&◌, List, [], ◌∷◌,
  ◌++◌, append_assoc, length, length-append, All, All-append, ok, if◌then◌else◌, Bool-cases, arith,
}
use gs_dbengine.Row.Order.{IsOrdered}
use gs_dbengine.Btree.Key.{Key, key_lt, key-IsOrder}
use gs_dbengine.Btree.Node.{LeafEntry, next_leaf}
use gs_dbengine.Btree.Tree.{BTree, find_leaf_page}
use gs_dbengine.Btree.Tree.Scan.{visit_range, range_scan}
use gs_dbengine.Btree.Tree.Store.{Store, Holds}
use gs_dbengine.Btree.Tree.Sorted.{HasOrder}
use gs_dbengine.Btree.Tree.Shape.{
  Kind, tree, Tree, leaf, node, last, more, entries, inner_nodes, IsAt, IsSearchTree, route,
}
use gs_dbengine.Btree.Tree.Lookup.{find_leaf_page-route, entries-IsOrdered}
use gs_dbengine.Btree.Tree.Chain.{
  leaves, IsChain, gather, all_entries, all_entries-append, first_leaf, leaves-entries,
  walk_from-gather,
}

abbrev pub select : (LeafEntry → Bool) → List LeafEntry → List LeafEntry
select test [] = []
select test (e ∷ es) = let rest = select test es in if test e then e ∷ rest else rest

abbrev pub in_range : Key → Key → LeafEntry → Bool
in_range start end e = not (key_lt e.key start) && not (key_lt end e.key)

-- Strictly ascending keys.
abbrev pub IsSorted : List LeafEntry → Type 0
IsSorted [] = Unit {0}
IsSorted (e ∷ es) = All (λ (f : LeafEntry). key_lt e.key f.key ≡ true) es × IsSorted es

select-none :
    (start end : Key) (es : List LeafEntry)
    → All (λ (e : LeafEntry). key_lt end e.key ≡ true) es
    → select (in_range start end) es ≡ []
select-none start end [] h = refl
select-none start end (e ∷ es) (x, h) = elim (Bool-cases (key_lt e.key start)) [
  | inl y ↦ rw (x, y) (select-none start end es h)
  | inr y ↦ rw (x, y) (select-none start end es h)
]

all_above :
    (end : Key) (e : LeafEntry) (es : List LeafEntry)
    → All IsOrdered end
    → All IsOrdered e.key
    → HasOrder es
    → key_lt end e.key ≡ true
    → All (λ (f : LeafEntry). key_lt e.key f.key ≡ true) es
    → All (λ (f : LeafEntry). key_lt end f.key ≡ true) es
all_above end e [] hn he h x g = tt
all_above end e (f ∷ es) hn he h x g =
    (key-IsOrder.trans end e.key f.key hn he h.0 x g.0, all_above end e es hn he h.1 x g.1)

-- The loop over one leaf takes what is in the range, and stops where all that follows is above it.
select-visit_range :
    (start end : Key) (es later : List LeafEntry)
    → All IsOrdered end
    → HasOrder (es ++ later)
    → IsSorted (es ++ later)
    → (visit_range start end es).0
        ++ (if (visit_range start end es).1 then [] else select (in_range start end) later)
      ≡ select (in_range start end) (es ++ later)
unfolding visit_range
select-visit_range start end [] later hn o h = refl
select-visit_range start end (e ∷ es) later hn o h = elim (Bool-cases (key_lt e.key start)) [
  | inl x ↦ rw x (select-visit_range start end es later hn o.1 h.1)
  | inr x ↦ elim (Bool-cases (key_lt end e.key)) [
    | inl y ↦
        rw (x, y)
          (sym
            (select-none start end (es ++ later) (all_above end e (es ++ later) hn o.0 o.1 y h.0)))
    | inr y ↦ rw (x, y) (ap (λ xs. e ∷ xs) (select-visit_range start end es later hn o.1 h.1))
  ]
]

pub IsSorted-right : (xs ys : List LeafEntry) → IsSorted (xs ++ ys) → IsSorted ys
IsSorted-right [] ys h = h
IsSorted-right (x ∷ xs) ys h = IsSorted-right xs ys h.1

pub All-right {ℓ} : {A : Type ℓ} (P : A → Type 0) (xs ys : List A) → All P (xs ++ ys) → All P ys
All-right P [] ys h = h
All-right P (x ∷ xs) ys h = All-right P xs ys h.1

gather-visit_range :
    (start end : Key) (chain : List (ℕ × List LeafEntry))
    → All IsOrdered end
    → HasOrder (all_entries chain)
    → IsSorted (all_entries chain)
    → gather (visit_range start end) chain ≡ select (in_range start end) (all_entries chain)
gather-visit_range start end [] hn o h = refl
gather-visit_range start end ((page, es) ∷ chain) hn o h =
    ap
      (λ (xs : List LeafEntry).
        (visit_range start end es).0 ++ (if (visit_range start end es).1 then [] else xs))
      (gather-visit_range start end chain hn (All-right _ es (all_entries chain) o)
        (IsSorted-right es (all_entries chain) h))
    ∙ select-visit_range start end es (all_entries chain) hn o h

-- The leaf that a key leads to, among all leaves: what stands before it has smaller keys.
pub record Landing {κ : Kind} (key : Key) (id : ℕ) (shape : Tree κ) : Type 0 where
  pub before : List (ℕ × List LeafEntry)
  pub after : List (ℕ × List LeafEntry)
  pub split : leaves id shape ≡ before ++ route key id shape ∷ after
  pub low : All (λ (e : LeafEntry). key_lt e.key key ≡ true) (all_entries before)

-- A key below a separator is below a key that is not.
below_separator :
    (e s key : Key)
    → All IsOrdered e
    → All IsOrdered s
    → All IsOrdered key
    → key_lt e s ≡ true
    → key_lt key s ≡ false
    → key_lt e key ≡ true
below_separator e s key he hs hk x y = elim (Bool-cases (key_lt e key)) [
  | inl z ↦ z
  | inr z ↦ elim (Bool-cases (key_lt key e)) [
    | inl w ↦ let v = key-IsOrder.trans key e s hk he hs w x in cc
    | inr w ↦ let v = key-IsOrder.eq_lt e key s he hk hs (key-IsOrder.tie e key he hk z w) in cc
  ]
]

all_below :
    (es : List LeafEntry) (s key : Key)
    → HasOrder es
    → All IsOrdered s
    → All IsOrdered key
    → All (λ (e : LeafEntry). key_lt e.key s ≡ true) es
    → key_lt key s ≡ false
    → All (λ (e : LeafEntry). key_lt e.key key ≡ true) es
all_below [] s key he hs hk x y = tt
all_below (e ∷ es) s key he hs hk x y =
    (below_separator e.key s key he.0 hs hk x.0 y, all_below es s key he.1 hs hk x.1 y)

pub land :
    {κ : Kind} (key : Key) (id : ℕ) (shape : Tree κ)
    → All IsOrdered key
    → IsSearchTree shape
    → Landing key id shape
land key id (leaf es) hk h = record { before = []; after = []; split = refl; low = tt }
land key id (node f) hk h =
    let r : Landing key id f = land key id f hk h in
    record { before = r.before; after = r.after; split = r.split; low = r.low }
land key id (last c t) hk h =
    let r : Landing key c t = land key c t hk h in
    record { before = r.before; after = r.after; split = r.split; low = r.low }
land key id (more c t s f) hk (hs, below, above, h, g) = elim (Bool-cases (key_lt key s)) [
  | inl x ↦
      let r : Landing key c t = land key c t hk h in
      record {
        before = r.before;
        after = r.after ++ leaves id f;
        split = rw x (
            ap (λ xs. xs ++ leaves id f) r.split
            ∙ append_assoc r.before (route key c t ∷ r.after) (leaves id f));
        low = r.low;
      }
  | inr x ↦
      let r : Landing key id f = land key id f hk g in
      record {
        before = leaves c t ++ r.before;
        after = r.after;
        split = rw x (
            ap (λ xs. leaves c t ++ xs) r.split
            ∙ sym (append_assoc (leaves c t) r.before (route key id f ∷ r.after)));
        low =
            rw (all_entries-append (leaves c t) r.before, leaves-entries c t)
              (All-append _ (entries t) (all_entries r.before)
                (all_below (entries t) s key (entries-IsOrdered t h) hs hk below x) r.low);
      }
]

-- The chain from a leaf on.
pub IsChain-right :
    (c : Store) (id : ℕ) (xs : List (ℕ × List LeafEntry)) (page : ℕ) (es : List LeafEntry)
    (ys : List (ℕ × List LeafEntry))
    → IsChain c id (xs ++ (page, es) ∷ ys)
    → IsChain c page ((page, es) ∷ ys)
IsChain-right c id [] page es ys (e, a, b, d, h) = (refl, a, b, d, h)
IsChain-right c id ((p, fs) ∷ xs) page es ys (e, a, b, d, h) =
    IsChain-right c (next_leaf (c.pages p)) xs page es ys h

select-low :
    (start end : Key) (xs ys : List LeafEntry)
    → All (λ (e : LeafEntry). key_lt e.key start ≡ true) xs
    → select (in_range start end) (xs ++ ys) ≡ select (in_range start end) ys
select-low start end [] ys h = refl
select-low start end (e ∷ xs) ys (x, h) = rw x (select-low start end xs ys h)

-- Where the pages hold a search tree without NaN, whose keys ascend strictly and whose leaves are
-- linked from left to right, with no more inner nodes and no more leaves than the file has pages,
-- and for bounds without NaN, range_scan ends and returns, in their order, the entries of the
-- whole tree whose keys are not below the start and not above the end; nothing else changes.
pub range_scan-select :
    (start end : Key) (shape : Tree tree) (c : Store) (t : BTree)
    → Holds c t
    → IsAt c c.root shape
    → IsSearchTree shape
    → IsSorted (entries shape)
    → IsChain c (first_leaf c.root shape) (leaves c.root shape)
    → inner_nodes shape ≤ c.total
    → length (leaves c.root shape) ≤ c.total
    → All IsOrdered start
    → All IsOrdered end
    → (t' : BTree) × (range_scan start end t
        ≡ (ok (select (in_range start end) (entries shape)), t'))
      × Holds c t'
unfolding range_scan find_leaf_page
range_scan-select start end shape c t h at ordered sorted chain enough few hs he =
    let (p, t', r, h', here) = find_leaf_page-route start shape c t h at enough in
    let l : Landing start c.root shape = land start c.root shape hs ordered in
    let rest : List (ℕ × List LeafEntry) = route start c.root shape ∷ l.after in
    let whole : entries shape ≡ all_entries l.before ++ all_entries rest =
      sym (leaves-entries c.root shape)
      ∙ ap all_entries l.split
      ∙ all_entries-append l.before rest in
    let (t'', r', h'') =
      walk_from-gather (visit_range start end) (route start c.root shape).0 rest c t' h'
        (IsChain-right c (first_leaf c.root shape) l.before (route start c.root shape).0
          (route start c.root shape).1 l.after
          (subst (IsChain c (first_leaf c.root shape)) l.split chain))
        (let n = ap length l.split in omega (arith, length-append l.before rest)) in
    let selected : gather (visit_range start end) rest
        ≡ select (in_range start end) (entries shape) =
      gather-visit_range start end rest he
        (All-right _ (all_entries l.before) (all_entries rest)
          (subst HasOrder whole (entries-IsOrdered shape ordered)))
        (IsSorted-right (all_entries l.before) (all_entries rest) (subst IsSorted whole sorted))
      ∙ sym (select-low start end (all_entries l.before) (all_entries rest) l.low)
      ∙ ap (select (in_range start end)) (sym whole) in
    (t'', rw r (r' ∙ ap (λ (es : List LeafEntry). (ok es, t'')) selected), h'')
