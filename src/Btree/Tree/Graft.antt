-- ===== src/Btree/Tree/Graft.antt =====
-- A tree in which one leaf is replaced.
use gs_dbengine.Base.{
  ℕ, suc, ◌+◌, ◌≡◌, ◌≢◌, refl, ap, sym, ◌∙◌, inl, inr, true, false, List, [], ◌∷◌, ◌++◌, All,
  All-append, if◌then◌else◌, Bool-cases, arith,
}
use gs_dbengine.Row.Order.{IsOrdered}
use gs_dbengine.Btree.Key.{Key, key_lt}
use gs_dbengine.Btree.Node.{LeafEntry}
use gs_dbengine.Btree.Tree.Store.{Store}
use gs_dbengine.Btree.Tree.Packed.{IsPacked}
use gs_dbengine.Btree.Tree.Shape.{
  Kind, Tree, leaf, node, last, more, entries, separators, rightmost, inner_nodes, IsAt,
  IsSearchTree, route,
}

-- The tree with other entries in the leaf that the key leads to.
abbrev pub graft : {k : Kind} → Key → List LeafEntry → Tree k → Tree k
graft key new (leaf es) = leaf new
graft key new (node f) = node (graft key new f)
graft key new (last c t) = last c (graft key new t)
graft key new (more c t k f) =
    let left = graft key new t in
    let right = graft key new f in if key_lt key k then more c left k f else more c t k right

-- The pages of the tree; those of the children only, below a node.
abbrev pub page_ids : {k : Kind} → ℕ → Tree k → List ℕ
page_ids id (leaf es) = id ∷ []
page_ids id (node f) = id ∷ page_ids id f
page_ids id (last c t) = page_ids c t
page_ids id (more c t k f) = page_ids c t ++ page_ids id f

-- No page stands twice in the tree.
abbrev pub IsApart : {k : Kind} → ℕ → Tree k → Type 0
IsApart id (leaf es) = Unit {0}
IsApart id (node f) = All (λ j. j ≢ id) (page_ids id f) × IsApart id f
IsApart id (last c t) = IsApart c t
IsApart id (more c t k f) =
    All (λ i. All (λ j. i ≢ j) (page_ids id f)) (page_ids c t) × IsApart c t × IsApart id f

All-map {ℓ} :
    {A : Type ℓ} {P Q : A → Type 0} (xs : List A) → ((x : A) → P x → Q x) → All P xs → All Q xs
All-map [] g h = tt
All-map (x ∷ xs) g (p, h) = (g x p, All-map xs g h)

All-left {ℓ} :
    {A : Type ℓ} (P : A → Type 0) (xs ys : List A) → All P (xs ++ ys) → All P xs × All P ys
All-left P [] ys h = (tt, h)
All-left P (x ∷ xs) ys (a, h) = let (l, r) = All-left P xs ys h in ((a, l), r)

-- The leaf that a key leads to is among the pages.
route-page_ids :
    {k : Kind} (P : ℕ → Type 0) (key : Key) (id : ℕ) (shape : Tree k)
    → All P (page_ids id shape)
    → P (route key id shape).0
route-page_ids P key id (leaf es) h = h.0
route-page_ids P key id (node f) h = route-page_ids P key id f h.1
route-page_ids P key id (last c t) h = route-page_ids P key c t h
route-page_ids P key id (more c t k f) h =
    let (l, r) = All-left P (page_ids c t) (page_ids id f) h in
    elim (Bool-cases (key_lt key k)) [
      | inl e ↦ rw e (route-page_ids P key c t l)
      | inr e ↦ rw e (route-page_ids P key id f r)
    ]

-- The nodes above the leaf stay as they are.
separators-graft :
    {k : Kind} (key : Key) (new : List LeafEntry) (shape : Tree k)
    → separators (graft key new shape) ≡ separators shape
separators-graft key new (leaf es) = refl
separators-graft key new (node f) = refl
separators-graft key new (last c t) = refl
separators-graft key new (more c t k f) = elim (Bool-cases (key_lt key k)) [
  | inl e ↦ rw e refl
  | inr e ↦ rw e (ap (λ r. record { key = k; child_page_id = c } ∷ r) (separators-graft key new f))
]

rightmost-graft :
    {k : Kind} (key : Key) (new : List LeafEntry) (shape : Tree k)
    → rightmost (graft key new shape) ≡ rightmost shape
rightmost-graft key new (leaf es) = refl
rightmost-graft key new (node f) = refl
rightmost-graft key new (last c t) = refl
rightmost-graft key new (more c t k f) = elim (Bool-cases (key_lt key k)) [
  | inl e ↦ rw e refl
  | inr e ↦ rw e (rightmost-graft key new f)
]

pub inner_nodes-graft :
    {k : Kind} (key : Key) (new : List LeafEntry) (shape : Tree k)
    → inner_nodes (graft key new shape) ≡ inner_nodes shape
inner_nodes-graft key new (leaf es) = refl
inner_nodes-graft key new (node f) = ap suc (inner_nodes-graft key new f)
inner_nodes-graft key new (last c t) = inner_nodes-graft key new t
inner_nodes-graft key new (more c t k f) = elim (Bool-cases (key_lt key k)) [
  | inl e ↦ rw e (ap (λ (n : ℕ). n + inner_nodes f) (inner_nodes-graft key new t))
  | inr e ↦ rw e (ap (λ (n : ℕ). inner_nodes t + n) (inner_nodes-graft key new f))
]

page_ids-graft :
    {k : Kind} (key : Key) (new : List LeafEntry) (id : ℕ) (shape : Tree k)
    → page_ids id (graft key new shape) ≡ page_ids id shape
page_ids-graft key new id (leaf es) = refl
page_ids-graft key new id (node f) = ap (λ js. id ∷ js) (page_ids-graft key new id f)
page_ids-graft key new id (last c t) = page_ids-graft key new c t
page_ids-graft key new id (more c t k f) = elim (Bool-cases (key_lt key k)) [
  | inl e ↦ rw e (ap (λ js. js ++ page_ids id f) (page_ids-graft key new c t))
  | inr e ↦ rw e (ap (λ js. page_ids c t ++ js) (page_ids-graft key new id f))
]

pub IsApart-graft :
    {k : Kind} (key : Key) (new : List LeafEntry) (id : ℕ) (shape : Tree k)
    → IsApart id shape
    → IsApart id (graft key new shape)
IsApart-graft key new id (leaf es) h = tt
IsApart-graft key new id (node f) (d, h) =
    (rw (page_ids-graft key new id f) d, IsApart-graft key new id f h)
IsApart-graft key new id (last c t) h = IsApart-graft key new c t h
IsApart-graft key new id (more c t k f) (d, h, g) = elim (Bool-cases (key_lt key k)) [
  | inl e ↦ rw e (rw (page_ids-graft key new c t) d, IsApart-graft key new c t h, g)
  | inr e ↦ rw e (rw (page_ids-graft key new id f) d, h, IsApart-graft key new id f g)
]

-- Stores that differ at one page.
module _ (c c' : Store) (l : ℕ) (new : List LeafEntry) (total_eq : c'.total ≡ c.total)
    (others : (j : ℕ) → l ≢ j → c'.pages j ≡ c.pages j) (leaf_at : IsPacked new (c'.pages l)) where
  IsAt-others :
      {k : Kind} (id : ℕ) (shape : Tree k)
      → All (λ j. l ≢ j) (page_ids id shape)
      → IsAt c id shape
      → IsAt c' id shape
  IsAt-others id (leaf es) a (inside, p) = (omega (arith, total_eq), rw (others id a.0) p)
  IsAt-others id (node f) a (inside, x, y, z, h) = (
    omega (arith, total_eq),
    rw (others id a.0) x,
    rw (others id a.0) y,
    rw (others id a.0) z,
    IsAt-others id f a.1 h,
  )
  IsAt-others id (last child t) a h = IsAt-others child t a h
  IsAt-others id (more child t k f) a (h, g) =
      let (left, right) = All-left (λ j. l ≢ j) (page_ids child t) (page_ids id f) a in
      (IsAt-others child t left h, IsAt-others id f right g)

  pub IsAt-graft :
      {k : Kind} (key : Key) (id : ℕ) (shape : Tree k)
      → (route key id shape).0 ≡ l
      → IsApart id shape
      → IsAt c id shape
      → IsAt c' id (graft key new shape)
  IsAt-graft key id (leaf es) e a (inside, p) = (omega (arith, total_eq), rw e leaf_at)
  IsAt-graft key id (node f) e (ne, a) (inside, x, y, z, h) =
      let ne_l : l ≢ id = λ x. route-page_ids (λ j. j ≢ id) key id f ne (e ∙ x) in
      (
        omega (arith, total_eq),
        rw (others id ne_l) x,
        rw (others id ne_l, separators-graft key new f) y,
        rw (others id ne_l, rightmost-graft key new f) z,
        IsAt-graft key id f e a h,
      )
  IsAt-graft key id (last child t) e a h = IsAt-graft key child t e a h
  IsAt-graft key id (more child t k f) e (d, a, b) (h, g) = elim (Bool-cases (key_lt key k)) [
    | inl x ↦
        let e' : (route key child t).0 ≡ l = rw x at e in
        rw x (
          IsAt-graft key child t e' a h,
          IsAt-others id f
              (rw e' at (route-page_ids (λ i. All (λ j. i ≢ j) (page_ids id f)) key child t d)) g,
        )
    | inr x ↦
        let e' : (route key id f).0 ≡ l = rw x at e in
        rw x (
          IsAt-others child t
              (All-map (page_ids child t)
                (λ i apart y. route-page_ids (λ j. i ≢ j) key id f apart (sym y ∙ sym e')) d)
              h,
          IsAt-graft key id f e' b g,
        )
  ]

-- What the new entries keep of the keys in the leaf and of the key.
abbrev pub Keeps : Key → List LeafEntry → List LeafEntry → Type 1
Keeps key old new =
    (P : Key → Type 0)
    → P key
    → All (λ (e : LeafEntry). P e.key) old
    → All (λ (e : LeafEntry). P e.key) new

entries-graft :
    {k : Kind} (P : Key → Type 0) (key : Key) (new : List LeafEntry) (id : ℕ) (shape : Tree k)
    → Keeps key (route key id shape).1 new
    → P key
    → All (λ (e : LeafEntry). P e.key) (entries shape)
    → All (λ (e : LeafEntry). P e.key) (entries (graft key new shape))
entries-graft P key new id (leaf es) keep p h = keep P p h
entries-graft P key new id (node f) keep p h = entries-graft P key new id f keep p h
entries-graft P key new id (last c t) keep p h = entries-graft P key new c t keep p h
entries-graft P key new id (more c t k f) keep p h =
    let (l, r) = All-left _ (entries t) (entries f) h in
    elim (Bool-cases (key_lt key k)) [
      | inl e ↦ rw e (
          All-append _ (entries (graft key new t)) (entries f)
            (entries-graft P key new c t (rw e at keep) p l) r)
      | inr e ↦ rw e (
          All-append _ (entries t) (entries (graft key new f)) l
            (entries-graft P key new id f (rw e at keep) p r))
    ]

pub IsSearchTree-graft :
    {k : Kind} (key : Key) (new : List LeafEntry) (id : ℕ) (shape : Tree k)
    → Keeps key (route key id shape).1 new
    → All IsOrdered key
    → IsSearchTree shape
    → IsSearchTree (graft key new shape)
IsSearchTree-graft key new id (leaf es) keep o h = keep (All IsOrdered) o h
IsSearchTree-graft key new id (node f) keep o h = IsSearchTree-graft key new id f keep o h
IsSearchTree-graft key new id (last c t) keep o h = IsSearchTree-graft key new c t keep o h
IsSearchTree-graft key new id (more c t k f) keep o (s, below, above, h, g) =
    elim (Bool-cases (key_lt key k)) [
      | inl e ↦ rw e (
        s,
        entries-graft (λ x. key_lt x k ≡ true) key new c t (rw e at keep) e below,
        above,
        IsSearchTree-graft key new c t (rw e at keep) o h,
        g,
      )
      | inr e ↦ rw e (
        s,
        below,
        entries-graft (λ x. key_lt x k ≡ false) key new id f (rw e at keep) e above,
        h,
        IsSearchTree-graft key new id f (rw e at keep) o g,
      )
    ]
