-- ===== src/Btree/Tree/Sorted.antt =====
-- Sorting the entries of a leaf, and erasing from them, as a lookup sees it.
use gs_dbengine.Base.{
  ℕ, ◌+◌, ◌≤◌, ◌≡◌, refl, ap, sym, ◌∙◌, inl, inr, true, false, List, [], ◌∷◌, ◌++◌, length, All,
  map, none, some, if◌then◌else◌, Bool-cases, arith,
}
use gs_dbengine.Row.Order.{IsOrdered}
use gs_dbengine.Btree.Key.{Key, key_lt, key_eq, key-IsOrder}
use gs_dbengine.Btree.Node.{LeafEntry, leaf_cell, find_entry}
use gs_dbengine.Btree.Node.Cells.{total}
use gs_dbengine.Btree.Tree.Edit.{place, sort, erase_key, leaf_key}

abbrev pub HasOrder : List LeafEntry → Type 0
HasOrder = All (λ (e : LeafEntry). All IsOrdered e.key)

-- Laws of the equality of keys without NaN.
pub key_lt_irrefl : (a : Key) → All IsOrdered a → key_lt a a ≡ false
key_lt_irrefl a h = elim (Bool-cases (key_lt a a)) [
  | inl e ↦ key-IsOrder.asym a a h h e
  | inr e ↦ e
]

-- Two keys equal to a third are equal.
pub key_eq_join :
    (a b k : Key)
    → All IsOrdered a
    → All IsOrdered b
    → All IsOrdered k
    → key_eq a k ≡ true
    → key_eq b k ≡ true
    → (key_lt a b ≡ false) × (key_eq a b ≡ true)
key_eq_join a b k ha hb hk x y =
    let ab : key_lt a b ≡ false =
      key-IsOrder.eq_lt a k b ha hk hb x
      ∙ key-IsOrder.lt_eq b k k hb hk hk y
      ∙ key_lt_irrefl k hk in
    let ba : key_lt b a ≡ false =
      key-IsOrder.eq_lt b k a hb hk ha y
      ∙ key-IsOrder.lt_eq a k k ha hk hk x
      ∙ key_lt_irrefl k hk in
    (ab, key-IsOrder.tie a b ha hb ab ba)

-- Two keys that a third equals are equal.
pub key_eq_fork :
    (a b k : Key)
    → All IsOrdered a
    → All IsOrdered b
    → All IsOrdered k
    → key_eq a b ≡ true
    → key_eq a k ≡ true
    → key_eq b k ≡ true
key_eq_fork a b k ha hb hk x y =
    key-IsOrder.tie b k hb hk
      (sym (key-IsOrder.eq_lt a b k ha hb hk x)
        ∙ key-IsOrder.eq_lt a k k ha hk hk y
        ∙ key_lt_irrefl k hk)
      (sym (key-IsOrder.lt_eq a b k ha hb hk x)
        ∙ key-IsOrder.lt_eq a k k ha hk hk y
        ∙ key_lt_irrefl k hk)

find_entry-swap :
    (k : Key) (a b : LeafEntry) (es : List LeafEntry)
    → All IsOrdered k
    → All IsOrdered a.key
    → All IsOrdered b.key
    → key_lt b.key a.key ≡ true
    → find_entry k (b ∷ a ∷ es) ≡ find_entry k (a ∷ b ∷ es)
unfolding find_entry
find_entry-swap k a b es hk ha hb lt = elim (Bool-cases (key_eq a.key k)) [
  | inr x ↦ rw x refl
  | inl x ↦ elim (Bool-cases (key_eq b.key k)) [
    | inr y ↦ rw (x, y) refl
    | inl y ↦ let z = (key_eq_join b.key a.key k hb ha hk y x).0 in cc
  ]
]

find_entry-cons :
    (k : Key) (b : LeafEntry) (xs ys : List LeafEntry)
    → find_entry k xs ≡ find_entry k ys
    → find_entry k (b ∷ xs) ≡ find_entry k (b ∷ ys)
unfolding find_entry
find_entry-cons k b xs ys e = ap (λ o. if key_eq b.key k then some b.value else o) e

find_entry-place :
    (k : Key) (a : LeafEntry) (es : List LeafEntry)
    → All IsOrdered k
    → All IsOrdered a.key
    → HasOrder es
    → find_entry k (place leaf_key a es) ≡ find_entry k (a ∷ es)
unfolding place
find_entry-place k a [] hk ha h = refl
find_entry-place k a (b ∷ es) hk ha h = elim (Bool-cases (key_lt b.key a.key)) [
  | inr e ↦ rw e refl
  | inl e ↦ rw e (
      find_entry-cons k b _ _ (find_entry-place k a es hk ha h.1)
      ∙ find_entry-swap k a b es hk ha h.0 e)
]

All-place :
    (P : LeafEntry → Type 0) (a : LeafEntry) (es : List LeafEntry)
    → P a
    → All P es
    → All P (place leaf_key a es)
unfolding place
All-place P a [] p h = (p, tt)
All-place P a (b ∷ es) p h = elim (Bool-cases (key_lt b.key a.key)) [
  | inl e ↦ rw e (h.0, All-place P a es p h.1)
  | inr e ↦ rw e (p, h)
]

pub All-sort : (P : LeafEntry → Type 0) (es : List LeafEntry) → All P es → All P (sort leaf_key es)
unfolding sort
All-sort P [] h = tt
All-sort P (a ∷ es) h = All-place P a (sort leaf_key es) h.0 (All-sort P es h.1)

pub find_entry-sort :
    (k : Key) (es : List LeafEntry)
    → All IsOrdered k
    → HasOrder es
    → find_entry k (sort leaf_key es) ≡ find_entry k es
unfolding sort
find_entry-sort k [] hk h = refl
find_entry-sort k (a ∷ es) hk h =
    find_entry-place k a (sort leaf_key es) hk h.0 (All-sort _ es h.1)
    ∙ find_entry-cons k a _ _ (find_entry-sort k es hk h.1)

abbrev pub space : List LeafEntry → ℕ
space es = total (map leaf_cell es)

space-place :
    (a : LeafEntry) (es : List LeafEntry)
    → space (place leaf_key a es) ≡ length (leaf_cell a) + space es
unfolding place total
space-place a [] = refl
space-place a (b ∷ es) = elim (Bool-cases (key_lt b.key a.key)) [
  | inl e ↦ rw e (omega (arith, space-place a es))
  | inr e ↦ rw e refl
]

pub space-sort : (es : List LeafEntry) → space (sort leaf_key es) ≡ space es
unfolding sort total
space-sort [] = refl
space-sort (a ∷ es) = omega (arith, space-place a (sort leaf_key es), space-sort es)

pub space-append :
    (es : List LeafEntry) (a : LeafEntry) → space (es ++ a ∷ []) ≡ space es + length (leaf_cell a)
unfolding total
space-append [] a = omega arith
space-append (e ∷ es) a = omega (arith, space-append es a)

-- A new key at the end of the list.
pub find_entry-new :
    (k : Key) (a : LeafEntry) (es : List LeafEntry)
    → All IsOrdered k
    → All IsOrdered a.key
    → HasOrder es
    → find_entry a.key es ≡ none
    → find_entry k (es ++ a ∷ []) ≡ (if key_eq a.key k then some a.value else find_entry k es)
unfolding find_entry
find_entry-new k a [] hk ha h e = refl
find_entry-new k a (b ∷ es) hk ha h e =
    let ih : key_eq b.key a.key ≡ false
        → find_entry k (es ++ a ∷ []) ≡ (if key_eq a.key k then some a.value else find_entry k es) =
      λ w. find_entry-new k a es hk ha h.1 (rw w at e) in
    elim (Bool-cases (key_eq b.key a.key)) [
      | inl w ↦ let none_eq : some b.value ≡ none = rw w at e in cc
      | inr w ↦ elim (Bool-cases (key_eq b.key k)) [
        | inr y ↦ rw y (ih w)
        | inl y ↦ elim (Bool-cases (key_eq a.key k)) [
          | inr x ↦ rw (y, x) refl
          | inl x ↦ let z = (key_eq_join b.key a.key k h.0 ha hk y x).1 in cc
        ]
      ]
    ]

-- Erasing a key.
pub find_entry-erase_key :
    (k key : Key) (es : List LeafEntry)
    → All IsOrdered k
    → All IsOrdered key
    → HasOrder es
    → find_entry k (erase_key leaf_key key es) ≡ (if key_eq key k then none else find_entry k es)
unfolding find_entry erase_key
find_entry-erase_key k key [] hk h o = ground arith
find_entry-erase_key k key (e ∷ es) hk h o =
    let ih = find_entry-erase_key k key es hk h o.1 in
    elim (Bool-cases (key_eq e.key key)) [
      | inl x ↦ rw x (
          ih ∙ (elim (Bool-cases (key_eq key k)) [
            | inl y ↦ rw y refl
            | inr y ↦ elim (Bool-cases (key_eq e.key k)) [
              | inl z ↦ let w = key_eq_fork e.key key k o.0 h hk x z in cc
              | inr z ↦ rw (y, z) refl
            ]
          ]))
      | inr x ↦ rw x (elim (Bool-cases (key_eq e.key k)) [
        | inr z ↦ rw z ih
        | inl z ↦ elim (Bool-cases (key_eq key k)) [
          | inl y ↦ let w = (key_eq_join e.key key k o.0 h hk z y).1 in cc
          | inr y ↦ rw (y, z) refl
        ]
      ])
    ]

pub All-erase_key :
    (P : LeafEntry → Type 0) (key : Key) (es : List LeafEntry)
    → All P es
    → All P (erase_key leaf_key key es)
unfolding erase_key
All-erase_key P key [] h = tt
All-erase_key P key (e ∷ es) h = elim (Bool-cases (key_eq e.key key)) [
  | inl x ↦ rw x (All-erase_key P key es h.1)
  | inr x ↦ rw x (h.0, All-erase_key P key es h.1)
]

pub space-erase_key :
    (key : Key) (es : List LeafEntry) → space (erase_key leaf_key key es) ≤ space es
unfolding erase_key total
space-erase_key key [] = omega arith
space-erase_key key (e ∷ es) = elim (Bool-cases (key_eq e.key key)) [
  | inl x ↦ rw x (omega (arith, space-erase_key key es))
  | inr x ↦ rw x (omega (arith, space-erase_key key es))
]
