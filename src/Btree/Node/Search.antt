-- ===== src/Btree/Node/Search.antt =====
-- Descending through an internal node.
use gs_dbengine.Base.{
  ℕ, ◌≡◌, refl, ap, inl, inr, true, false, List, [], ◌∷◌, ◌++◌, length, ok, All, map, Bool-cases,
}
use gs_dbengine.Storage.Page.{Page, IsPage}
use gs_dbengine.Row.Order.{IsOrdered}
use gs_dbengine.Btree.Key.{Key, key_lt, key-IsOrder}
use gs_dbengine.Btree.Node.{
  InternalEntry, child_for_key, find_child_for_key, set_internal_entries, rightmost_child,
  internal_cell,
}
use gs_dbengine.Btree.Node.Cells.{Stored}
use gs_dbengine.Btree.Node.RoundTrip.{FitsInternal, InternalRoom, get-set_internal_entries}

-- The keys of a node stand in ascending order, and the order places them.
abbrev pub IsAscending : List InternalEntry → Type 0
IsAscending [] = Unit {0}
IsAscending (e ∷ entries) =
    All IsOrdered e.key
    × All (λ (f : InternalEntry). key_lt e.key f.key ≡ true) entries
    × IsAscending entries

-- The child left of the first separator, or the rightmost child.
abbrev pub head_child : List InternalEntry → ℕ → ℕ
head_child [] rightmost = rightmost
head_child (e ∷ _) rightmost = e.child_page_id

-- `c` is the child between the separators that are at most `k` and those above `k`.
pub record Routes (k : Key) (entries : List InternalEntry) (rightmost c : ℕ) : Type 0 where
  pub below : List InternalEntry
  pub above : List InternalEntry
  pub split : entries ≡ below ++ above
  pub at_most : All (λ (e : InternalEntry). key_lt k e.key ≡ false) below
  pub over : All (λ (e : InternalEntry). key_lt k e.key ≡ true) above
  pub child : c ≡ head_child above rightmost

all_over :
    (k : Key) (e : InternalEntry) (entries : List InternalEntry)
    → All IsOrdered k
    → All IsOrdered e.key
    → key_lt k e.key ≡ true
    → All (λ (f : InternalEntry). key_lt e.key f.key ≡ true) entries
    → IsAscending entries
    → All (λ (f : InternalEntry). key_lt k f.key ≡ true) entries
all_over k e [] hk he lt above h = tt
all_over k e (f ∷ entries) hk he lt above h = (
  key-IsOrder.trans k e.key f.key hk he h.0 lt above.0,
  all_over k e entries hk he lt above.1 h.2,
)

pub child_for_key-Routes :
    (k : Key) (entries : List InternalEntry) (rightmost : ℕ)
    → All IsOrdered k
    → IsAscending entries
    → Routes k entries rightmost (child_for_key k entries rightmost)
unfolding child_for_key
child_for_key-Routes k [] rightmost hk h = record {
  below = [];
  above = [];
  split = refl;
  at_most = tt;
  over = tt;
  child = refl;
}
child_for_key-Routes k (e ∷ entries) rightmost hk h = elim (Bool-cases (key_lt k e.key)) [
  | inl lt ↦ record {
    below = [];
    above = e ∷ entries;
    split = refl;
    at_most = tt;
    over = (lt, all_over k e entries hk h.0 lt h.1 h.2);
    child = rw lt;
  }
  | inr ge ↦
      let r : Routes k entries rightmost (child_for_key k entries rightmost) =
        child_for_key-Routes k entries rightmost hk h.2 in
      record {
        below = e ∷ r.below;
        above = r.above;
        split = ap (λ t. e ∷ t) r.split;
        at_most = (ge, r.at_most);
        over = r.over;
        child = rw ge r.child;
      }
]

-- In a page that set_internal_entries wrote with ascending keys, without NaN, within the page and
-- the widths of the fields, find_child_for_key returns the child between the separators that are
-- at most the key and those above it.
pub find_child-set_internal_entries :
    (k : Key) (entries : List InternalEntry) (p : Page)
    → IsPage p
    → All FitsInternal entries
    → InternalRoom entries
    → All IsOrdered k
    → IsAscending entries
    → (s : Stored (map internal_cell entries) (length entries) p (set_internal_entries entries p))
      × (c : ℕ) × (find_child_for_key k s.page ≡ ok c)
      × Routes k entries (rightmost_child p) c
unfolding find_child_for_key
find_child-set_internal_entries k entries p is_page fits room hk h =
    let (s, e) = get-set_internal_entries entries p is_page fits room in
    (
      s,
      child_for_key k entries (rightmost_child p),
      rw (e, s.rightmost_eq),
      child_for_key-Routes k entries (rightmost_child p) hk h,
    )
