-- ===== src/Storage/Pool/Progress.antt =====
-- A pin that is given back lets the pool fetch again.
use gs_dbengine.Base.{
  ℕ, ◌<◌, ◌≡◌, ◌≢◌, refl, ◌∙◌, subst, Bool, List, [], ◌∷◌, ◌++◌, append_assoc, reverse, All, ok,
  some, inl, inr,
}
use mathlib.Core.List.{reverse-append}
use gs_dbengine.Storage.Pool.{Pool, Frame, find, unpin_page, unpin_slot, fetch_page}
use gs_dbengine.Storage.Pool.Valid.{IsValid}
use gs_dbengine.Storage.Pool.Table.{set_frame_self}
use gs_dbengine.Storage.Pool.Victim.{AllPinned}
use gs_dbengine.Storage.Pool.Fetch.{Fetched, fetch_page_cases}
use gs_dbengine.Storage.Pool.Release.{unpin_page-IsValid}

All-middle :
    {A : Type 0} (P : A → Type 0) (xs : List A) (y : A) (ys : List A) → All P (xs ++ y ∷ ys) → P y
All-middle P [] y ys (h, hs) = h
All-middle P (x ∷ xs) y ys (h, hs) = All-middle P xs y ys hs

-- Not every slot of the list is pinned.
not-AllPinned :
    (frames : ℕ → Frame) (before after : List ℕ) (slot : ℕ)
    → (frames slot).pin_count ≡ 0
    → AllPinned frames (reverse (before ++ slot ∷ after))
    → ⊥
not-AllPinned frames before after slot free pinned =
    let order : reverse (before ++ slot ∷ after) ≡ reverse after ++ slot ∷ reverse before =
      reverse-append before (slot ∷ after)
      ∙ rw (reverse-append (slot ∷ []) after)
          (append_assoc (reverse after) (slot ∷ []) (reverse before)) in
    All-middle (λ s. (frames s).pin_count ≢ 0) (reverse after) slot (reverse before)
      (subst (AllPinned frames) order pinned) free

module _ (id slot : ℕ) (is_dirty : Bool) (p : Pool) (e : find id p.page_table ≡ some slot)
    (one : (p.frames slot).pin_count ≡ 1) where
  unpinned : ((unpin_page id is_dirty p).frames slot).pin_count ≡ 0
  unfolding unpin_page unpin_slot
  unpinned = rw (e, one, set_frame_self) refl

  same_list : (unpin_page id is_dirty p).lru_list ≡ p.lru_list
  unfolding unpin_page unpin_slot
  same_list = rw (e, one) refl

  same_disk : (unpin_page id is_dirty p).disk ≡ p.disk
  unfolding unpin_page unpin_slot
  same_disk = rw (e, one) refl

-- In a valid pool, also in one whose frames are all pinned, where a page has one pin on a slot of
-- the LRU list: once unpin_page has given that pin back, fetch_page of any page of the file
-- returns a slot that holds the page as clients read it.
pub fetch_page-unpin_page :
    (id slot other : ℕ) (is_dirty : Bool) (before after : List ℕ) (p : Pool)
    → IsValid p
    → find id p.page_table ≡ some slot
    → (p.frames slot).pin_count ≡ 1
    → p.lru_list ≡ before ++ slot ∷ after
    → other < (p.disk).total_pages
    → (found : ℕ) × (q : Pool) × (fetch_page other (unpin_page id is_dirty p) ≡ (ok found, q))
      × Fetched other found (unpin_page id is_dirty p) q
fetch_page-unpin_page id slot other is_dirty before after p v e one list inside =
    let q = unpin_page id is_dirty p in
    let disk : q.disk ≡ p.disk = same_disk id slot is_dirty p e one in
    let within : other < (q.disk).total_pages = rw disk inside in
    let listed : q.lru_list ≡ before ++ slot ∷ after = same_list id slot is_dirty p e one ∙ list in
    elim (fetch_page_cases other q (unpin_page-IsValid id is_dirty p v).0 within) [
      | inl found ↦ found
      | inr (r, absent, pinned) ↦ absurd (
          not-AllPinned q.frames before after slot (unpinned id slot is_dirty p e one)
            (subst (λ l. AllPinned q.frames (reverse l)) listed pinned))
    ]
