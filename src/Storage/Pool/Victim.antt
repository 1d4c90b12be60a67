-- ===== src/Storage/Pool/Victim.antt =====
-- Which slot `evict_slot` gives up, and that giving it up cannot fail.
use gs_dbengine.Base.{
  ℕ, ◌<◌, ◌≡◌, ◌≢◌, refl, ap, sym, true, List, [], ◌∷◌, ◌++◌, if◌then◌else◌, ◌==◌, ==_iff, none,
  some, arith, Bool-cases, inl, inr, All, ok, err, all_pages_pinned, reverse, ◌⊎◌,
}
use gs_dbengine.Storage.Page.{invalid_page}
use gs_dbengine.Storage.Disk.{page_at}
use gs_dbengine.Storage.Disk.Pages.{write_page-eq, write_page-IsDisk, page_at-write_page}
use gs_dbengine.Storage.Pool.{
  Pool, Frame, clear_frame, drop_mapping, evict_frame, find_unpinned, evict_found, evict_slot,
}
use gs_dbengine.Storage.Pool.Valid.{IsValid}
use gs_dbengine.Storage.Pool.Evict.{Evicted, clear_frame-Evicted, left, left-Evicted}

eq_of_== : (a b : ℕ) → (a == b) ≡ true → a ≡ b
eq_of_== a b = (==_iff a b).0

-- From a valid pool `evict_frame` does not throw: a page that sits in a frame is within the file.
pub evict_frame-Evicted :
    (slot : ℕ) (p : Pool)
    → IsValid p
    → (q : Pool) × (evict_frame slot p ≡ (ok tt, q)) × Evicted slot p q
unfolding evict_frame drop_mapping
evict_frame-Evicted slot p v = elim (Bool-cases ((p.frames slot).page_id == invalid_page)) [
  | inl e ↦ (clear_frame slot p, rw e, clear_frame-Evicted slot p v (eq_of_== _ _ e))
  | inr e ↦
      let k : ℕ = (p.frames slot).page_id in
      let real : k ≢ invalid_page = ground (arith, e) in
      let inside : k < (p.disk).total_pages = v.inside k slot (v.owned slot real) in
      elim (Bool-cases (p.frames slot).is_dirty) [
        | inl dirty ↦ (
          left slot k p _ v refl real
              (write_page-IsDisk p.disk k (p.frames slot).page v.disk inside (v.sized slot)) refl
              (page_at-write_page p.disk k (p.frames slot).page v.disk inside (v.sized slot)),
          rw (e, dirty, write_page-eq p.disk k (p.frames slot).page v.disk inside (v.sized slot)),
          left-Evicted slot k p _ v refl real
              (write_page-IsDisk p.disk k (p.frames slot).page v.disk inside (v.sized slot)) refl
              (page_at-write_page p.disk k (p.frames slot).page v.disk inside (v.sized slot)),
        )
        | inr tidy ↦
            let reads : (j : ℕ)
                → page_at p.disk j ≡ (if j == k then (p.frames slot).page else page_at p.disk j) =
              λ j. elim (Bool-cases (j == k)) [
                | inl same ↦
                    rw (same, eq_of_== j k same) (sym (v.clean k slot (v.owned slot real) tidy))
                | inr other ↦ rw other
              ] in
            (
              left slot k p p.disk v refl real v.disk refl reads,
              rw (e, tidy),
              left-Evicted slot k p p.disk v refl real v.disk refl reads,
            )
      ]
]

-- `slot` is the first of `slots` that nobody has pinned.
pub record FirstUnpinned (frames : ℕ → Frame) (slots : List ℕ) (slot : ℕ) : Type 0 where
  pub before : List ℕ
  pub after : List ℕ
  pub split : slots ≡ before ++ slot ∷ after
  pub pinned : All (λ (s : ℕ). (frames s).pin_count ≢ 0) before
  pub unpinned : (frames slot).pin_count ≡ 0

abbrev pub AllPinned : (ℕ → Frame) → List ℕ → Type 0
AllPinned frames = All (λ (s : ℕ). (frames s).pin_count ≢ 0)

find_unpinned_cases :
    (frames : ℕ → Frame) (slots : List ℕ)
    → ((find_unpinned frames slots ≡ none) × AllPinned frames slots)
      ⊎ ((slot : ℕ) × (find_unpinned frames slots ≡ some slot) × FirstUnpinned frames slots slot)
unfolding find_unpinned
find_unpinned_cases frames [] = inl (refl, tt)
find_unpinned_cases frames (s ∷ slots) = elim (Bool-cases ((frames s).pin_count == 0)) [
  | inl e ↦ inr (
    s,
    rw e,
    record { before = []; after = slots; split = refl; pinned = tt; unpinned = eq_of_== _ _ e },
  )
  | inr e ↦ elim (find_unpinned_cases frames slots) [
    | inl (n, a) ↦ inl (rw e n, (ground (arith, e), a))
    | inr (slot, f, c) ↦ inr (
      slot,
      rw e f,
      record {
        before = s ∷ c.before;
        after = c.after;
        split = ap (λ t. s ∷ t) c.split;
        pinned = (ground (arith, e), c.pinned);
        unpinned = c.unpinned;
      },
    )
  ]
]

-- From a valid pool, evict_slot throws and changes nothing where every slot of the LRU list is
-- pinned; else it returns the unpinned slot that was used least recently, emptied, in a valid pool
-- with the same view.
pub evict_slot_cases :
    (p : Pool)
    → IsValid p
    → ((evict_slot p ≡ (err all_pages_pinned, p)) × AllPinned p.frames (reverse p.lru_list))
      ⊎ ((slot : ℕ) × (q : Pool) × (evict_slot p ≡ (ok slot, q))
          × Evicted slot p q
          × FirstUnpinned p.frames (reverse p.lru_list) slot)
unfolding evict_slot evict_found
evict_slot_cases p v = elim (find_unpinned_cases p.frames (reverse p.lru_list)) [
  | inl (e, a) ↦ inl (rw e, a)
  | inr (slot, e, c) ↦
      let (q, r, ev) = evict_frame-Evicted slot p v in inr (slot, q, rw (e, r), ev, c)
]
