-- ===== src/Storage/Pool/Release.antt =====
-- `unpin_page`, alone and after a write through the pointer.
use gs_dbengine.Base.{
  ℕ, ◌-◌, ◌≡◌, ◌≢◌, refl, Bool, true, false, if◌then◌else◌, ◌==◌, ==_ne, some, arith, Bool-cases,
  Option-cases, inl, inr,
}
use mathlib.Core.Path.{fun_ext}
use gs_dbengine.Storage.Page.{Page, IsPage}
use gs_dbengine.Storage.Pool.{Pool, Frame, find, set_frame, unpin_page, unpin_slot, write_frame}
use gs_dbengine.Storage.Pool.Valid.{IsValid, view}
use gs_dbengine.Storage.Pool.Table.{set_frame_self}
use gs_dbengine.Storage.Pool.Update.{updated-IsValid, view-updated_same, view-updated}

-- unpin_page keeps the pool valid and every page as it reads, whatever its arguments.
pub unpin_page-IsValid :
    (id : ℕ) (is_dirty : Bool) (p : Pool)
    → IsValid p
    → IsValid (unpin_page id is_dirty p) × ((j : ℕ) → view (unpin_page id is_dirty p) j ≡ view p j)
unfolding unpin_page unpin_slot
unpin_page-IsValid id is_dirty p v = elim (Option-cases (find id p.page_table)) [
  | inl e ↦ rw e (v, λ j. refl)
  | inr (slot, e) ↦ elim (Bool-cases ((p.frames slot).pin_count == 0)) [
    | inl z ↦ rw (e, z) (v, λ j. refl)
    | inr z ↦
        let f : Frame = record (p.frames slot) {
          pin_count = (p.frames slot).pin_count - 1;
          is_dirty = if is_dirty then true else (p.frames slot).is_dirty;
        } in
        let tidy : f.is_dirty ≡ false
            → ((p.frames slot).page ≡ (p.frames slot).page) × ((p.frames slot).is_dirty ≡ false) =
          λ d. (refl, ground (arith, d)) in
        rw (e, z)
          (
            updated-IsValid slot f p.lru_list p v refl (v.sized slot) tidy,
            view-updated_same slot f p.lru_list p v refl (v.sized slot) tidy refl,
          )
  ]
]

-- set_frame twice at one slot
pub set_frame_twice :
    (slot : ℕ) (f g : Frame) (frames : ℕ → Frame)
    → set_frame slot f (set_frame slot g frames) ≡ set_frame slot f frames
unfolding set_frame
set_frame_twice slot f g frames = fun_ext λ s. ground arith

-- A caller that holds a pin writes a page through its pointer and unpins it as dirty: the pool
-- stays valid, the page reads as written, and every other page as before.
pub write-unpin_page :
    (id slot : ℕ) (page : Page) (p : Pool)
    → IsValid p
    → find id p.page_table ≡ some slot
    → (p.frames slot).pin_count ≢ 0
    → IsPage page
    → IsValid (unpin_page id true (write_frame slot page p))
      × ((j : ℕ)
          → view (unpin_page id true (write_frame slot page p)) j
            ≡ (if j == id then page else view p j))
unfolding unpin_page unpin_slot write_frame
write-unpin_page id slot page p v e pinned is_page =
    let f : Frame = record {
      page = page;
      page_id = (p.frames slot).page_id;
      is_dirty = true;
      pin_count = (p.frames slot).pin_count - 1;
    } in
    let z : ((p.frames slot).pin_count == 0) ≡ false = ==_ne _ 0 pinned in
    let no : true ≡ false → (page ≡ (p.frames slot).page) × ((p.frames slot).is_dirty ≡ false) =
      λ x. absurd (cc) in
    rw
      (e, set_frame_self slot (record (p.frames slot) { page = page }) p.frames, z, set_frame_twice)
      (
        updated-IsValid slot f p.lru_list p v refl is_page no,
        view-updated slot f p.lru_list p v refl is_page no id e,
      )
