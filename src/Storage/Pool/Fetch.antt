-- ===== src/Storage/Pool/Fetch.antt =====
-- `fetch_page`: the frame holds the page, and no client sees a difference.
use gs_dbengine.Base.{
  ℕ, ◌+◌, ◌%◌, ◌<◌, ◌≤◌, ◌^◌, ◌≡◌, refl, ap, ◌∙◌, true, false, List, ◌∷◌, if◌then◌else◌, ◌==◌, ltb,
  none, some, arith, Option-cases, inl, inr, ◌⊎◌, reverse, Error, ok, err, all_pages_pinned,
  page_out_of_range,
}
use gs_dbengine.Storage.Page.{Page, IsPage}
use gs_dbengine.Storage.Disk.{IsDisk, page_at}
use gs_dbengine.Storage.Disk.Pages.{read_page_lem, page_at-IsPage}
use gs_dbengine.Storage.Pool.{
  Pool, Frame, find, install, touch, without, pin, fetch_page, fetch_miss, read_into, evict_slot,
}
use gs_dbengine.Storage.Pool.Valid.{IsValid, view, resident}
use gs_dbengine.Storage.Pool.Table.{set_frame_self, set_frame_ne}
use gs_dbengine.Storage.Pool.Evict.{Evicted}
use gs_dbengine.Storage.Pool.Victim.{evict_slot_cases, AllPinned}
use gs_dbengine.Storage.Pool.Update.{updated, updated-IsValid, view-updated_same}
use gs_dbengine.Storage.Pool.Install.{
  install-IsValid, view-install, installed_frame, installed_find, installed_other,
}

-- `slot` holds page `id` as clients of `p` read it, and the view is that of `p`.
pub record Fetched (id slot : ℕ) (p q : Pool) : Type 0 where
  pub valid : IsValid q
  pub same_view : (j : ℕ) → view q j ≡ view p j
  pub total_eq : (q.disk).total_pages ≡ (p.disk).total_pages
  pub mapping : find id q.page_table ≡ some slot
  pub content : (q.frames slot).page ≡ view p id
  pub pins :
      ((q.frames slot).pin_count ≡ 1)
      ⊎ ((q.frames slot).pin_count ≡ ((p.frames slot).pin_count + 1) % 2 ^ 32)
  pub other_pins : (s : ℕ) → (s == slot) ≡ false → (q.frames s).pin_count ≡ (p.frames s).pin_count
  pub front : (rest : List ℕ) × (q.lru_list ≡ slot ∷ rest)

module _ (id : ℕ) (p : Pool) (v : IsValid p) where
  hit :
      (slot : ℕ)
      → find id p.page_table ≡ some slot
      → (q : Pool) × (fetch_page id p ≡ (ok slot, q)) × Fetched id slot p q
  unfolding fetch_page pin touch
  hit slot e =
      let f : Frame = record (p.frames slot) {
        pin_count = ((p.frames slot).pin_count + 1) % 2 ^ 32;
      } in
      let lru : List ℕ = slot ∷ without slot p.lru_list in
      (
        updated slot f lru p v refl (v.sized slot) (λ d. (refl, d)),
        rw e,
        record {
          valid = updated-IsValid slot f lru p v refl (v.sized slot) (λ d. (refl, d));
          same_view = view-updated_same slot f lru p v refl (v.sized slot) (λ d. (refl, d)) refl;
          total_eq = refl;
          mapping = e;
          content =
              ap (λ (g : Frame). g.page) (set_frame_self slot f p.frames)
              ∙ (unfold view in rw e (unfold resident in refl));
          pins = inr (ap (λ (g : Frame). g.pin_count) (set_frame_self slot f p.frames));
          other_pins = λ s e. ap (λ (g : Frame). g.pin_count) (set_frame_ne slot f p.frames s e);
          front = (without slot p.lru_list, refl);
        },
      )

  miss_eq :
      (slot : ℕ) (q : Pool)
      → find id p.page_table ≡ none
      → evict_slot p ≡ (ok slot, q)
      → IsDisk q.disk
      → fetch_page id p
        ≡ read_into id slot q
            (if ltb id (q.disk).total_pages then ok (page_at q.disk id) else err page_out_of_range)
  unfolding fetch_page fetch_miss
  miss_eq slot q e r d = rw (e, r, read_page_lem q.disk id d)

  miss :
      (slot : ℕ) (q : Pool)
      → find id p.page_table ≡ none
      → evict_slot p ≡ (ok slot, q)
      → Evicted slot p q
      → id < (p.disk).total_pages
      → (q' : Pool) × (fetch_page id p ≡ (ok slot, q')) × Fetched id slot p q'
  miss slot q e r ev h =
      let page : Page = page_at q.disk id in
      let absent : find id q.page_table ≡ none = ev.shrinks id e in
      let inside : id < (q.disk).total_pages = omega (arith, ev.total_eq) in
      let sized : IsPage page = page_at-IsPage q.disk id ((ev.valid).disk) inside in
      let lt : ltb id (q.disk).total_pages ≡ true = ground arith in
      (
        install id slot page q,
        miss_eq slot q e r ((ev.valid).disk) ∙ (unfold read_into in rw lt),
        record {
          valid = install-IsValid id slot page q ev.valid absent ev.unmapped inside sized refl;
          same_view = λ j.
              view-install id slot page q ev.valid absent ev.unmapped inside sized refl j
              ∙ ev.same_view j;
          total_eq = unfold install touch in ev.total_eq;
          mapping = installed_find id slot page q ev.valid absent ev.unmapped inside sized refl;
          content =
              ap (λ (g : Frame). g.page)
                (installed_frame id slot page q ev.valid absent ev.unmapped inside sized refl)
              ∙ (unfold view resident in rw absent at (ev.same_view id));
          pins = inl (
              ap (λ (g : Frame). g.pin_count)
                (installed_frame id slot page q ev.valid absent ev.unmapped inside sized refl));
          other_pins = λ s e.
              ap (λ (g : Frame). g.pin_count) (installed_other id slot page q s e ∙ ev.others s e);
          front = (without slot q.lru_list, unfold install touch in refl);
        },
      )

-- From a valid pool, fetch_page of a page of the file returns a slot that holds the page as
-- clients read it, mapped and at the front of the LRU list, in a valid pool that shows the same
-- pages; or the page is in no frame, every slot of the LRU list is pinned, and it throws and
-- changes nothing.
pub fetch_page_cases :
    (id : ℕ) (p : Pool)
    → IsValid p
    → id < (p.disk).total_pages
    → ((slot : ℕ) × (q : Pool) × (fetch_page id p ≡ (ok slot, q)) × Fetched id slot p q)
      ⊎ ((fetch_page id p ≡ (err all_pages_pinned, p))
          × (find id p.page_table ≡ none)
          × AllPinned p.frames (reverse p.lru_list))
fetch_page_cases id p v h = elim (Option-cases (find id p.page_table)) [
  | inr (slot, e) ↦ let (q, r, f) = hit id p v slot e in inl (slot, q, r, f)
  | inl e ↦ elim (evict_slot_cases p v) [
    | inl (r, a) ↦ inr (unfold fetch_page fetch_miss in rw (e, r), e, a)
    | inr (slot, q, r, ev, c) ↦
        let (q', r', f) = miss id p v slot q e r ev h in inl (slot, q', r', f)
  ]
]

-- Past the end of the file, fetch_page throws, because every slot of the LRU list is pinned or
-- because the page is out of range, and leaves a valid pool that shows the same pages.
pub fetch_page_outside :
    (id : ℕ) (p : Pool)
    → IsValid p
    → (p.disk).total_pages ≤ id
    → (e : Error) × (q : Pool) × (fetch_page id p ≡ (err e, q))
      × IsValid q
      × ((j : ℕ) → view q j ≡ view p j)
      × (((e ≡ all_pages_pinned) × AllPinned p.frames (reverse p.lru_list))
          ⊎ (e ≡ page_out_of_range))
fetch_page_outside id p v h = elim (Option-cases (find id p.page_table)) [
  | inr (slot, e) ↦ let l = v.inside id slot e in absurd (omega arith)
  | inl e ↦ elim (evict_slot_cases p v) [
    | inl (r, a) ↦ (
      all_pages_pinned,
      p,
      unfold fetch_page fetch_miss in rw (e, r),
      v,
      λ j. refl,
      inl (refl, a),
    )
    | inr (slot, q, r, ev, c) ↦
        let ge : ltb id (q.disk).total_pages ≡ false = ground (arith, ev.total_eq) in
        (
          page_out_of_range,
          q,
          miss_eq id p v slot q e r ((ev.valid).disk) ∙ (unfold read_into in rw ge),
          ev.valid,
          ev.same_view,
          inr refl,
        )
  ]
]
