-- ===== src/Storage/Pool/NewPage.antt =====
-- `new_page`: the file grows by a zero page, which enters a frame.
use gs_dbengine.Base.{
  ℕ, ◌+◌, ◌<◌, ◌^◌, ◌≡◌, refl, ap, sym, ◌∙◌, Option, none, some, arith, Option-cases, inl, inr, ◌⊎◌,
  reverse, ok, err, all_pages_pinned,
}
use gs_dbengine.Storage.Page.{Page, IsPage, zero_page}
use gs_dbengine.Storage.Disk.{page_at, allocate_page}
use gs_dbengine.Storage.Disk.Pages.{Allocated, allocate_page-Allocated}
use gs_dbengine.Storage.Pool.{Pool, Frame, find, empty_frame, install, touch, new_page, new_in_slot}
use gs_dbengine.Storage.Pool.Valid.{IsValid, view, resident}
use gs_dbengine.Storage.Pool.Victim.{evict_slot_cases, AllPinned}
use gs_dbengine.Storage.Pool.Install.{
  install-IsValid, view-install, installed_frame, installed_find,
}

module _ (p : Pool) (v : IsValid p) (room : (p.disk).total_pages + 1 < 2 ^ 32) where
  alloc : Allocated p.disk (allocate_page p.disk)
  alloc = allocate_page-Allocated p.disk v.disk room

  abbrev grown : Pool
  grown = record p { disk = (allocate_page p.disk).1 }

  grown-IsValid : IsValid grown
  grown-IsValid = record {
    disk = alloc.is_disk;
    distinct = v.distinct;
    sized = v.sized;
    mapped = v.mapped;
    inside = λ id s h. let l = v.inside id s h in omega (arith, alloc.grown);
    owned = v.owned;
    clean = λ id s h d. v.clean id s h d ∙ sym (alloc.old id (v.inside id s h));
  }

  resident_grown :
      (j : ℕ) (o : Option ℕ) → j < (p.disk).total_pages → resident o grown j ≡ resident o p j
  unfolding resident
  resident_grown j none h = alloc.old j h
  resident_grown j (some s) h = refl

  view-grown : (j : ℕ) → j < (p.disk).total_pages → view grown j ≡ view p j
  unfolding view
  view-grown j h = resident_grown j (find j p.page_table) h

  absent : find (p.disk).total_pages p.page_table ≡ none
  absent = elim (Option-cases (find (p.disk).total_pages p.page_table)) [
    | inl e ↦ e
    | inr (s, e) ↦ let l = v.inside (p.disk).total_pages s e in absurd (omega arith)
  ]

  view-grown_fresh : view grown (p.disk).total_pages ≡ zero_page
  unfolding view resident
  view-grown_fresh = rw absent alloc.fresh

-- The new page is the next id, zero, in a pinned frame; the old pages read as before.
pub record Created (p : Pool) (slot : ℕ) (q : Pool) : Type 0 where
  pub valid : IsValid q
  pub total_eq : (q.disk).total_pages ≡ (p.disk).total_pages + 1
  pub mapping : find (p.disk).total_pages q.page_table ≡ some slot
  pub pinned : (q.frames slot).pin_count ≡ 1
  pub fresh : view q (p.disk).total_pages ≡ zero_page
  pub old : (j : ℕ) → j < (p.disk).total_pages → view q j ≡ view p j

-- With room in the page count, new_page from a valid pool returns the next page id in a pinned
-- slot, the new page is zero and the old pages read as before; or every slot is pinned, and it
-- throws in a valid pool with the old pages.
pub new_page_cases :
    (p : Pool)
    → IsValid p
    → (p.disk).total_pages + 1 < 2 ^ 32
    → ((slot : ℕ) × (q : Pool) × (new_page p ≡ (ok ((p.disk).total_pages, slot), q))
        × Created p slot q)
      ⊎ ((q : Pool) × (new_page p ≡ (err all_pages_pinned, q))
          × IsValid q
          × ((j : ℕ) → j < (p.disk).total_pages → view q j ≡ view p j)
          × AllPinned p.frames (reverse p.lru_list))
unfolding new_page new_in_slot
new_page_cases p v room =
    let id : ℕ = (p.disk).total_pages in
    let a : Allocated p.disk (allocate_page p.disk) = alloc p v room in
    elim (evict_slot_cases (grown p v room) (grown-IsValid p v room)) [
      | inl (r, pins) ↦
          inr (grown p v room, rw r, grown-IsValid p v room, view-grown p v room, pins)
      | inr (slot, q, r, ev, c) ↦
          let page : Page = (q.frames slot).page in
          let none_q : find id q.page_table ≡ none = ev.shrinks id (absent p v room) in
          let inside : id < (q.disk).total_pages = omega (arith, ev.total_eq, a.grown) in
          let zero_eq : page ≡ zero_page =
            ap (λ (g : Frame). g.page) ev.empty_eq ∙ (unfold empty_frame in refl) in
          let fresh_q : view q id ≡ zero_page = ev.same_view id ∙ view-grown_fresh p v room in
          let reads : page ≡ page_at q.disk id =
            zero_eq ∙ sym (unfold view resident in rw none_q at fresh_q) in
          let sized : IsPage page = (ev.valid).sized slot in
          inl (
            slot,
            install id slot page q,
            rw (a.id_eq, r),
            record {
              valid = install-IsValid id slot page q ev.valid none_q ev.unmapped inside sized reads;
              total_eq = unfold install touch in ev.total_eq ∙ a.grown;
              mapping =
                  installed_find id slot page q ev.valid none_q ev.unmapped inside sized reads;
              pinned =
                  ap (λ (g : Frame). g.pin_count)
                    (installed_frame id slot page q ev.valid none_q ev.unmapped inside sized reads);
              fresh =
                  view-install id slot page q ev.valid none_q ev.unmapped inside sized reads id
                  ∙ fresh_q;
              old = λ j h.
                  view-install id slot page q ev.valid none_q ev.unmapped inside sized reads j
                  ∙ ev.same_view j
                  ∙ view-grown p v room j h;
            },
          )
    ]
