-- ===== src/FreeList/Reuse.antt =====
-- A freed page is the next that is allocated.
use gs_dbengine.Base.{
  ℕ, ◌<◌, ◌^◌, ◌≡◌, ◌≢◌, refl, ap, sym, ◌∙◌, inl, inr, true, false, Result, ok, length,
  if◌then◌else◌, ◌==◌, ==_ne, ==_refl, field-set_field, length-set_field, arith,
}
use gs_dbengine.Storage.Page.{Page, IsPage}
use gs_dbengine.Storage.Pool.{Pool, unpin_page, write_frame}
use gs_dbengine.Storage.Pool.Valid.{view}
use gs_dbengine.Storage.Pool.Fetch.{Fetched, fetch_page_cases}
use gs_dbengine.Wal.{Wal, write, apply_page, copy_in}
use gs_dbengine.Wal.Apply.{IsIdle, apply_page-Applied, free_slot}
use gs_dbengine.Header.{HeaderManager, DbHeader, no_free_page, with_pool}
use gs_dbengine.FreeList.{
  read_next_pointer, write_next_pointer, set_head, reclaimed, allocate_page, freed, free_page,
}

abbrev total : HeaderManager → ℕ
total s = (((s.engine).pool).disk).total_pages

-- After `free_page`: the page heads the list, holds the old head, and the other pages read as before.
pub record Freed (page_id : ℕ) (s s' : HeaderManager) : Type 0 where
  pub idle : IsIdle (s'.engine).pool
  pub total_eq : total s' ≡ total s
  pub header_eq : s'.header ≡ record s.header { first_free_page = page_id }
  pub shows :
      (j : ℕ)
      → view (s'.engine).pool j ≡ (
          if j == page_id
          then write_next_pointer (view (s.engine).pool page_id) (s.header).first_free_page
          else view (s.engine).pool j)
  pub is_page : IsPage (view (s.engine).pool page_id)

free_page-Freed :
    (t page_id : ℕ) (s : HeaderManager)
    → IsIdle (s.engine).pool
    → page_id < total s
    → (s' : HeaderManager) × (free_page t page_id s ≡ (ok tt, s')) × Freed page_id s s'
unfolding free_page freed set_head
free_page-Freed t page_id s idle inside =
    elim (fetch_page_cases page_id (s.engine).pool idle.valid inside) [
      | inr (r, absent, pinned) ↦ absurd (free_slot (s.engine).pool _ idle.slots pinned idle.free)
      | inl (slot, q, r, f) ↦
          let old : Page = (q.frames slot).page in
          let old_is_page : IsPage old = (f.valid).sized slot in
          let page : Page = write_next_pointer old (s.header).first_free_page in
          let is_page : IsPage page =
            unfold write_next_pointer in
            length-set_field 4 0 (s.header).first_free_page old (omega (arith, old_is_page))
            ∙ old_is_page in
          let (q', r', a) = apply_page-Applied page_id page (s.engine).pool idle inside is_page in
          let ran : apply_page page_id page (s.engine).pool
              ≡ (ok tt, unpin_page page_id true (write_frame slot page q)) =
            unfold apply_page copy_in in rw r in
          let pool_eq : unpin_page page_id true (write_frame slot page q) ≡ q' =
            ap (λ (x : Result (Unit {0}) × Pool). x.1) (sym ran ∙ r') in
          let pages : Wal = write t page_id page (s.engine).wal in
          (
            set_head t page_id (record s { engine = record { pool = q'; wal = pages } }),
            rw (r, pool_eq),
            record {
              idle = a.idle;
              total_eq = a.total_eq;
              header_eq = refl;
              shows = λ j.
                  a.shows j
                  ∙ ap
                      (λ (x : Page).
                        if j == page_id
                        then write_next_pointer x (s.header).first_free_page
                        else view (s.engine).pool j)
                      f.content;
              is_page = ap length (sym f.content) ∙ old_is_page;
            },
          )
    ]

-- On a pool with no pins and a head of the list below 2 ^ 32, a page of the file is freed, and a
-- page is allocated then: it is the freed page, in a slot that holds it, and the header has the
-- head of the list from before.
pub allocate-free_page :
    (t page_id : ℕ) (s : HeaderManager)
    → IsIdle (s.engine).pool
    → page_id < total s
    → page_id ≢ no_free_page
    → (s.header).first_free_page < 2 ^ 32
    → (s' : HeaderManager) × (free_page t page_id s ≡ (ok tt, s'))
      × Freed page_id s s'
      × (slot : ℕ) × (s'' : HeaderManager) × (allocate_page t s' ≡ (ok (page_id, slot), s''))
      × (s''.header ≡ s.header)
      × Fetched page_id slot (s'.engine).pool (s''.engine).pool
unfolding allocate_page reclaimed set_head with_pool
allocate-free_page t page_id s idle inside real old_fits =
    let (s', r, f) = free_page-Freed t page_id s idle inside in
    let head : (s'.header).first_free_page ≡ page_id =
      ap (λ (h : DbHeader). h.first_free_page) f.header_eq in
    let some_free : page_id == no_free_page ≡ false = ==_ne page_id no_free_page real in
    elim (fetch_page_cases page_id (s'.engine).pool (f.idle).valid
      (omega (arith, f.total_eq, inside))) [
        | inr (r', absent, pinned) ↦
            absurd (free_slot (s'.engine).pool _ (f.idle).slots pinned (f.idle).free)
        | inl (slot, q, r', g) ↦
            let content : (q.frames slot).page
                ≡ write_next_pointer (view (s.engine).pool page_id) (s.header).first_free_page =
              g.content ∙ f.shows page_id ∙ rw (==_refl page_id) in
            let next : read_next_pointer (q.frames slot).page ≡ (s.header).first_free_page =
              ap read_next_pointer content
              ∙ (unfold read_next_pointer write_next_pointer in
                  field-set_field 4 0 (s.header).first_free_page (view (s.engine).pool page_id)
                    (omega (arith, f.is_page)) old_fits) in
            let n : ℕ = read_next_pointer (q.frames slot).page in
            (
              s',
              r,
              f,
              slot,
              set_head t n (with_pool q s'),
              rw (head, some_free, r'),
              ap (λ (h : DbHeader). record h { first_free_page = n }) f.header_eq
                  ∙ ap (λ (m : ℕ). record s.header { first_free_page = m }) next,
              g,
            )
      ]
