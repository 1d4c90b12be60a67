-- ===== src/Header/Init.antt =====
-- `init` on an empty file.
use gs_dbengine.Base.{◌≡◌, refl, ◌∙◌, inl, inr, true, false, ok, some, ltb, ltb-false, arith}
use gs_dbengine.Storage.Page.{Page, page_size}
use gs_dbengine.Storage.Disk.{pread}
use gs_dbengine.Storage.Pool.{find, Pool, unpin_page, write_frame, total_pages}
use gs_dbengine.Storage.Pool.Valid.{IsValid, view}
use gs_dbengine.Storage.Pool.NewPage.{new_page_cases}
use gs_dbengine.Storage.Pool.Release.{write-unpin_page}
use gs_dbengine.Storage.Pool.Durable.{flush_all-Checkpointed}
use gs_dbengine.Wal.Apply.{IsIdle, free_slot}
use gs_dbengine.Header.{
  HeaderManager, new_header, header_to_page, init, init_created, init_flushed, with_pool,
}
use gs_dbengine.Header.Reload.{header_to_page-IsPage}

-- The header of a new database is in the manager, in the pool and in the durable file.
pub record Initialised (s : HeaderManager) : Type 0 where
  pub valid : IsValid (s.engine).pool
  pub header_eq : s.header ≡ new_header
  pub shows : view (s.engine).pool 0 ≡ header_to_page new_header
  pub durable : pread page_size 0 (((s.engine).pool).disk).synced ≡ header_to_page new_header

-- On a pool with no pins over an empty file, init returns; the manager has the new header, page 0
-- of the pool shows its bytes, and the durable file holds them.
pub init-Initialised :
    (s : HeaderManager)
    → IsIdle (s.engine).pool
    → (((s.engine).pool).disk).total_pages ≡ 0
    → (s' : HeaderManager) × (init s ≡ (ok tt, s')) × Initialised s'
unfolding init init_created init_flushed total_pages with_pool
init-Initialised s idle empty =
    let p : Pool = (s.engine).pool in
    let none_yet : ltb 0 (p.disk).total_pages ≡ false =
      ltb-false 0 (p.disk).total_pages (omega (arith, empty)) in
    elim (new_page_cases p idle.valid (omega (arith, empty))) [
      | inr (q, r, v, old, pinned) ↦ absurd (free_slot p _ idle.slots pinned idle.free)
      | inl (slot, q, r, c) ↦
          let page : Page = header_to_page new_header in
          let mapping : find 0 q.page_table ≡ some slot = rw empty at c.mapping in
          let (valid, shows) =
            write-unpin_page 0 slot page q c.valid mapping (omega (arith, c.pinned))
              (header_to_page-IsPage new_header refl) in
          let (q', r', k) =
            flush_all-Checkpointed (unpin_page 0 true (write_frame slot page q)) valid in
          let shown : view (unpin_page 0 true (write_frame slot page q)) 0 ≡ page = shows 0 in
          (
            record { engine = record s.engine { pool = q' }; header = new_header },
            rw (none_yet, r, empty, r'),
            record {
              valid = k.valid;
              header_eq = refl;
              shows = k.same_view 0 ∙ shown;
              durable = k.durable 0 ∙ shown;
            },
          )
    ]
