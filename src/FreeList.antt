-- ===== src/FreeList.antt =====
-- src/btree/free_list_manager.h and free_list_manager.cpp: the free pages, threaded through their
-- first four bytes from `first_free_page` of the header. The state is that of the header manager.
pub mod Reuse
use gs_dbengine.Base.{true, ℕ, List, ◌∷◌, Result, ok, err, if◌then◌else◌, ◌==◌, field, set_field}
use gs_dbengine.Storage.Page.{Page, header_page_id}
use gs_dbengine.Storage.Pool.{Pool, fetch_page, new_page, unpin_page, write_frame}
use gs_dbengine.Wal.{Wal, Engine, write}
use gs_dbengine.Header.{HeaderManager, DbHeader, no_free_page, header_to_page, with_pool}

unfoldable pub read_next_pointer : Page → ℕ
unfolding field
read_next_pointer page = field 4 0 page

unfoldable pub write_next_pointer : Page → ℕ → Page
unfolding set_field
write_next_pointer page next = set_field 4 0 next page

-- The new head enters the header, and the header page the log.
unfoldable pub set_head : ℕ → ℕ → HeaderManager → HeaderManager
set_head transaction_id head s =
    let h : DbHeader = record s.header { first_free_page = head } in
    record {
      engine = record s.engine {
        wal = write transaction_id header_page_id (header_to_page h) (s.engine).wal;
      };
      header = h;
    }

-- The result is the page id and the slot of the page, which stays pinned.
unfoldable pub reclaimed : ℕ → ℕ → Result ℕ × Pool → HeaderManager → Result (ℕ × ℕ) × HeaderManager
unfolding with_pool
reclaimed transaction_id head (err e, p) s = (err e, with_pool p s)
reclaimed transaction_id head (ok slot, p) s = (
  ok (head, slot),
  set_head transaction_id (read_next_pointer (p.frames slot).page) (with_pool p s),
)

unfoldable pub created : Result (ℕ × ℕ) × Pool → HeaderManager → Result (ℕ × ℕ) × HeaderManager
unfolding with_pool
created (r, p) s = (r, with_pool p s)

-- `FreeListManager::allocate_page`
unfoldable pub allocate_page : ℕ → HeaderManager → Result (ℕ × ℕ) × HeaderManager
unfolding created
allocate_page transaction_id s =
    if (s.header).first_free_page == no_free_page
    then created (new_page (s.engine).pool) s
    else reclaimed transaction_id (s.header).first_free_page
        (fetch_page (s.header).first_free_page (s.engine).pool) s

unfoldable pub freed : ℕ → ℕ → Result ℕ × Pool → HeaderManager → Result (Unit {0}) × HeaderManager
unfolding with_pool set_head
freed transaction_id page_id (err e, p) s = (err e, with_pool p s)
freed transaction_id page_id (ok slot, p) s =
    let page = write_next_pointer (p.frames slot).page (s.header).first_free_page in
    let pool = unpin_page page_id true (write_frame slot page p) in
    let wal = write transaction_id page_id page (s.engine).wal in
    (
      ok tt,
      set_head transaction_id page_id (record s { engine = record { pool = pool; wal = wal } }),
    )

-- `FreeListManager::free_page`
unfoldable pub free_page : ℕ → ℕ → HeaderManager → Result (Unit {0}) × HeaderManager
free_page transaction_id page_id s =
    freed transaction_id page_id (fetch_page page_id (s.engine).pool) s
