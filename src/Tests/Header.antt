-- ===== src/Tests/Header.antt =====
-- The header and the free list, on a file of three pages.
use gs_dbengine.Base.{ℕ, ◌≡◌, refl, [], ok, arith}
use gs_dbengine.Storage.Pool.{open_pool}
use gs_dbengine.Storage.Pool.Valid.{view}
use gs_dbengine.Storage.Pool.Fetch.{Fetched}
use gs_dbengine.Wal.{open_wal}
use gs_dbengine.Wal.Crash.{open_pool-IsIdle}
use gs_dbengine.Header.{HeaderManager, new_header, save, load}
use gs_dbengine.Header.Reload.{FitsHeader, Saved, load-save}
use gs_dbengine.Storage.Disk.{Disk, IsDisk}
use gs_dbengine.FreeList.{free_page, allocate_page}
use gs_dbengine.FreeList.Reuse.{Freed, allocate-free_page}
use gs_dbengine.Tests.{three_pages, three_pages-IsDisk}

abbrev manager : HeaderManager
manager = record {
  engine = record { pool = open_pool three_pages; wal = open_wal [] 100 };
  header = new_header;
}

new_header-Fits : FitsHeader new_header
new_header-Fits = record {
  magic_eq = refl;
  page_size_eq = refl;
  version_eq = refl;
  pages_fit = omega arith;
  schema_fits = omega arith;
  free_fits = omega arith;
  reserved_fits = omega arith;
}

load-save_example :
    (s' : HeaderManager) × (save manager ≡ (ok tt, s'))
    × Saved manager s'
    × (s'' : HeaderManager) × (load (record s' { header = new_header }) ≡ (ok tt, s''))
    × (s''.header ≡ new_header)
    × ((j : ℕ) → view (s''.engine).pool j ≡ view (s'.engine).pool j)
unfolding open_pool
load-save_example =
    load-save manager (open_pool-IsIdle three_pages three_pages-IsDisk) (omega arith)
      new_header-Fits new_header

free_page_example :
    (s' : HeaderManager) × (free_page 5 2 manager ≡ (ok tt, s'))
    × Freed 2 manager s'
    × (slot : ℕ) × (s'' : HeaderManager) × (allocate_page 5 s' ≡ (ok (2, slot), s''))
    × (s''.header ≡ new_header)
    × Fetched 2 slot (s'.engine).pool (s''.engine).pool
unfolding open_pool
free_page_example =
    allocate-free_page 5 2 manager (open_pool-IsIdle three_pages three_pages-IsDisk) (omega arith)
      (omega arith) (omega arith)

-- An empty file.
abbrev no_pages : Disk
no_pages = record { file = []; synced = []; total_pages = 0 }

no_pages-IsDisk : IsDisk no_pages
no_pages-IsDisk = record { whole = omega arith; count = omega arith }

abbrev empty_manager : HeaderManager
empty_manager = record {
  engine = record { pool = open_pool no_pages; wal = open_wal [] 100 };
  header = new_header;
}
