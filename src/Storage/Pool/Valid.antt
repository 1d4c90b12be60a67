-- ===== src/Storage/Pool/Valid.antt =====
-- The invariant of the pool, and what its clients see of it.
use gs_dbengine.Base.{ℕ, ◌<◌, ◌≡◌, ◌≢◌, false, Option, none, some}
use gs_dbengine.Storage.Page.{Page, IsPage, invalid_page}
use gs_dbengine.Storage.Disk.{IsDisk, page_at}
use gs_dbengine.Storage.Pool.{Pool, find}
use gs_dbengine.Base.Assoc.{Distinct}

-- Table and frames name each other, and a clean frame holds what the file holds.
pub record IsValid (p : Pool) : Type 0 where
  pub disk : IsDisk p.disk
  pub distinct : Distinct p.page_table
  pub sized : (s : ℕ) → IsPage (p.frames s).page
  pub mapped : (id s : ℕ) → find id p.page_table ≡ some s → (p.frames s).page_id ≡ id
  pub inside : (id s : ℕ) → find id p.page_table ≡ some s → id < (p.disk).total_pages
  pub owned :
      (s : ℕ)
      → (p.frames s).page_id ≢ invalid_page
      → find (p.frames s).page_id p.page_table ≡ some s
  pub clean :
      (id s : ℕ)
      → find id p.page_table ≡ some s
      → (p.frames s).is_dirty ≡ false
      → (p.frames s).page ≡ page_at p.disk id

unfoldable pub resident : Option ℕ → Pool → ℕ → Page
resident none p id = page_at p.disk id
resident (some s) p id = (p.frames s).page

-- The page that a client of the pool reads at an id: the frame's, else the file's.
unfoldable pub view : Pool → ℕ → Page
unfolding resident
view p id = resident (find id p.page_table) p id
