-- ===== src/Storage/Pool/Open.antt =====
-- The pool as its constructor leaves it.
use gs_dbengine.Base.{ℕ, ◌≡◌, refl}
use gs_dbengine.Storage.Page.{zero_page-IsPage}
use gs_dbengine.Storage.Disk.{Disk, IsDisk, page_at}
use gs_dbengine.Storage.Pool.{open_pool, empty_frame, find}
use gs_dbengine.Storage.Pool.Valid.{IsValid, resident, view}

-- Over a file of whole pages, the constructor of the pool builds a valid pool whose clients read
-- the file.
pub open_pool-IsValid :
    (d : Disk) → IsDisk d → IsValid (open_pool d) × ((j : ℕ) → view (open_pool d) j ≡ page_at d j)
unfolding open_pool empty_frame find view resident
open_pool-IsValid d v = (
  record {
    disk = v;
    distinct = tt;
    sized = λ s. zero_page-IsPage;
    mapped = λ id s h. absurd (cc);
    inside = λ id s h. absurd (cc);
    owned = λ s h. absurd (h refl);
    clean = λ id s h c. absurd (cc);
  },
  λ j. refl,
)
