-- ===== src/Tests.antt =====
-- The theorems at concrete inputs.
mod Tree
mod Calls
mod Table
mod Parser
mod Index
mod Tokenizer
mod Storage
mod Btree
mod Wal
mod Catalog
mod Header
use gs_dbengine.Base.{
  ℕ, ◌≡◌, ◌<◌, ◌+◌, ◌*◌, ◌++◌, length, replicate, length-replicate, length-append, arith,
}
use gs_dbengine.Storage.Page.{Page, IsPage, page_size, zero_page, zero_page-IsPage}
use gs_dbengine.Storage.Disk.{Disk, IsDisk}

-- A page of ones, and a file of three pages.
pub ones : Page
ones = replicate page_size 1

pub ones-IsPage : IsPage ones
unfolding ones
ones-IsPage = length-replicate {A = ℕ} page_size 1

abbrev pub three_pages : Disk
three_pages = record {
  file = zero_page ++ (ones ++ zero_page);
  synced = zero_page ++ (ones ++ zero_page);
  total_pages = 3;
}

length-three :
    (a b c : Page) → IsPage a → IsPage b → IsPage c → length (a ++ (b ++ c)) ≡ 3 * page_size
length-three a b c ha hb hc = omega (arith, length-append a (b ++ c), length-append b c)

pub three_pages-IsDisk : IsDisk three_pages
three_pages-IsDisk = record {
  whole = length-three zero_page ones zero_page zero_page-IsPage ones-IsPage zero_page-IsPage;
  count = omega arith;
}
