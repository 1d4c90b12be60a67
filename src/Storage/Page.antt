-- ===== src/Storage/Page.antt =====
-- src/storage/page.h: a page is its bytes.
use gs_dbengine.Base.{ℕ, Bytes, ◌≡◌, length, replicate, length-replicate}

abbrev pub Page : Type 0
Page = Bytes

abbrev pub page_size : ℕ
page_size = 4096

abbrev pub invalid_page : ℕ
invalid_page = 0xffff_ffff

abbrev pub header_page_id : ℕ
header_page_id = 0

-- The length that the type `uint8_t data[PAGE_SIZE]` gives.
abbrev pub IsPage : Page → Type 0
IsPage p = length p ≡ page_size

unfoldable pub zero_page : Page
zero_page = replicate page_size 0

pub zero_page-IsPage : IsPage zero_page
unfolding zero_page
zero_page-IsPage = length-replicate {A = ℕ} page_size 0
