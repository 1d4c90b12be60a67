-- ===== src/Storage/Disk.antt =====
-- src/storage/disk_manager.h and disk_manager.cpp. The database file is its bytes as the operating
-- system shows them, and the bytes that the last `fsync` made durable. A call of the operating
-- system that fails for reasons of its own (no space, a bad device) is not modelled.
pub mod Pages
use gs_dbengine.Base.{
  ℕ, zero, suc, ◌+◌, ◌-◌, ◌*◌, ◌/◌, ◌%◌, ◌^◌, ◌<◌, ◌≤◌, ◌≡◌, Bool, ◌++◌, Bytes, length, Result, ok,
  err, ◌>>=◌, leb, ltb, ◌==◌, if◌then◌else◌, take, drop, replicate, splice, page_out_of_range,
  file_size_corrupt, read_failed,
}
use gs_dbengine.Storage.Page.{Page, page_size, zero_page}

pub record Disk : Type 0 where
  pub file : Bytes
  pub synced : Bytes
  pub total_pages : ℕ

-- POSIX: `pread` returns what the file has at the offset, up to the length asked for; `pwrite`
-- overwrites in place, and past the end it extends the file, with zero bytes in the gap.
unfoldable pub pread : ℕ → ℕ → Bytes → Bytes
pread n offset file = take n (drop offset file)

unfoldable pub pwrite : Bytes → ℕ → Bytes → Bytes
pwrite bs offset file = splice offset bs (file ++ replicate (offset - length file) 0)

-- The constructor, on a file with these bytes.
unfoldable pub open_disk : Bytes → Result Disk
open_disk file =
    if length file % page_size == 0
    then ok (record { file = file; synced = file; total_pages = length file / page_size % 2 ^ 32 })
    else err file_size_corrupt

unfoldable pub read_page : ℕ → Disk → Result Page
read_page page_id d =
    if leb d.total_pages page_id
    then err page_out_of_range
    else (let bs = pread page_size (page_id * page_size) d.file in
        if length bs == page_size then ok bs else err read_failed)

unfoldable pub write_page : ℕ → Page → Disk → Result Disk
write_page page_id page d =
    if leb d.total_pages page_id
    then err page_out_of_range
    else ok (record d { file = pwrite page (page_id * page_size) d.file })

-- `total_pages_++` on a uint32_t.
unfoldable pub allocate_page : Disk → ℕ × Disk
allocate_page d = (
  d.total_pages,
  record d {
    file = pwrite zero_page (d.total_pages * page_size) d.file;
    total_pages = (d.total_pages + 1) % 2 ^ 32;
  },
)

unfoldable pub sync : Disk → Disk
sync d = record d { synced = d.file }

-- The file holds `total_pages_` whole pages, and the count fits its type.
pub record IsDisk (d : Disk) : Type 0 where
  pub whole : length d.file ≡ d.total_pages * page_size
  pub count : d.total_pages < 2 ^ 32

-- The page that the file holds at an id.
unfoldable pub page_at : Disk → ℕ → Page
page_at d page_id = pread page_size (page_id * page_size) d.file
