-- ===== src/Header.antt =====
-- src/header/header_manager.h and header_manager.cpp: page 0, which describes the file. A method
-- returns its result with the state that it leaves, also when it throws.
pub mod Reload
pub mod Init
use gs_dbengine.Base.{
  ℕ, zero, suc, ◌+◌, ◌<◌, Bool, true, false, not, List, [], ◌∷◌, ◌++◌, Bytes, Result, ok, err,
  if◌then◌else◌, ◌==◌, ltb, le_bytes, take, field, splice, file_not_empty, file_empty,
  invalid_magic, page_size_mismatch, unsupported_version,
}
use gs_dbengine.Storage.Page.{Page, page_size, invalid_page, header_page_id, zero_page}
use gs_dbengine.Storage.Pool.{
  Pool, fetch_page, new_page, unpin_page, write_frame, flush_all, total_pages,
}
use gs_dbengine.Wal.{Wal, Engine, begin, write, commit}
use gs_dbengine.Catalog.Schema.{text_eq}

-- "MYDB_V2" in an array of 16 bytes.
abbrev pub db_magic : Bytes
db_magic = 77 ∷ 89 ∷ 68 ∷ 66 ∷ 95 ∷ 86 ∷ 50 ∷ 0 ∷ 0 ∷ 0 ∷ 0 ∷ 0 ∷ 0 ∷ 0 ∷ 0 ∷ 0 ∷ []

abbrev pub db_version : ℕ
db_version = 2

abbrev pub no_free_page : ℕ
no_free_page = 0xffff_ffff

pub record DbHeader : Type 0 where
  pub magic : Bytes
  pub file_page_size : ℕ
  pub pages : ℕ
  pub schema_root_page : ℕ
  pub first_free_page : ℕ
  pub version : ℕ
  pub reserved : ℕ

pub record HeaderManager : Type 0 where
  pub engine : Engine
  pub header : DbHeader

-- The packed struct.
unfoldable pub header_bytes : DbHeader → Bytes
header_bytes h =
    h.magic
    ++ (le_bytes 4 h.file_page_size
        ++ (le_bytes 4 h.pages
            ++ (le_bytes 4 h.schema_root_page
                ++ (le_bytes 4 h.first_free_page
                    ++ (le_bytes 4 h.version ++ le_bytes 4 h.reserved)))))

-- `memset` and `memcpy` into a page, in `init`, in `save` and in `FreeListManager::header_to_page`.
unfoldable pub header_to_page : DbHeader → Page
header_to_page h = splice 0 (header_bytes h) zero_page

unfoldable pub header_of_page : Page → DbHeader
header_of_page p = record {
  magic = take 16 p;
  file_page_size = field 4 16 p;
  pages = field 4 20 p;
  schema_root_page = field 4 24 p;
  first_free_page = field 4 28 p;
  version = field 4 32 p;
  reserved = field 4 36 p;
}

unfoldable pub with_pool : Pool → HeaderManager → HeaderManager
with_pool p s = record s { engine = record s.engine { pool = p } }

abbrev pub new_header : DbHeader
new_header = record {
  magic = db_magic;
  file_page_size = page_size;
  pages = 1;
  schema_root_page = invalid_page;
  first_free_page = no_free_page;
  version = db_version;
  reserved = 0;
}

unfoldable pub init_flushed :
    Result (Unit {0}) × Pool → HeaderManager → Result (Unit {0}) × HeaderManager
unfolding with_pool
init_flushed (r, p) s = (r, with_pool p (record s { header = new_header }))

unfoldable pub init_created :
    Result (ℕ × ℕ) × Pool → HeaderManager → Result (Unit {0}) × HeaderManager
init_created (err e, p) s = (err e, with_pool p s)
init_created (ok (page_id, slot), p) s =
    init_flushed
      (flush_all (unpin_page page_id true (write_frame slot (header_to_page new_header) p))) s

unfoldable pub init : HeaderManager → Result (Unit {0}) × HeaderManager
init s =
    if ltb 0 (total_pages (s.engine).pool)
    then (err file_not_empty, s)
    else init_created (new_page (s.engine).pool) s

-- The checks of `load`.
unfoldable pub check_header : DbHeader → Result (Unit {0})
check_header h =
    if not (text_eq h.magic db_magic)
    then err invalid_magic
    else if not (h.file_page_size == page_size)
    then err page_size_mismatch
    else if not (h.version == db_version)
    then err unsupported_version
    else ok tt

-- `read_header_from_buffer_pool`, and the checks after it.
unfoldable pub load_fetched : Result ℕ × Pool → HeaderManager → Result (Unit {0}) × HeaderManager
load_fetched (err e, p) s = (err e, with_pool p s)
load_fetched (ok slot, p) s =
    let h = header_of_page (p.frames slot).page in
    (check_header h, with_pool (unpin_page header_page_id false p) (record s { header = h }))

unfoldable pub load : HeaderManager → Result (Unit {0}) × HeaderManager
load s =
    if total_pages (s.engine).pool == 0
    then (err file_empty, s)
    else load_fetched (fetch_page header_page_id (s.engine).pool) s

unfoldable pub saved :
    Result (Unit {0}) × Engine → HeaderManager → Result (Unit {0}) × HeaderManager
saved (r, e) s = (r, record s { engine = e })

unfoldable pub save : HeaderManager → Result (Unit {0}) × HeaderManager
unfolding saved
save s =
    let (txn_id, w) = begin (s.engine).wal in
    saved
      (commit txn_id
        (record s.engine { wal = write txn_id header_page_id (header_to_page s.header) w }))
      s
