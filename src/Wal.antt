-- ===== src/Wal.antt =====
-- src/wal/wal_manager.h and wal_manager.cpp: the write-ahead log. A `WALManager` and the pool that
-- it refers to are one state. The log file is its bytes, and those that the last `fsync` made
-- durable; an operating system call that fails for reasons of its own is not modelled.
pub mod Log
pub mod Replay
pub mod Apply
pub mod Commit
pub mod Recover
pub mod Transaction
pub mod Crash
pub mod Beyond
use gs_dbengine.Base.{
  ℕ, zero, suc, ◌+◌, ◌%◌, ◌^◌, ◌<◌, ◌≡◌, Bool, true, List, [], ◌∷◌, ◌++◌, Bytes, length, Result, ok,
  err, if◌then◌else◌, ◌==◌, ltb, leb, Option, none, some, take, drop, field, le_bytes,
}
use gs_dbengine.Base.Assoc.{find, insert}
use gs_dbengine.Storage.Page.{Page, page_size, invalid_page}
use gs_dbengine.Storage.Pool
use gs_dbengine.Storage.Pool.{Pool, fetch_page, write_frame, unpin_page, flush_all}

pub record Wal : Type 0 where
  pub file : Bytes
  pub synced : Bytes
  pub next_transaction_id : ℕ
  pub checkpoint_threshold_bytes : ℕ
  pub active_pages : List (ℕ × Page)

pub record Engine : Type 0 where
  pub pool : Pool
  pub wal : Wal

-- The constructor, on a log file with these bytes.
unfoldable pub open_wal : Bytes → ℕ → Wal
open_wal file threshold = record {
  file = file;
  synced = file;
  next_transaction_id = 1;
  checkpoint_threshold_bytes = threshold;
  active_pages = [];
}

-- `struct WalRecordHeader`, packed: type, transaction_id and page_id.
abbrev pub header_size : ℕ
header_size = 9

unfoldable pub record_header : ℕ → ℕ → ℕ → Bytes
record_header type transaction_id page_id = type ∷ (le_bytes 4 transaction_id ++ le_bytes 4 page_id)

-- `write_bytes`: the file is opened with O_APPEND.
unfoldable pub write_bytes : Bytes → Wal → Wal
write_bytes bytes w = record w { file = w.file ++ bytes }

unfoldable pub begin : Wal → ℕ × Wal
begin w = (
  w.next_transaction_id,
  record w { active_pages = []; next_transaction_id = (w.next_transaction_id + 1) % 2 ^ 32 },
)

unfoldable pub write : ℕ → ℕ → Page → Wal → Wal
unfolding write_bytes
write transaction_id page_id page w =
    let w' = write_bytes page (write_bytes (record_header 1 transaction_id page_id) w) in
    record w' { active_pages = insert page_id page w'.active_pages }

-- `fetch_page`, `memcpy`, `unpin_page`.
unfoldable pub copy_in : ℕ → Page → Result ℕ × Pool → Result (Unit {0}) × Pool
copy_in page_id page (err e, p) = (err e, p)
copy_in page_id page (ok slot, p) = (ok tt, unpin_page page_id true (write_frame slot page p))

unfoldable pub apply_page : ℕ → Page → Pool → Result (Unit {0}) × Pool
unfolding copy_in
apply_page page_id page p = copy_in page_id page (fetch_page page_id p)

-- The loops over the pages of a transaction.
unfoldable pub apply_pages : List (ℕ × Page) → Pool → Result (Unit {0}) × Pool
apply_pages [] p = (ok tt, p)
apply_pages ((page_id, page) ∷ pages) p =
    Pool.and_then (apply_page page_id page p) (apply_pages pages)

-- The log with its COMMIT frame is durable before any page is applied.
unfoldable pub log_commit : ℕ → Wal → Wal
unfolding write_bytes
log_commit transaction_id w =
    let w' = write_bytes (record_header 2 transaction_id invalid_page) w in
    record w' { synced = w'.file }

unfoldable pub finish_commit : Wal → Result (Unit {0}) × Pool → Result (Unit {0}) × Engine
finish_commit w (err e, p) = (err e, record { pool = p; wal = w })
finish_commit w (ok _, p) = (ok tt, record { pool = p; wal = record w { active_pages = [] } })

unfoldable pub commit : ℕ → Engine → Result (Unit {0}) × Engine
unfolding finish_commit
commit transaction_id s =
    finish_commit (log_commit transaction_id s.wal) (apply_pages (s.wal).active_pages s.pool)

unfoldable pub abort : ℕ → Wal → Wal
abort transaction_id w = record w { active_pages = [] }

-- What the loop of `recover` collects.
pub record Scan : Type 0 where
  pub txn_pages : List (ℕ × List (ℕ × Page))
  pub committed_txns : List ℕ
  pub next_id : ℕ

unfoldable pub pages_of : Option (List (ℕ × Page)) → List (ℕ × Page)
pages_of none = []
pages_of (some pages) = pages

-- `txn_pages[transaction_id][page_id] = page`
unfoldable pub scan_write : ℕ → ℕ → Page → Scan → Scan
unfolding pages_of
scan_write transaction_id page_id page s = record s {
  txn_pages =
      insert transaction_id (insert page_id page (pages_of (find transaction_id s.txn_pages)))
        s.txn_pages;
}

unfoldable pub scan_commit : ℕ → Scan → Scan
scan_commit transaction_id s = record s {
  committed_txns = s.committed_txns ++ (transaction_id ∷ []);
  next_id = if leb s.next_id transaction_id then (transaction_id + 1) % 2 ^ 32 else s.next_id;
}

-- The loop of `recover`. A record of another type is passed over by its header alone. Each round
-- takes 9 bytes at least, so as much fuel as there are bytes is enough.
unfoldable pub scan_log : ℕ → Bytes → Scan → Scan
unfolding scan_write scan_commit field
scan_log zero bs s = s
scan_log (suc fuel) bs s =
    let body = drop header_size bs in
    let transaction_id = field 4 1 bs in
    let page_id = field 4 5 bs in
    let after_page =
      scan_log fuel (drop page_size body)
        (scan_write transaction_id page_id (take page_size body) s) in
    let after_commit = scan_log fuel body (scan_commit transaction_id s) in
    let after_other = scan_log fuel body s in
    if ltb (length bs) header_size
    then s
    else if field 1 0 bs == 1
    then (if ltb (length body) page_size then s else after_page)
    else if field 1 0 bs == 2
    then after_commit
    else after_other

-- The loop over the committed transactions, in the order of their COMMIT frames.
unfoldable pub apply_txns : List ℕ → List (ℕ × List (ℕ × Page)) → Pool → Result (Unit {0}) × Pool
unfolding pages_of apply_pages
apply_txns [] txn_pages p = (ok tt, p)
apply_txns (t ∷ txns) txn_pages p =
    Pool.and_then (apply_pages (pages_of (find t txn_pages)) p) (apply_txns txns txn_pages)

unfoldable pub truncate : Wal → Wal
truncate w = record w { file = [] }

unfoldable pub truncated : Wal → Result (Unit {0}) × Pool → Result (Unit {0}) × Engine
unfolding truncate
truncated w (err e, p) = (err e, record { pool = p; wal = w })
truncated w (ok _, p) = (ok tt, record { pool = p; wal = truncate w })

unfoldable pub checkpoint : Engine → Result (Unit {0}) × Engine
unfolding truncated
checkpoint s = truncated s.wal (flush_all s.pool)

unfoldable pub start_scan : Wal → Scan
start_scan w = record { txn_pages = []; committed_txns = []; next_id = w.next_transaction_id }

unfoldable pub then_checkpoint : Wal → Result (Unit {0}) × Pool → Result (Unit {0}) × Engine
then_checkpoint w (err e, p) = (err e, record { pool = p; wal = w })
then_checkpoint w (ok _, p) = checkpoint (record { pool = p; wal = w })

unfoldable pub recover : Engine → Result (Unit {0}) × Engine
unfolding then_checkpoint start_scan scan_log apply_txns
recover s =
    let scan = scan_log (length (s.wal).file) (s.wal).file (start_scan s.wal) in
    then_checkpoint (record s.wal { next_transaction_id = scan.next_id })
      (apply_txns scan.committed_txns scan.txn_pages s.pool)

unfoldable pub wal_size : Wal → ℕ
wal_size w = length w.file

unfoldable pub should_checkpoint : Wal → Bool
unfolding wal_size
should_checkpoint w = leb w.checkpoint_threshold_bytes (wal_size w)
