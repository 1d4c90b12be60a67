-- ===== src/Wal/Beyond.antt =====
-- A committed page past the end of the file, which a crash can leave in the log.
use gs_dbengine.Base.{
  ℕ, ◌<◌, ◌≤◌, ◌^◌, ◌≡◌, refl, inl, List, [], ◌∷◌, ◌++◌, length, Error, err, ==_refl, append-nil,
  arith,
}
use gs_dbengine.Base.Assoc.{find, insert}
use gs_dbengine.Storage.Page.{Page, IsPage}
use gs_dbengine.Storage.Pool
use gs_dbengine.Storage.Pool.{Pool}
use gs_dbengine.Storage.Pool.Valid.{IsValid, view}
use gs_dbengine.Storage.Pool.Fetch.{fetch_page_outside}
use gs_dbengine.Wal.{
  Engine, recover, then_checkpoint, apply_txns, apply_pages, apply_page, copy_in, scan_log,
  start_scan, scan_write, scan_commit, pages_of,
}
use gs_dbengine.Wal.Log.{
  Record, page_write, commit_mark, encode_log, scan_records, scan_record, scan_log-encode_log,
}

-- From a valid pool, on a log of one committed transaction whose page lies past the end of the
-- file, recover throws, the log file stays as it is, and every page reads as before.
pub recover-outside :
    (t id : ℕ) (page : Page) (s : Engine)
    → IsValid s.pool
    → t < 2 ^ 32
    → id < 2 ^ 32
    → IsPage page
    → ((s.pool).disk).total_pages ≤ id
    → (s.wal).file ≡ encode_log (page_write t id page ∷ commit_mark t ∷ [])
    → (e : Error) × (s' : Engine) × (recover s ≡ (err e, s'))
      × ((s'.wal).file ≡ (s.wal).file)
      × ((j : ℕ) → view s'.pool j ≡ view s.pool j)
unfolding recover then_checkpoint
recover-outside t id page s v ht hid hp outside file_eq =
    let records : List Record = page_write t id page ∷ commit_mark t ∷ [] in
    let scanned : scan_log (length (s.wal).file) (s.wal).file (start_scan s.wal)
        ≡ scan_records records (start_scan s.wal) =
      rw (file_eq, ← append-nil (encode_log records))
        (scan_log-encode_log records [] (length (encode_log records ++ [])) (start_scan s.wal)
          ((ht, hid, hp), (ht, tt)) (inl (omega arith)) (omega arith)) in
    let (e, q, r, valid, same, _) = fetch_page_outside id s.pool v outside in
    let applied : apply_txns (scan_records records (start_scan s.wal)).committed_txns
          (scan_records records (start_scan s.wal)).txn_pages s.pool
        ≡ (err e, q) =
      unfold apply_txns apply_pages apply_page copy_in Pool.and_then scan_records scan_record
        scan_write scan_commit start_scan pages_of find insert in
      rw (==_refl t, r) in
    (
      e,
      record {
        pool = q;
        wal = record s.wal {
          next_transaction_id = (scan_records records (start_scan s.wal)).next_id;
        };
      },
      rw (scanned, applied),
      refl,
      same,
    )
