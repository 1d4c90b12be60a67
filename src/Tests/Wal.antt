-- ===== src/Tests/Wal.antt =====
-- The log: one transaction on a fresh pool, a log cut within its last record, and a restart.
use gs_dbengine.Base.{
  Error, err, Bytes, ℕ, ◌≡◌, ◌++◌, refl, ok, List, [], ◌∷◌, length, take, All, arith, inl,
}
use gs_dbengine.Base.Assoc.{find}
use gs_dbengine.Storage.Page.{Page, zero_page, zero_page-IsPage}
use gs_dbengine.Storage.Pool.{Pool, open_pool}
use gs_dbengine.Wal.{Engine, open_wal, recover, commit, scan_log, start_scan}
use gs_dbengine.Wal.Log.{
  Record, page_write, commit_mark, encode_log, FitsRecord, scan_records, scan_log-encode_log,
}
use gs_dbengine.Wal.Replay.{Cut}
use gs_dbengine.Wal.Beyond.{recover-outside}
use gs_dbengine.Storage.Pool.Valid.{view}
use gs_dbengine.Wal.Apply.{IsIdle, InFile}
use gs_dbengine.Wal.Commit.{Committed, commit-Committed}
use gs_dbengine.Wal.Recover.{IsReplayable, Replayable-Fits, Recovered, recover-Recovered}
use gs_dbengine.Wal.Transaction.{transaction}
use gs_dbengine.Wal.Crash.{open_pool-IsIdle, restart, Survived, transaction-Survived}
use gs_dbengine.Tests.{ones, ones-IsPage, three_pages, three_pages-IsDisk}

abbrev pool : Pool
pool = open_pool three_pages

pool-IsIdle : IsIdle pool
pool-IsIdle = open_pool-IsIdle three_pages three_pages-IsDisk

abbrev fresh : Engine
fresh = record {
  pool = pool;
  wal = record {
    file = [];
    synced = [];
    next_transaction_id = 1;
    checkpoint_threshold_bytes = 100;
    active_pages = [];
  };
}

abbrev writes : List (ℕ × Page)
writes = (2, ones) ∷ (1, zero_page) ∷ (2, zero_page) ∷ []

writes-InFile : InFile 3 writes
writes-InFile = (
  (omega arith, ones-IsPage),
  ((omega arith, zero_page-IsPage), ((omega arith, zero_page-IsPage), tt)),
)

crash_example :
    (s : Engine) × (transaction writes fresh ≡ (ok tt, s))
    × (s' : Engine) × (recover (restart three_pages (s.wal).synced 100) ≡ (ok tt, s'))
    × Survived writes three_pages s'
unfolding open_pool
crash_example =
    transaction-Survived writes fresh pool-IsIdle writes-InFile refl (omega arith) three_pages
      three_pages-IsDisk refl 100

abbrev active : Engine
active = record fresh { wal = record fresh.wal { active_pages = (2, ones) ∷ [] } }

commit_example : (s : Engine) × (commit 1 active ≡ (ok tt, s)) × Committed 1 active s
unfolding open_pool
commit_example =
    commit-Committed 1 active pool-IsIdle (unfold find in (refl, tt))
      ((omega arith, ones-IsPage), tt)

abbrev records : List Record
records = page_write 1 2 ones ∷ commit_mark 1 ∷ page_write 2 2 zero_page ∷ commit_mark 2 ∷ []

records-IsReplayable : All (IsReplayable 3) records
records-IsReplayable = (
  (omega arith, omega arith, ones-IsPage, omega arith),
  (omega arith, ((omega arith, omega arith, zero_page-IsPage, omega arith), (omega arith, tt))),
)

records-Fits : All FitsRecord records
records-Fits = Replayable-Fits 3 records records-IsReplayable

-- The crash came within the page of the second transaction.
abbrev cut_engine : Engine
cut_engine = record { pool = pool; wal = open_wal (take 5000 (encode_log records)) 100 }

recover_example :
    (c : Cut records 5000) × (s : Engine) × (recover cut_engine ≡ (ok tt, s))
    × Recovered c.kept cut_engine s
unfolding open_pool
recover_example =
    recover-Recovered records 5000 cut_engine (unfold open_wal in refl) pool-IsIdle
      records-IsReplayable

-- Two bytes of a third record.
abbrev torn : Bytes
torn = 1 ∷ 2 ∷ []

scan_example :
    scan_log
      (length (encode_log records ++ torn))
      (encode_log records ++ torn)
      (start_scan fresh.wal)
    ≡ scan_records records (start_scan fresh.wal)
scan_example =
    scan_log-encode_log records torn (length (encode_log records ++ torn)) (start_scan fresh.wal)
      records-Fits (inl (omega arith)) (omega arith)

-- A log whose page is not one of the three.
abbrev beyond : Engine
beyond = record {
  pool = pool;
  wal = open_wal (encode_log (page_write 1 9 ones ∷ commit_mark 1 ∷ [])) 100;
}

outside_example :
    (e : Error) × (s' : Engine) × (recover beyond ≡ (err e, s'))
    × ((s'.wal).file ≡ (beyond.wal).file)
    × ((j : ℕ) → view s'.pool j ≡ view pool j)
unfolding open_pool open_wal
outside_example =
    recover-outside 1 9 ones beyond pool-IsIdle.valid (omega arith) (omega arith) ones-IsPage
      (omega arith) refl
