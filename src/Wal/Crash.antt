-- ===== src/Wal/Crash.antt =====
-- A transaction, a crash behind its commit, and the recovery when the engine starts again.
use gs_dbengine.Base.{
  ℕ, ◌*◌, ◌^◌, ◌<◌, ◌≡◌, ◌≢◌, refl, ap, sym, ◌∙◌, subst, inl, List, [], ◌∷◌, ◌++◌, Bytes, length,
  Option, none, arith, All, ==_refl, ok, append-nil,
}
use gs_dbengine.Storage.Page.{Page, page_size}
use gs_dbengine.Storage.Disk.{Disk, IsDisk, page_at, pread}
use gs_dbengine.Storage.Pool.{open_pool, empty_frame, slots_below}
use gs_dbengine.Storage.Pool.Open.{open_pool-IsValid}
use gs_dbengine.Storage.Pool.Valid.{view}
use gs_dbengine.Wal.{Engine, open_wal, recover, start_scan, scan_log}
use gs_dbengine.Wal.Log.{
  Record, commit_mark, encode_log, scan_log-encode_log, scan_records, FitsRecord,
}
use gs_dbengine.Wal.Replay.{last_write, commits}
use gs_dbengine.Wal.Apply.{IsIdle, or_else, InFile}
use gs_dbengine.Wal.Recover.{IsReplayable, Replayable-Fits, restore, recover_scan}
use gs_dbengine.Wal.Transaction.{transaction, transaction-Ran, writes_of, last_page}

open_pool_slots : (d : Disk) → (open_pool d).lru_list ≢ []
unfolding open_pool slots_below
open_pool_slots d e = cc

-- The constructor leaves all 64 slots to give, and none is pinned.
pub open_pool-IsIdle : (d : Disk) → IsDisk d → IsIdle (open_pool d)
open_pool-IsIdle d v = record {
  valid = (open_pool-IsValid d v).0;
  free = λ s. (unfold open_pool empty_frame in refl);
  slots = open_pool_slots d;
}

-- what a log of one transaction says
abbrev one_log : ℕ → List (ℕ × Page) → List Record
one_log t pages = writes_of t pages ++ commit_mark t ∷ []

last_write-one_log :
    (t j : ℕ) (pages : List (ℕ × Page)) (o : Option Page)
    → last_write t j (one_log t pages) o ≡ last_page j pages o
unfolding last_write last_page
last_write-one_log t j [] o = refl
last_write-one_log t j ((id, page) ∷ pages) o = last_write-one_log t j pages _ ∙ rw (==_refl t)

commits-one_log : (t : ℕ) (pages : List (ℕ × Page)) → commits (one_log t pages) ≡ t ∷ []
unfolding commits
commits-one_log t [] = refl
commits-one_log t ((id, page) ∷ pages) = commits-one_log t pages

one_log-IsReplayable :
    (total t : ℕ) (pages : List (ℕ × Page))
    → t < 2 ^ 32
    → total < 2 ^ 32
    → InFile total pages
    → All (IsReplayable total) (one_log t pages)
one_log-IsReplayable total t [] h k f = (h, tt)
one_log-IsReplayable total t ((id, page) ∷ pages) h k f =
    let l : id < 2 ^ 32 = let i = f.0.0 in omega arith in
    ((h, l, f.0.1, f.0.0), one_log-IsReplayable total t pages h k f.1)

-- The engine as it starts again: the constructors on the file and on the log that a crash left.
unfoldable pub restart : Disk → Bytes → ℕ → Engine
restart d log threshold = record { pool = open_pool d; wal = open_wal log threshold }

-- `s` shows the last version of each page of the list, and else what `d` holds; so does its durable
-- file, and its log is empty.
pub record Survived (pages : List (ℕ × Page)) (d : Disk) (s : Engine) : Type 0 where
  pub shows : (j : ℕ) → view s.pool j ≡ or_else (last_page j pages none) (page_at d j)
  pub durable : (j : ℕ) → pread page_size (j * page_size) ((s.pool).disk).synced ≡ view s.pool j
  pub log_empty : (s.wal).file ≡ []

scanned :
    (records : List Record)
    → All FitsRecord records
    → (threshold : ℕ)
    → scan_log
        (length (encode_log records))
        (encode_log records)
        (start_scan (open_wal (encode_log records) threshold))
      ≡ scan_records records (start_scan (open_wal (encode_log records) threshold))
scanned records fits threshold = rw (append-nil (encode_log records)) at (
    scan_log-encode_log records [] (length (encode_log records))
      (start_scan (open_wal (encode_log records) threshold)) fits (inl (omega arith))
      (omega (arith, ap length (append-nil (encode_log records)))))

shown :
    (t : ℕ) (pages : List (ℕ × Page)) (d : Disk) (threshold : ℕ)
    → IsDisk d
    → (j : ℕ)
    → restore
        (commits (one_log t pages))
        (λ u id. last_write u id (one_log t pages) none)
        (view (restart d (encode_log (one_log t pages)) threshold).pool)
        j
      ≡ or_else (last_page j pages none) (page_at d j)
unfolding restore restart
shown t pages d threshold v j = rw (commits-one_log t pages) (
    ap (λ o. or_else o (view (open_pool d) j)) (last_write-one_log t j pages none)
    ∙ ap (or_else (last_page j pages none)) ((open_pool-IsValid d v).1 j))

pub recover_one :
    (t threshold : ℕ) (pages : List (ℕ × Page)) (d : Disk)
    → IsDisk d
    → t < 2 ^ 32
    → InFile d.total_pages pages
    → (s : Engine) × (recover (restart d (encode_log (one_log t pages)) threshold) ≡ (ok tt, s))
      × Survived pages d s
recover_one t threshold pages d v ht h =
    let replay : All (IsReplayable d.total_pages) (one_log t pages) =
      one_log-IsReplayable d.total_pages t pages ht v.count h in
    let (s, r, a) =
      recover_scan (one_log t pages) (restart d (encode_log (one_log t pages)) threshold)
        (unfold restart open_wal in
          scanned (one_log t pages) (Replayable-Fits d.total_pages (one_log t pages) replay)
            threshold)
        (unfold restart in open_pool-IsIdle d v) (unfold restart open_pool in replay) in
    (
      s,
      r,
      record {
        shows = λ j. a.shows j ∙ shown t pages d threshold v j;
        durable = a.durable;
        log_empty = a.log_empty;
      },
    )

-- On a pool with no pins, an empty log and a transaction id below 2 ^ 32, a transaction that
-- writes pages of the file commits; from any file of whole pages, whatever they hold, with as many
-- pages as before the crash, an engine that starts on it and on the durable bytes of the log
-- recovers, shows the last version of every page that the transaction wrote and else what the file
-- held, has the same in its durable file, and has an empty log.
pub transaction-Survived :
    (pages : List (ℕ × Page)) (s : Engine)
    → IsIdle s.pool
    → InFile ((s.pool).disk).total_pages pages
    → (s.wal).file ≡ []
    → (s.wal).next_transaction_id < 2 ^ 32
    → (d : Disk) → IsDisk d
    → d.total_pages ≡ ((s.pool).disk).total_pages
    → (threshold : ℕ)
    → (s' : Engine) × (transaction pages s ≡ (ok tt, s'))
      × (s'' : Engine) × (recover (restart d (s'.wal).synced threshold) ≡ (ok tt, s''))
      × Survived pages d s''
transaction-Survived pages s idle h empty ht d v total threshold =
    let t : ℕ = (s.wal).next_transaction_id in
    let (s', r, ran) = transaction-Ran pages s idle h in
    let log : (s'.wal).synced ≡ encode_log (one_log t pages) =
      ran.log_synced ∙ ran.log_eq ∙ ap (λ f. f ++ encode_log (one_log t pages)) empty in
    let (s'', r', sv) =
      recover_one t threshold pages d v ht (subst (λ (n : ℕ). InFile n pages) (sym total) h) in
    (s', r, s'', ap (λ b. recover (restart d b threshold)) log ∙ r', sv)
