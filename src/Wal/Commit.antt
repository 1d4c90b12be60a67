-- ===== src/Wal/Commit.antt =====
-- A commit: the log is durable before the pages are applied, and the pool then shows them.
use gs_dbengine.Base.{ℕ, ◌≡◌, refl, [], ◌++◌, ok}
use gs_dbengine.Base.Assoc.{find, Distinct}
use gs_dbengine.Storage.Pool.Valid.{view}
use gs_dbengine.Wal.{Engine, commit, log_commit}
use gs_dbengine.Wal.Log.{commit_mark, encode_record}
use gs_dbengine.Wal.Apply.{IsIdle, or_else, InFile, apply_pages-AppliedAll}

pub record Committed (t : ℕ) (s s' : Engine) : Type 0 where
  pub idle : IsIdle s'.pool
  pub shows : (j : ℕ) → view s'.pool j ≡ or_else (find j (s.wal).active_pages) (view s.pool j)
  pub total_eq : ((s'.pool).disk).total_pages ≡ ((s.pool).disk).total_pages
  pub log_eq : (s'.wal).file ≡ (s.wal).file ++ encode_record (commit_mark t)
  pub log_synced : (s'.wal).synced ≡ (s'.wal).file
  pub inactive : (s'.wal).active_pages ≡ []

-- On a pool with no pins and with active pages of the file, `commit` returns; the log ends with the
-- COMMIT record and is durable whole, and the pool shows the pages of the transaction, and else what
-- it showed.
pub commit-Committed :
    (t : ℕ) (s : Engine)
    → IsIdle s.pool
    → Distinct (s.wal).active_pages
    → InFile ((s.pool).disk).total_pages (s.wal).active_pages
    → (s' : Engine) × (commit t s ≡ (ok tt, s')) × Committed t s s'
unfolding commit log_commit encode_record
commit-Committed t s idle d h =
    let (q, r, a) = apply_pages-AppliedAll (s.wal).active_pages s.pool idle d h in
    (
      record { pool = q; wal = record (log_commit t s.wal) { active_pages = [] } },
      rw r,
      record {
        idle = a.idle;
        shows = a.shows;
        total_eq = a.total_eq;
        log_eq = refl;
        log_synced = refl;
        inactive = refl;
      },
    )
