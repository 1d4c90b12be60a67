-- ===== src/Wal/Recover.antt =====
-- Recovery: after a crash the pool and the file show, page by page, the last write of the last
-- committed transaction among the records that the crash left.
use gs_dbengine.Base.{
  ℕ, ◌*◌, ◌^◌, ◌<◌, ◌≡◌, refl, ap, sym, ◌∙◌, subst, inl, inr, List, [], ◌∷◌, length, ◌==◌, Option,
  none, All, Bool-cases, ok, take,
}
use mathlib.Core.Path.{fun_ext}
use gs_dbengine.Base.Assoc.{find, insert, find-insert, Distinct, Distinct-insert}
use gs_dbengine.Storage.Page.{Page, IsPage, page_size}
use gs_dbengine.Storage.Disk.{pread}
use gs_dbengine.Storage.Pool
use gs_dbengine.Storage.Pool.{Pool, flush_all}
use gs_dbengine.Storage.Pool.Valid.{IsValid, view}
use gs_dbengine.Storage.Pool.Durable.{flush_all-Checkpointed}
use gs_dbengine.Wal.{
  Engine, Scan, scan_write, scan_commit, scan_log, pages_of, apply_txns, start_scan,
  then_checkpoint, checkpoint, truncated, truncate, recover,
}
use gs_dbengine.Wal.Log.{
  Record, page_write, commit_mark, encode_log, FitsRecord, scan_record, scan_records,
}
use gs_dbengine.Wal.Replay.{
  All-kept, Cut, cut_lem, scan_log-take, last_write, commits, scan_commits, scan_pages,
}
use gs_dbengine.Wal.Apply.{IsIdle, or_else, InFile, apply_pages-AppliedAll}

-- A record of the log whose page is a page of the file.
abbrev pub IsReplayable : ℕ → Record → Type 0
IsReplayable total (page_write t id page) =
    (t < 2 ^ 32) × (id < 2 ^ 32) × IsPage page × (id < total)
IsReplayable total (commit_mark t) = t < 2 ^ 32

pub Replayable-Fits :
    (total : ℕ) (records : List Record) → All (IsReplayable total) records → All FitsRecord records
Replayable-Fits total [] h = tt
Replayable-Fits total (page_write t id page ∷ records) h =
    ((h.0.0, h.0.1, h.0.2), Replayable-Fits total records h.1)
Replayable-Fits total (commit_mark t ∷ records) h = (h.0, Replayable-Fits total records h.1)

-- What the scan collected can be applied.
abbrev IsGood : ℕ → Scan → Type 0
IsGood total s =
    (t : ℕ)
    → Distinct (pages_of (find t s.txn_pages)) × InFile total (pages_of (find t s.txn_pages))

pub InFile-insert :
    (total id : ℕ) (page : Page) (pages : List (ℕ × Page))
    → id < total
    → IsPage page
    → InFile total pages
    → InFile total (insert id page pages)
unfolding insert
InFile-insert total id page [] h k f = ((h, k), tt)
InFile-insert total id page ((i, q) ∷ pages) h k f = elim (Bool-cases (i == id)) [
  | inl e ↦ rw e ((h, k), f.1)
  | inr e ↦ rw e (f.0, InFile-insert total id page pages h k f.1)
]

scan_write-IsGood :
    (total u id : ℕ) (page : Page) (s : Scan)
    → id < total
    → IsPage page
    → IsGood total s
    → IsGood total (scan_write u id page s)
unfolding scan_write
scan_write-IsGood total u id page s h k g t = elim (Bool-cases (u == t)) [
  | inl e ↦
      rw (find-insert u (insert id page (pages_of (find u s.txn_pages))) t s.txn_pages, e)
        (unfold pages_of in
          (
            Distinct-insert id page (pages_of (find u s.txn_pages)) (g u).0,
            InFile-insert total id page (pages_of (find u s.txn_pages)) h k (g u).1,
          ))
  | inr e ↦
      rw (find-insert u (insert id page (pages_of (find u s.txn_pages))) t s.txn_pages, e) (g t)
]

scan_records-IsGood :
    (total : ℕ) (records : List Record) (s : Scan)
    → All (IsReplayable total) records
    → IsGood total s
    → IsGood total (scan_records records s)
unfolding scan_records scan_record scan_commit
scan_records-IsGood total [] s h g = g
scan_records-IsGood total (commit_mark t ∷ records) s h g =
    scan_records-IsGood total records _ h.1 g
scan_records-IsGood total (page_write u id page ∷ records) s h g =
    scan_records-IsGood total records _ h.1 (scan_write-IsGood total u id page s h.0.3 h.0.2 g)

-- The pages after the transactions `txns`, each of which wrote what `wrote` says, over `base`.
unfoldable pub restore : List ℕ → (ℕ → ℕ → Option Page) → (ℕ → Page) → ℕ → Page
restore [] wrote base = base
restore (t ∷ txns) wrote base = restore txns wrote (λ id. or_else (wrote t id) (base id))

record AppliedTxns (txns : List ℕ) (m : List (ℕ × List (ℕ × Page))) (p q : Pool) : Type 0 where
  idle : IsIdle q
  total_eq : (q.disk).total_pages ≡ (p.disk).total_pages
  shows : view q ≡ restore txns (λ t id. find id (pages_of (find t m))) (view p)

apply_txns_lem :
    (txns : List ℕ) (m : List (ℕ × List (ℕ × Page))) (p : Pool)
    → IsIdle p
    → ((t : ℕ) → Distinct (pages_of (find t m)) × InFile (p.disk).total_pages (pages_of (find t m)))
    → (q : Pool) × (apply_txns txns m p ≡ (ok tt, q)) × AppliedTxns txns m p q
unfolding apply_txns Pool.and_then restore
apply_txns_lem [] m p idle g = (p, refl, record { idle = idle; total_eq = refl; shows = refl })
apply_txns_lem (t ∷ txns) m p idle g =
    let (q, r, a) = apply_pages-AppliedAll (pages_of (find t m)) p idle (g t).0 (g t).1 in
    let (q', r', b) = apply_txns_lem txns m q a.idle (λ u.
      ((g u).0, subst (λ (n : ℕ). InFile n (pages_of (find u m))) (sym a.total_eq) (g u).1)) in
    (
      q',
      rw r r',
      record {
        idle = b.idle;
        total_eq = b.total_eq ∙ a.total_eq;
        shows =
            b.shows ∙ ap (restore txns (λ u id. find id (pages_of (find u m)))) (fun_ext a.shows);
      },
    )

-- The state after `recover`: as the records of `log` say, in the pool and in the durable file, with
-- an empty log.
pub record Recovered (log : List Record) (s s' : Engine) : Type 0 where
  pub valid : IsValid s'.pool
  pub shows :
      (j : ℕ)
      → view s'.pool j ≡ restore (commits log) (λ t id. last_write t id log none) (view s.pool) j
  pub durable : (j : ℕ) → pread page_size (j * page_size) ((s'.pool).disk).synced ≡ view s'.pool j
  pub log_empty : (s'.wal).file ≡ []

pub recover_scan :
    (log : List Record) (s : Engine)
    → scan_log (length (s.wal).file) (s.wal).file (start_scan s.wal)
      ≡ scan_records log (start_scan s.wal)
    → IsIdle s.pool
    → All (IsReplayable ((s.pool).disk).total_pages) log
    → (s' : Engine) × (recover s ≡ (ok tt, s')) × Recovered log s s'
unfolding recover then_checkpoint checkpoint truncated truncate
recover_scan log s e idle h =
    let total : ℕ = ((s.pool).disk).total_pages in
    let start : Scan = start_scan s.wal in
    let sc : Scan = scan_records log start in
    let good : IsGood total sc =
      scan_records-IsGood total log start h (λ t. unfold start_scan find pages_of in (tt, tt)) in
    let (q, r, a) = apply_txns_lem sc.committed_txns sc.txn_pages s.pool idle good in
    let (q', r', c) = flush_all-Checkpointed q (a.idle).valid in
    let wrote_eq : (λ t id. find id (pages_of (find t sc.txn_pages)))
        ≡ (λ t id. last_write t id log none) =
      fun_ext λ t. fun_ext λ id. wrote log s t id in
    let commits_eq : sc.committed_txns ≡ commits log = committed log s in
    (
      record { pool = q'; wal = record s.wal { next_transaction_id = sc.next_id; file = [] } },
      rw (e, r, r'),
      record {
        valid = c.valid;
        shows = λ j.
            c.same_view j
            ∙ ap (λ (f : ℕ → Page). f j) a.shows
            ∙ ap (λ w. restore sc.committed_txns w (view s.pool) j) wrote_eq
            ∙ ap (λ ts. restore ts (λ t id. last_write t id log none) (view s.pool) j) commits_eq;
        durable = λ j. c.durable j ∙ sym (c.same_view j);
        log_empty = refl;
      },
    )
  where
    wrote :
        (log : List Record) (s : Engine) (t id : ℕ)
        → find id (pages_of (find t (scan_records log (start_scan s.wal)).txn_pages))
          ≡ last_write t id log none
    wrote log s t id =
        scan_pages log (start_scan s.wal) t id
        ∙ ap (last_write t id log) (unfold start_scan find pages_of in refl)

    committed :
        (log : List Record) (s : Engine)
        → (scan_records log (start_scan s.wal)).committed_txns ≡ commits log
    committed log s = scan_commits log (start_scan s.wal) ∙ (unfold start_scan in refl)

-- On a pool with no pins, and on the first k bytes of a log whose records fit their fields and
-- whose pages lie in the file, recover returns; every page then shows the last write of the last
-- transaction that wrote it and whose COMMIT record lies whole in those bytes, or else what the
-- pool showed; the durable file holds the same, and the log is empty.
pub recover-Recovered :
    (records : List Record) (k : ℕ) (s : Engine)
    → (s.wal).file ≡ take k (encode_log records)
    → IsIdle s.pool
    → (h : All (IsReplayable ((s.pool).disk).total_pages) records)
    → (c : Cut records k) × (s' : Engine) × (recover s ≡ (ok tt, s')) × Recovered c.kept s s'
unfolding start_scan
recover-Recovered records k s e idle h =
    let total : ℕ = ((s.pool).disk).total_pages in
    let fits : All FitsRecord records = Replayable-Fits total records h in
    let c : Cut records k = cut_lem records k fits in
    let kept : All (IsReplayable total) c.kept =
      All-kept (IsReplayable total) records c.kept c.lost c.split h in
    let scanned = scan_log-take records k (start_scan s.wal) fits in
    let (s', r, d) = recover_scan c.kept s (rw e scanned) idle kept in (c, s', r, d)
