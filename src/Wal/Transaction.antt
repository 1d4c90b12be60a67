-- ===== src/Wal/Transaction.antt =====
-- A whole transaction, `begin`, `write`s and `commit`, and a crash after it.
use gs_dbengine.Base.{
  ℕ, ◌≡◌, refl, ap, sym, ◌∙◌, List, [], ◌∷◌, ◌++◌, Bytes, if◌then◌else◌, ◌==◌, Option, none, some,
  Result, ok, append_assoc, append-nil,
}
use gs_dbengine.Base.Assoc.{find, insert, find-insert, Distinct, Distinct-insert}
use gs_dbengine.Storage.Page.{Page}
use gs_dbengine.Storage.Pool.Valid.{view}
use gs_dbengine.Wal.{Wal, Engine, begin, write, commit, record_header}
use gs_dbengine.Wal.Log.{Record, page_write, commit_mark, encode_record, encode_log}
use gs_dbengine.Wal.Apply.{IsIdle, or_else, InFile}
use gs_dbengine.Wal.Commit.{commit-Committed}
use gs_dbengine.Wal.Recover.{InFile-insert}

-- `write` for each page in turn.
unfoldable pub write_all : ℕ → List (ℕ × Page) → Wal → Wal
write_all t [] w = w
write_all t ((id, page) ∷ pages) w = write_all t pages (write t id page w)

-- The last page of a list of writes at an id.
unfoldable pub last_page : ℕ → List (ℕ × Page) → Option Page → Option Page
last_page j [] o = o
last_page j ((id, page) ∷ pages) o = last_page j pages (if id == j then some page else o)

abbrev pub writes_of : ℕ → List (ℕ × Page) → List Record
writes_of t [] = []
writes_of t ((id, page) ∷ pages) = page_write t id page ∷ writes_of t pages

pub encode_log-append :
    (xs ys : List Record) → encode_log (xs ++ ys) ≡ encode_log xs ++ encode_log ys
unfolding encode_log
encode_log-append [] ys = refl
encode_log-append (r ∷ xs) ys =
    ap (λ t. encode_record r ++ t) (encode_log-append xs ys)
    ∙ sym (append_assoc (encode_record r) (encode_log xs) (encode_log ys))

write_file :
    (t id : ℕ) (page : Page) (w : Wal)
    → (write t id page w).file ≡ w.file ++ encode_record (page_write t id page)
unfolding write encode_record
write_file t id page w = append_assoc w.file (record_header 1 t id) page

write_all_file :
    (t : ℕ) (pages : List (ℕ × Page)) (w : Wal)
    → (write_all t pages w).file ≡ w.file ++ encode_log (writes_of t pages)
unfolding write_all encode_log
write_all_file t [] w = sym (append-nil w.file)
write_all_file t ((id, page) ∷ pages) w =
    write_all_file t pages (write t id page w)
    ∙ ap (λ f. f ++ encode_log (writes_of t pages)) (write_file t id page w)
    ∙ append_assoc w.file (encode_record (page_write t id page)) (encode_log (writes_of t pages))

active_write :
    (t id : ℕ) (page : Page) (w : Wal)
    → (write t id page w).active_pages ≡ insert id page w.active_pages
unfolding write
active_write t id page w = refl

-- what `commit` needs of the active pages
pub record IsActive (total : ℕ) (m : List (ℕ × Page)) : Type 0 where
  pub distinct : Distinct m
  pub in_file : InFile total m

pub write_all-IsActive :
    (total t : ℕ) (pages : List (ℕ × Page)) (w : Wal)
    → InFile total pages
    → IsActive total w.active_pages
    → IsActive total (write_all t pages w).active_pages
unfolding write_all
write_all-IsActive total t [] w h a = a
write_all-IsActive total t ((id, page) ∷ pages) w h a =
    write_all-IsActive total t pages (write t id page w) h.1 (
      rw (active_write t id page w) record {
        distinct = Distinct-insert id page w.active_pages a.distinct;
        in_file = InFile-insert total id page w.active_pages h.0.0 h.0.1 a.in_file;
      })

pub find-write_all :
    (t : ℕ) (pages : List (ℕ × Page)) (w : Wal) (j : ℕ)
    → find j (write_all t pages w).active_pages ≡ last_page j pages (find j w.active_pages)
unfolding write_all last_page
find-write_all t [] w j = refl
find-write_all t ((id, page) ∷ pages) w j =
    find-write_all t pages (write t id page w) j
    ∙ ap (last_page j pages)
        (ap (find j) (active_write t id page w) ∙ find-insert id page j w.active_pages)

-- `begin`, the writes and `commit`, as the callers of the log make them.
unfoldable pub transaction : List (ℕ × Page) → Engine → Result (Unit {0}) × Engine
transaction pages s = let (t, w) = begin s.wal in commit t (record s { wal = write_all t pages w })

-- What a transaction of these pages leaves: the view, the file's size, and the log, durable whole.
pub record Ran (pages : List (ℕ × Page)) (s s' : Engine) : Type 0 where
  pub idle : IsIdle s'.pool
  pub total_eq : ((s'.pool).disk).total_pages ≡ ((s.pool).disk).total_pages
  pub shows : (j : ℕ) → view s'.pool j ≡ or_else (last_page j pages none) (view s.pool j)
  pub log_eq :
      (s'.wal).file
      ≡ (s.wal).file
        ++ encode_log (
            writes_of (s.wal).next_transaction_id pages
            ++ commit_mark (s.wal).next_transaction_id ∷ [])
  pub log_synced : (s'.wal).synced ≡ (s'.wal).file

-- On a pool with no pins, begin, writes of pages of the file and commit succeed: the pool shows
-- the last page written at each id and else what it showed, and the log, durable whole, has grown
-- by the writes and the COMMIT record.
pub transaction-Ran :
    (pages : List (ℕ × Page)) (s : Engine)
    → IsIdle s.pool
    → InFile ((s.pool).disk).total_pages pages
    → (s' : Engine) × (transaction pages s ≡ (ok tt, s')) × Ran pages s s'
unfolding transaction
transaction-Ran pages s idle h =
    let t : ℕ = (s.wal).next_transaction_id in
    let w : Wal = (begin s.wal).1 in
    let active : IsActive ((s.pool).disk).total_pages (write_all t pages w).active_pages =
      write_all-IsActive ((s.pool).disk).total_pages t pages w h
        (unfold begin in record { distinct = tt; in_file = tt }) in
    let (s', r, c) =
      commit-Committed t (record s { wal = write_all t pages w }) idle active.distinct
        active.in_file in
    (
      s',
      (unfold begin in r),
      record {
        idle = c.idle;
        total_eq = c.total_eq;
        shows = λ j.
            c.shows j
            ∙ ap (λ o. or_else o (view s.pool j))
                (find-write_all t pages w j ∙ begin_find pages s j);
        log_eq =
            c.log_eq
            ∙ ap (λ f. f ++ encode_record (commit_mark t)) (write_all_file t pages w)
            ∙ append_assoc w.file (encode_log (writes_of t pages)) (encode_record (commit_mark t))
            ∙ ap (λ f. w.file ++ f) (commit_encoded t pages)
            ∙ begin_file s (encode_log (writes_of t pages ++ commit_mark t ∷ []));
        log_synced = c.log_synced;
      },
    )
  where
    begin_find :
        (pages : List (ℕ × Page)) (s : Engine) (j : ℕ)
        → last_page j pages (find j (begin s.wal).1.active_pages) ≡ last_page j pages none
    begin_find pages s j = unfold begin find in refl

    begin_file : (s : Engine) (x : Bytes) → (begin s.wal).1.file ++ x ≡ (s.wal).file ++ x
    begin_file s x = unfold begin in refl

    commit_encoded :
        (t : ℕ) (pages : List (ℕ × Page))
        → encode_log (writes_of t pages) ++ encode_record (commit_mark t)
          ≡ encode_log (writes_of t pages ++ commit_mark t ∷ [])
    commit_encoded t pages =
        let e : encode_record (commit_mark t) ++ [] ≡ encode_log (commit_mark t ∷ []) =
          unfold encode_log in refl in
        ap (λ x. encode_log (writes_of t pages) ++ x)
          (sym (append-nil (encode_record (commit_mark t))) ∙ e)
        ∙ sym (encode_log-append (writes_of t pages) (commit_mark t ∷ []))
