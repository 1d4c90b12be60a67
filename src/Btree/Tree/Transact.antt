-- ===== src/Btree/Tree/Transact.antt =====
-- The transaction of a method: what it writes is on the pages already, so the commit changes none.
use gs_dbengine.Base.{
  ℕ, ◌<◌, ◌≡◌, refl, ap, ◌∙◌, inl, inr, true, false, [], ◌∷◌, Option, some, ok, if◌then◌else◌, ◌==◌,
  Bool-cases, arith, ◌≢◌, ◌++◌, append_assoc, append-nil,
}
use gs_dbengine.Wal.Log.{page_write, commit_mark, encode_record, encode_log}
use gs_dbengine.Base.Assoc.{find}
use gs_dbengine.Storage.Page.{Page, IsPage}
use gs_dbengine.Storage.Pool.Valid.{view}
use gs_dbengine.Wal.{Wal, begin, write}
use gs_dbengine.Wal.Apply.{or_else}
use gs_dbengine.Wal.Commit.{commit-Committed}
use gs_dbengine.Wal.Transaction.{IsActive, write_all, write_all-IsActive, find-write_all, last_page}
use gs_dbengine.Btree.Tree.{BTree, pool_of, with_wal, begin_transaction, commit_transaction}
use gs_dbengine.Btree.Tree.Store.{Store, Holds, put}

-- Every page that the transaction has logged is the page that clients read.
pub record IsLogged (c : Store) : Type 0 where
  pub active : IsActive c.total (c.wal).active_pages
  pub agrees : (j : ℕ) → or_else (find j (c.wal).active_pages) (c.pages j) ≡ c.pages j

unfoldable pub started : Store → Store
started c = record c { wal = (begin c.wal).1 }

pub begin-Holds :
    (c : Store) (t : BTree)
    → Holds c t
    → (t' : BTree) × (begin_transaction t ≡ (ok (c.wal).next_transaction_id, t'))
      × Holds (started c) t'
      × IsLogged (started c)
unfolding begin_transaction started begin with_wal
begin-Holds c t h = (
  with_wal (begin ((t.manager).engine).wal).1 t,
  ap (λ (w : Wal). (ok w.next_transaction_id, with_wal (begin ((t.manager).engine).wal).1 t))
      h.wal_eq,
  record {
    idle = h.idle;
    shows = h.shows;
    total_eq = h.total_eq;
    root_eq = h.root_eq;
    wal_eq = ap (λ (w : Wal). (begin w).1) h.wal_eq;
    header_eq = h.header_eq;
  },
  record { active = record { distinct = tt; in_file = tt }; agrees = λ j. unfold find in refl },
)

agree :
    (j id : ℕ) (new page : Page) (o : Option Page)
    → or_else o page ≡ page
    → or_else (if id == j then some new else o) (if j == id then new else page)
      ≡ (if j == id then new else page)
agree j id new page o e = elim (Bool-cases (j == id)) [
  | inl x ↦ let y : id == j ≡ true = ground (arith, x) in rw (x, y) refl
  | inr x ↦ let y : id == j ≡ false = ground (arith, x) in rw (x, y) e
]

pub put-IsLogged :
    (transaction_id id : ℕ) (new : Page) (c : Store)
    → IsLogged c
    → id < c.total
    → IsPage new
    → IsLogged (put transaction_id id new c)
unfolding put
put-IsLogged transaction_id id new c l inside is_page = record {
  active =
      unfold write_all in
      write_all-IsActive c.total transaction_id ((id, new) ∷ []) c.wal ((inside, is_page), tt)
        l.active;
  agrees = λ j.
      let e : find j (write transaction_id id new c.wal).active_pages
          ≡ (if id == j then some new else find j (c.wal).active_pages) =
        unfold write_all last_page in find-write_all transaction_id ((id, new) ∷ []) c.wal j in
      rw e (agree j id new (c.pages j) (find j (c.wal).active_pages) (l.agrees j));
}

-- Under the transaction, one page alone has changed; the log has grown by the WRITE record of the page
-- as it is now and by the COMMIT record, and the whole of it is durable.
abbrev pub LogsChange : ℕ → ℕ → Store → Store → Type 0
LogsChange transaction_id id c c' =
    ((c'.wal).file
      ≡ (c.wal).file
        ++ encode_log
            (page_write transaction_id id (c'.pages id) ∷ commit_mark transaction_id ∷ []))
    × ((c'.wal).synced ≡ (c'.wal).file)
    × ((j : ℕ) → j ≢ id → c'.pages j ≡ c.pages j)

-- The bytes of a transaction that writes one page.
pub one_write_log :
    (transaction_id id : ℕ) (page : Page) (w : Wal)
    → (write transaction_id id page w).file ++ encode_record (commit_mark transaction_id)
      ≡ w.file ++ encode_log (page_write transaction_id id page ∷ commit_mark transaction_id ∷ [])
unfolding write encode_log encode_record
one_write_log transaction_id id page w = simp (append_assoc, append-nil)

pub commit-Holds :
    (transaction_id : ℕ) (c : Store) (t : BTree)
    → Holds c t
    → IsLogged c
    → (w : Wal) × (t' : BTree) × (commit_transaction transaction_id t ≡ (ok tt, t'))
      × Holds (record c { wal = w }) t'
      × (w.file ≡ (c.wal).file ++ encode_record (commit_mark transaction_id))
      × (w.synced ≡ w.file)
unfolding commit_transaction
commit-Holds transaction_id c t h l =
    let (e, r, d) =
      commit-Committed transaction_id (t.manager).engine h.idle (rw h.wal_eq ((l.active).distinct))
        (rw (h.wal_eq, h.total_eq) ((l.active).in_file)) in
    (
      e.wal,
      record t { manager = record t.manager { engine = e } },
      rw r refl,
      record {
        idle = d.idle;
        shows = λ j.
            d.shows j
            ∙ ap (λ (w : Wal). or_else (find j w.active_pages) (view (pool_of t) j)) h.wal_eq
            ∙ ap (or_else (find j (c.wal).active_pages)) (h.shows j)
            ∙ l.agrees j;
        total_eq = d.total_eq ∙ h.total_eq;
        root_eq = h.root_eq;
        wal_eq = refl;
        header_eq = h.header_eq;
      },
      d.log_eq ∙ ap (λ (l : Wal). l.file ++ encode_record (commit_mark transaction_id)) h.wal_eq,
      d.log_synced,
    )
