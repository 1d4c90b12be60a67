-- ===== src/Btree/Tree/Store.antt =====
-- What the methods of the tree see of the objects that it refers to, and what the reading and the
-- changing of a page do there.
use gs_dbengine.Base.{
  ℕ, ◌<◌, ◌≡◌, refl, ap, sym, ◌∙◌, inl, inr, true, false, some, Result, ok, if◌then◌else◌, ◌==◌,
  Bool-cases, arith,
}
use gs_dbengine.Storage.Page.{Page, IsPage}
use gs_dbengine.Storage.Pool.{
  Pool, find, fetch_page, unpin_page, unpin_slot, set_frame, write_frame,
}
use gs_dbengine.Storage.Pool.Table.{set_frame_self}
use gs_dbengine.Storage.Pool.Valid.{view}
use gs_dbengine.Storage.Pool.Fetch.{Fetched, fetch_page_cases}
use gs_dbengine.Storage.Pool.Release.{unpin_page-IsValid}
use gs_dbengine.Wal.{Wal, write, apply_page, copy_in}
use gs_dbengine.Wal.Apply.{IsIdle, free_slot, apply_page-Applied}
use gs_dbengine.Header.{DbHeader, with_pool}
use gs_dbengine.Btree.Tree.{
  BTree, pool_of, with_tree_pool, with_wal, fetch, unpin, contents, assign, write_page_through_wal,
  read_page, update_page, change_page, changed,
}

-- The pages as clients of the pool read them, and the rest of the state.
pub record Store : Type 0 where
  pub pages : ℕ → Page
  pub total : ℕ
  pub root : ℕ
  pub wal : Wal
  pub header : DbHeader

-- The tree's objects hold `c`, and nobody has pinned a page.
pub record Holds (c : Store) (t : BTree) : Type 0 where
  pub idle : IsIdle (pool_of t)
  pub shows : (j : ℕ) → view (pool_of t) j ≡ c.pages j
  pub total_eq : ((pool_of t).disk).total_pages ≡ c.total
  pub root_eq : t.root_page ≡ c.root
  pub wal_eq : ((t.manager).engine).wal ≡ c.wal
  pub header_eq : (t.manager).header ≡ c.header

-- A slot is fetched: idle pools never refuse.
fetched :
    (id : ℕ) (p : Pool)
    → IsIdle p
    → id < (p.disk).total_pages
    → (slot : ℕ) × (q : Pool) × (fetch_page id p ≡ (ok slot, q)) × Fetched id slot p q
fetched id p idle h = elim (fetch_page_cases id p idle.valid h) [
  | inl f ↦ f
  | inr (r, absent, pinned) ↦ absurd (free_slot p p.lru_list idle.slots pinned idle.free)
]

one_pin :
    (id slot : ℕ) (p q : Pool) → IsIdle p → Fetched id slot p q → (q.frames slot).pin_count ≡ 1
one_pin id slot p q idle f = let z = idle.free slot in elim f.pins [ inl e ↦ e | inr e ↦ e ∙ rw z ]

-- Fetched and unpinned again, the pool is idle.
module _ (id slot : ℕ) (p q : Pool) (idle : IsIdle p) (f : Fetched id slot p q) where
  released : Pool
  released = unpin_page id false q

  released-free : (s : ℕ) → (released.frames s).pin_count ≡ 0
  unfolding released unpin_page unpin_slot
  released-free s =
      rw (f.mapping, one_pin id slot p q idle f)
        (elim (Bool-cases (s == slot)) [
          | inl e ↦ unfold set_frame in rw e
          | inr e ↦ unfold set_frame in rw e (f.other_pins s e ∙ idle.free s)
        ])

  released_lru : released.lru_list ≡ q.lru_list
  unfolding released unpin_page unpin_slot
  released_lru = rw (f.mapping, one_pin id slot p q idle f) refl

  released_disk : released.disk ≡ q.disk
  unfolding released unpin_page unpin_slot
  released_disk = rw (f.mapping, one_pin id slot p q idle f) refl

  released-IsIdle : IsIdle released
  unfolding released
  released-IsIdle =
      let (rest, front) = f.front in
      record {
        valid = (unpin_page-IsValid id false q f.valid).0;
        free = released-free;
        slots = λ e. cc (released_lru, front, e);
      }

-- A page of the file is read: the code returns what the reader makes of it, and the store is
-- what it was.
pub read_page-Holds :
    {A : Type 0} (id : ℕ) (read : Page → Result A) (a : A) (c : Store) (t : BTree)
    → Holds c t
    → id < c.total
    → read (c.pages id) ≡ ok a
    → (t' : BTree) × (read_page id read t ≡ (ok a, t')) × Holds c t'
unfolding read_page fetch contents unpin with_tree_pool with_pool released
read_page-Holds id read a c t h inside e =
    let (slot, q, r, f) = fetched id (pool_of t) h.idle (omega (arith, h.total_eq)) in
    let content : read (q.frames slot).page ≡ ok a = ap read (f.content ∙ h.shows id) ∙ e in
    (
      with_tree_pool (released id slot (pool_of t) q h.idle f) t,
      rw (r, content) refl,
      record {
        idle = released-IsIdle id slot (pool_of t) q h.idle f;
        shows = λ j. (unpin_page-IsValid id false q f.valid).1 j ∙ f.same_view j ∙ h.shows j;
        total_eq =
            ap (λ d. d.total_pages) (released_disk id slot (pool_of t) q h.idle f)
            ∙ f.total_eq
            ∙ h.total_eq;
        root_eq = h.root_eq;
        wal_eq = h.wal_eq;
        header_eq = h.header_eq;
      },
    )

-- The frame that was written and unpinned still holds the page.
written_page :
    (id slot : ℕ) (page : Page) (q : Pool)
    → find id q.page_table ≡ some slot
    → (q.frames slot).pin_count ≡ 1
    → ((unpin_page id true (write_frame slot page q)).frames slot).page ≡ page
unfolding unpin_page unpin_slot write_frame
written_page id slot page q e one =
    rw
      (
        e,
        set_frame_self slot (record (q.frames slot) { page = page }) q.frames,
        one,
        set_frame_self,
      )
      refl

-- The store after `new` was written at `id` under a transaction.
unfoldable pub put : ℕ → ℕ → Page → Store → Store
put transaction_id id new c = record c {
  pages = λ j. if j == id then new else c.pages j;
  wal = write transaction_id id new c.wal;
}

-- A page of the file is changed and logged.
pub update_page-Holds :
    {A : Type 0} (transaction_id id : ℕ) (update : Page → Result (A × Page)) (a : A) (new : Page)
    (c : Store) (t : BTree)
    → Holds c t
    → id < c.total
    → IsPage new
    → update (c.pages id) ≡ ok (a, new)
    → (t' : BTree) × (update_page transaction_id id update t ≡ (ok a, t'))
      × Holds (put transaction_id id new c) t'
unfolding update_page fetch contents assign unpin write_page_through_wal with_tree_pool with_wal
    with_pool put
update_page-Holds transaction_id id update a new c t h inside is_page e =
    let lt : id < ((pool_of t).disk).total_pages = omega (arith, h.total_eq) in
    let (slot, q, r, f) = fetched id (pool_of t) h.idle lt in
    let content : update (q.frames slot).page ≡ ok (a, new) =
      ap update (f.content ∙ h.shows id) ∙ e in
    let (q', r', applied) = apply_page-Applied id new (pool_of t) h.idle lt is_page in
    let ran : apply_page id new (pool_of t) ≡ (ok tt, unpin_page id true (write_frame slot new q)) =
      unfold apply_page copy_in in rw r in
    let pool_eq : unpin_page id true (write_frame slot new q) ≡ q' =
      ap (λ (x : Result (Unit {0}) × Pool). x.1) (sym ran ∙ r') in
    let page_eq : (q'.frames slot).page ≡ new =
      ap (λ (p : Pool). (p.frames slot).page) (sym pool_eq)
      ∙ written_page id slot new q f.mapping (one_pin id slot (pool_of t) q h.idle f) in
    (
      with_wal (write transaction_id id new ((t.manager).engine).wal) (with_tree_pool q' t),
      rw (r, content, pool_eq, page_eq) refl,
      record {
        idle = applied.idle;
        shows = λ j. applied.shows j ∙ ap (λ x. if j == id then new else x) (h.shows j);
        total_eq = applied.total_eq ∙ h.total_eq;
        root_eq = h.root_eq;
        wal_eq = ap (write transaction_id id new) h.wal_eq;
        header_eq = h.header_eq;
      },
    )

pub change_page-Holds :
    (transaction_id id : ℕ) (change : Page → Result Page) (new : Page) (c : Store) (t : BTree)
    → Holds c t
    → id < c.total
    → IsPage new
    → change (c.pages id) ≡ ok new
    → (t' : BTree) × (change_page transaction_id id change t ≡ (ok tt, t'))
      × Holds (put transaction_id id new c) t'
unfolding change_page changed
change_page-Holds transaction_id id change new c t h inside is_page e =
    update_page-Holds transaction_id id (λ page. changed (change page)) tt new c t h inside is_page
      (rw e refl)
