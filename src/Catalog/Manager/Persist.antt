-- ===== src/Catalog/Manager/Persist.antt =====
-- `load` after `persist`.
use gs_dbengine.Base.{
  ℕ, ◌-◌, ◌<◌, ◌≤◌, ◌≡◌, ◌≢◌, refl, ap, ◌∙◌, inl, inr, false, [], ◌∷◌, ◌++◌, length, ok,
  if◌then◌else◌, ◌==◌, ltb-false, replicate, length-replicate, length-append, arith,
}
use gs_dbengine.Storage.Page.{Page, IsPage, page_size}
use gs_dbengine.Storage.Pool.{unpin_page}
use gs_dbengine.Storage.Pool.Valid.{view}
use gs_dbengine.Storage.Pool.Fetch.{fetch_page_cases}
use gs_dbengine.Storage.Pool.Release.{unpin_page-IsValid}
use gs_dbengine.Wal.{begin, write, commit}
use gs_dbengine.Wal.Apply.{IsIdle, free_slot}
use gs_dbengine.Wal.Transaction.{transaction, write_all, last_page, transaction-Ran}
use gs_dbengine.Catalog.Codec.{Catalog, serialize, deserialize}
use gs_dbengine.Catalog.Codec.Whole.{FitsCatalog, deserialize-serialize_catalog}
use gs_dbengine.Catalog.Manager.{
  CatalogManager, catalog_page_id, with_pool, store_page, persist, load, load_fetched, load_bytes,
}

-- The page that `persist` writes.
abbrev pub catalog_page : Catalog → Page
catalog_page c = serialize c ++ replicate (page_size - length (serialize c)) 0

-- After `persist`: the catalog is as before, its page holds it, and the other pages read as before.
pub record Persisted (s s' : CatalogManager) : Type 0 where
  pub idle : IsIdle (s'.engine).pool
  pub total_eq : (((s'.engine).pool).disk).total_pages ≡ (((s.engine).pool).disk).total_pages
  pub same_catalog : s'.catalog ≡ s.catalog
  pub shows :
      (j : ℕ)
      → view (s'.engine).pool j
        ≡ (if catalog_page_id == j then catalog_page s.catalog else view (s.engine).pool j)

abbrev InFilePage : CatalogManager → Type 0
InFilePage s = catalog_page_id < (((s.engine).pool).disk).total_pages

persist-Persisted :
    (s : CatalogManager)
    → IsIdle (s.engine).pool
    → InFilePage s
    → length (serialize s.catalog) ≤ page_size
    → (s' : CatalogManager) × (persist s ≡ (ok tt, s')) × Persisted s s'
unfolding persist store_page
persist-Persisted s idle inside small =
    let page : Page = catalog_page s.catalog in
    let is_page : IsPage page = omega (
      arith,
      length-append (serialize s.catalog) (replicate (page_size - length (serialize s.catalog)) 0),
      length-replicate {A = ℕ} (page_size - length (serialize s.catalog)) 0,
    ) in
    let (e, r, ran) =
      transaction-Ran ((catalog_page_id, page) ∷ []) s.engine idle ((inside, is_page), tt) in
    let r' : commit (begin (s.engine).wal).0 (record s.engine {
      wal = write (begin (s.engine).wal).0 catalog_page_id page (begin (s.engine).wal).1;
    })
        ≡ (ok tt, e) =
      unfold transaction write_all in r in
    (
      record s { engine = e },
      rw (ltb-false page_size (length (serialize s.catalog)) small, r'),
      record {
        idle = ran.idle;
        total_eq = ran.total_eq;
        same_catalog = refl;
        shows = λ j. ran.shows j ∙ (unfold last_page in ground arith);
      },
    )

-- On a pool with no pins and a file with page 1, a catalog that has a table, distinct names and
-- lengths within their fields, and whose bytes fit the page, is persisted, and a manager that
-- loads the page then, whatever its maps were, has the same catalog, with NULL as the default of
-- the columns that have none, and every page as persist left it.
pub load-persist :
    (s : CatalogManager)
    → IsIdle (s.engine).pool
    → InFilePage s
    → length (serialize s.catalog) ≤ page_size
    → FitsCatalog s.catalog
    → (s.catalog).tables ≢ []
    → (old : Catalog)
    → (s' : CatalogManager) × (persist s ≡ (ok tt, s'))
      × Persisted s s'
      × (s'' : CatalogManager) × (load false (record s' { catalog = old }) ≡ (ok tt, s''))
      × (s''.catalog ≡ s.catalog)
      × ((j : ℕ) → view (s''.engine).pool j ≡ view (s'.engine).pool j)
unfolding load load_fetched load_bytes with_pool
load-persist s idle inside small fits tables old =
    let (s', r, p) = persist-Persisted s idle inside small in
    elim (fetch_page_cases catalog_page_id (s'.engine).pool (p.idle).valid
      (omega (arith, p.total_eq, inside))) [
        | inl (slot, q, f, fetched) ↦
            let content : (q.frames slot).page ≡ catalog_page s.catalog =
              fetched.content ∙ p.shows catalog_page_id in
            let back : deserialize (q.frames slot).page ≡ ok s.catalog =
              ap deserialize content
              ∙ deserialize-serialize_catalog s.catalog
                  (replicate (page_size - length (serialize s.catalog)) 0) fits tables in
            (
              s',
              r,
              p,
              record {
                engine = record s'.engine { pool = unpin_page catalog_page_id false q };
                catalog = s.catalog;
              },
              rw (f, back),
              refl,
              λ j.
                  (unpin_page-IsValid catalog_page_id false q fetched.valid).1 j
                  ∙ fetched.same_view j,
            )
        | inr (f, absent, pinned) ↦
            absurd (free_slot (s'.engine).pool _ (p.idle).slots pinned (p.idle).free)
      ]
