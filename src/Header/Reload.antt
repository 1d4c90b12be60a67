-- ===== src/Header/Reload.antt =====
-- `load` after `save`.
use gs_dbengine.Base.{
  ℕ, ◌<◌, ◌^◌, ◌≡◌, refl, ap, sym, ◌∙◌, inl, inr, false, [], ◌∷◌, ◌++◌, Bytes, length, ok,
  if◌then◌else◌, ◌==◌, take, drop, field, splice, le_bytes, le_value-le_bytes, length-splice, arith,
}
use gs_dbengine.Row.{list_eq}
use gs_dbengine.Storage.Page.{Page, IsPage, page_size, header_page_id, zero_page, zero_page-IsPage}
use gs_dbengine.Storage.Pool.{unpin_page, total_pages}
use gs_dbengine.Storage.Pool.Valid.{view}
use gs_dbengine.Storage.Pool.Fetch.{fetch_page_cases}
use gs_dbengine.Storage.Pool.Release.{unpin_page-IsValid}
use gs_dbengine.Wal.{begin, write, commit}
use gs_dbengine.Wal.Apply.{IsIdle, free_slot}
use gs_dbengine.Wal.Transaction.{transaction, write_all, last_page, transaction-Ran}
use gs_dbengine.Catalog.Schema.{text_eq}
use gs_dbengine.Header.{
  DbHeader, HeaderManager, db_magic, db_version, header_bytes, header_to_page, header_of_page,
  check_header, with_pool, save, load, load_fetched,
}

-- A header that `load` accepts, of the widths of its fields.
pub record FitsHeader (h : DbHeader) : Type 0 where
  pub magic_eq : h.magic ≡ db_magic
  pub page_size_eq : h.file_page_size ≡ page_size
  pub version_eq : h.version ≡ db_version
  pub pages_fit : h.pages < 2 ^ 32
  pub schema_fits : h.schema_root_page < 2 ^ 32
  pub free_fits : h.first_free_page < 2 ^ 32
  pub reserved_fits : h.reserved < 2 ^ 32

-- The words of the struct, with the magic text of the source in front of them.
module _ (h : DbHeader) (f : FitsHeader h) (tail : Bytes) where
  abbrev packed : Page
  packed = header_bytes (record h { magic = db_magic }) ++ tail

  magic_field : take 16 packed ≡ h.magic
  unfolding header_bytes
  magic_field = sym f.magic_eq

  page_size_field : field 4 16 packed ≡ h.file_page_size
  unfolding header_bytes field le_bytes
  page_size_field = le_value-le_bytes 4 h.file_page_size (omega (arith, f.page_size_eq))

  pages_field : field 4 20 packed ≡ h.pages
  unfolding header_bytes field le_bytes
  pages_field = le_value-le_bytes 4 h.pages f.pages_fit

  schema_field : field 4 24 packed ≡ h.schema_root_page
  unfolding header_bytes field le_bytes
  schema_field = le_value-le_bytes 4 h.schema_root_page f.schema_fits

  free_field : field 4 28 packed ≡ h.first_free_page
  unfolding header_bytes field le_bytes
  free_field = le_value-le_bytes 4 h.first_free_page f.free_fits

  version_field : field 4 32 packed ≡ h.version
  unfolding header_bytes field le_bytes
  version_field = le_value-le_bytes 4 h.version (omega (arith, f.version_eq))

  reserved_field : field 4 36 packed ≡ h.reserved
  unfolding header_bytes field le_bytes
  reserved_field = le_value-le_bytes 4 h.reserved f.reserved_fits

  header_of_packed : header_of_page packed ≡ h
  unfolding header_of_page
  header_of_packed = rw (
    magic_field, page_size_field, pages_field, schema_field, free_field, version_field,
    reserved_field,
  )

page_eq :
    (h : DbHeader)
    → h.magic ≡ db_magic
    → header_to_page h
      ≡ header_bytes (record h { magic = db_magic }) ++ drop (length (header_bytes h)) zero_page
unfolding header_to_page splice
page_eq h e =
    ap (λ (n : ℕ). header_bytes h ++ drop n zero_page) {y = length (header_bytes h)} (omega arith)
    ∙ ap
        (λ (m : Bytes).
          header_bytes (record h { magic = m }) ++ drop (length (header_bytes h)) zero_page)
        e

-- The bytes of the header, read back from its page.
pub header_of-header_to_page : (h : DbHeader) → FitsHeader h → header_of_page (header_to_page h) ≡ h
header_of-header_to_page h f =
    ap header_of_page (page_eq h f.magic_eq)
    ∙ header_of_packed h f (drop (length (header_bytes h)) zero_page)

length-header_bytes : (h : DbHeader) → length (header_bytes (record h { magic = db_magic })) ≡ 40
unfolding header_bytes le_bytes
length-header_bytes h = omega arith

pub header_to_page-IsPage : (h : DbHeader) → h.magic ≡ db_magic → IsPage (header_to_page h)
unfolding header_to_page
header_to_page-IsPage h e =
    let short : length (header_bytes h) ≡ 40 =
      ap (λ (m : Bytes). length (header_bytes (record h { magic = m }))) e
      ∙ length-header_bytes h in
    length-splice 0 (header_bytes h) zero_page (omega (arith, short, zero_page-IsPage))
    ∙ zero_page-IsPage

check_header_lem : (h : DbHeader) → FitsHeader h → check_header h ≡ ok tt
unfolding check_header text_eq list_eq
check_header_lem h f = rw (f.magic_eq, f.page_size_eq, f.version_eq)

-- After `save`: the header is as before, page 0 holds it, and the other pages read as before.
pub record Saved (s s' : HeaderManager) : Type 0 where
  pub idle : IsIdle (s'.engine).pool
  pub total_eq : (((s'.engine).pool).disk).total_pages ≡ (((s.engine).pool).disk).total_pages
  pub same_header : s'.header ≡ s.header
  pub shows :
      (j : ℕ)
      → view (s'.engine).pool j
        ≡ (if header_page_id == j then header_to_page s.header else view (s.engine).pool j)

save-Saved :
    (s : HeaderManager)
    → IsIdle (s.engine).pool
    → 0 < (((s.engine).pool).disk).total_pages
    → FitsHeader s.header
    → (s' : HeaderManager) × (save s ≡ (ok tt, s')) × Saved s s'
unfolding save
save-Saved s idle inside f =
    let page : Page = header_to_page s.header in
    let is_page : IsPage page = header_to_page-IsPage s.header f.magic_eq in
    let (e, r, ran) =
      transaction-Ran ((header_page_id, page) ∷ []) s.engine idle ((inside, is_page), tt) in
    let r' : commit (begin (s.engine).wal).0 (record s.engine {
      wal = write (begin (s.engine).wal).0 header_page_id page (begin (s.engine).wal).1;
    })
        ≡ (ok tt, e) =
      unfold transaction write_all in r in
    (
      record s { engine = e },
      rw r',
      record {
        idle = ran.idle;
        total_eq = ran.total_eq;
        same_header = refl;
        shows = λ j. ran.shows j ∙ (unfold last_page in ground arith);
      },
    )

-- On a pool with no pins and a file that has a page, a header of this version is saved; a manager
-- that loads the page then, whatever header it had, accepts it and has the same header, with every
-- page as save left it.
pub load-save :
    (s : HeaderManager)
    → IsIdle (s.engine).pool
    → 0 < (((s.engine).pool).disk).total_pages
    → FitsHeader s.header
    → (old : DbHeader)
    → (s' : HeaderManager) × (save s ≡ (ok tt, s'))
      × Saved s s'
      × (s'' : HeaderManager) × (load (record s' { header = old }) ≡ (ok tt, s''))
      × (s''.header ≡ s.header)
      × ((j : ℕ) → view (s''.engine).pool j ≡ view (s'.engine).pool j)
unfolding load load_fetched with_pool total_pages
load-save s idle inside fits old =
    let (s', r, p) = save-Saved s idle inside fits in
    let some_page : (((s'.engine).pool).disk).total_pages == 0 ≡ false =
      ground (arith, p.total_eq, inside) in
    elim (fetch_page_cases header_page_id (s'.engine).pool (p.idle).valid
      (omega (arith, p.total_eq, inside))) [
        | inl (slot, q, f, fetched) ↦
            let content : (q.frames slot).page ≡ header_to_page s.header =
              fetched.content ∙ p.shows header_page_id in
            let back : header_of_page (q.frames slot).page ≡ s.header =
              ap header_of_page content ∙ header_of-header_to_page s.header fits in
            (
              s',
              r,
              p,
              record {
                engine = record s'.engine { pool = unpin_page header_page_id false q };
                header = s.header;
              },
              rw (some_page, f, back, check_header_lem s.header fits),
              refl,
              λ j.
                  (unpin_page-IsValid header_page_id false q fetched.valid).1 j
                  ∙ fetched.same_view j,
            )
        | inr (f, absent, pinned) ↦
            absurd (free_slot (s'.engine).pool _ (p.idle).slots pinned (p.idle).free)
      ]
