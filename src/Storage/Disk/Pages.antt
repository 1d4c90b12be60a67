-- ===== src/Storage/Disk/Pages.antt =====
-- The file as an array of pages.
use gs_dbengine.Base.{
  ℕ, ◌+◌, ◌*◌, ◌/◌, ◌%◌, ◌^◌, ◌<◌, ◌≤◌, ◌≡◌, ◌≢◌, refl, ap, sym, ◌∙◌, false, inl, inr, ◌++◌, Bytes,
  length, ok, err, ltb, ◌==◌, if◌then◌else◌, take, drop, replicate, splice, page_out_of_range,
  append-nil, arith, length-take, length-drop, length-append, length-splice, drop-splice_self,
  drop-splice_after, slice-splice_before, take-append, take-append_le, take-length, drop-ge, ◌⊎◌,
  file_size_corrupt, drop-append_le, drop-append, Bool-cases,
}
use gs_dbengine.Storage.Page.{Page, IsPage, page_size, zero_page, zero_page-IsPage}
use gs_dbengine.Storage.Disk.{
  Disk, IsDisk, pread, pwrite, open_disk, read_page, write_page, allocate_page, page_at,
}

pub page_at-IsPage : (d : Disk) (id : ℕ) → IsDisk d → id < d.total_pages → IsPage (page_at d id)
unfolding page_at pread
page_at-IsPage d id v h =
    length-take page_size (drop (id * page_size) d.file)
      (omega (arith, v.whole, length-drop (id * page_size) d.file))

-- On a file of whole pages, read_page returns the page at every id below the count and throws at
-- every other.
pub read_page_lem :
    (d : Disk) (id : ℕ)
    → IsDisk d
    → read_page id d ≡ (if ltb id d.total_pages then ok (page_at d id) else err page_out_of_range)
unfolding read_page
read_page_lem d id v = elim (Bool-cases (ltb id d.total_pages)) [
  | inl lt ↦ rw lt (
      let e : length (page_at d id) ≡ page_size = page_at-IsPage d id v (ground arith) in
      (unfold page_at in ground (arith, e)))
  | inr ge ↦ ground arith
]

pwrite_inside :
    (bs file : Bytes) (off : ℕ) → off ≤ length file → pwrite bs off file ≡ splice off bs file
unfolding pwrite
pwrite_inside bs file off h =
    ap (λ (n : ℕ). splice off bs (file ++ replicate n 0)) {y = 0} (omega arith)
    ∙ ap (splice off bs) (append-nil file)

module _ (d : Disk) (id : ℕ) (page : Page) (v : IsDisk d) (h : id < d.total_pages)
    (is_page : IsPage page) where
  fits : id * page_size + length page ≤ length d.file
  fits = omega (arith, v.whole, is_page)

  file_eq : pwrite page (id * page_size) d.file ≡ splice (id * page_size) page d.file
  file_eq = pwrite_inside page d.file (id * page_size) (omega (arith, fits))

  abbrev pub written : Disk
  written = record d { file = pwrite page (id * page_size) d.file }

  pub write_page-eq : write_page id page d ≡ ok written
  unfolding write_page
  write_page-eq = ground arith

  pub write_page-IsDisk : IsDisk written
  write_page-IsDisk = record {
    whole = ap length file_eq ∙ length-splice (id * page_size) page d.file fits ∙ v.whole;
    count = v.count;
  }

  page_at-write_self : page_at written id ≡ page
  unfolding page_at pread
  page_at-write_self =
      ap (λ t. take page_size (drop (id * page_size) t)) file_eq
      ∙ ap (take page_size) (drop-splice_self (id * page_size) page d.file fits)
      ∙ ap (λ (n : ℕ). take n (page ++ drop (id * page_size + length page) d.file)) (sym is_page)
      ∙ take-append page (drop (id * page_size + length page) d.file)

  page_at-write_ne : (j : ℕ) → (j == id) ≡ false → page_at written j ≡ page_at d j
  unfolding page_at pread
  page_at-write_ne j ne =
      ap (λ t. take page_size (drop (j * page_size) t)) file_eq ∙ elim (Bool-cases (ltb j id)) [
        | inl lt ↦
            slice-splice_before (id * page_size) page d.file fits (j * page_size) page_size
              (ground arith)
        | inr ge ↦ ap (take page_size) (
            drop-splice_after (id * page_size) page d.file fits (j * page_size)
              (ground (arith, is_page)))
      ]

  -- On a file of whole pages, after write_page of a page of the file, that page reads as written
  -- and every other page as before.
  pub page_at-write_page : (j : ℕ) → page_at written j ≡ (if j == id then page else page_at d j)
  page_at-write_page j = elim (Bool-cases (j == id)) [
    | inl e ↦ rw e (ap (page_at written) {y = id} (ground arith) ∙ page_at-write_self)
    | inr ne ↦ rw ne (page_at-write_ne j ne)
  ]

-- A file that has grown by one zero page, under the id that was returned.
pub record Allocated (d : Disk) (result : ℕ × Disk) : Type 0 where
  pub id_eq : result.0 ≡ d.total_pages
  pub is_disk : IsDisk result.1
  pub grown : (result.1).total_pages ≡ d.total_pages + 1
  pub fresh : page_at result.1 d.total_pages ≡ zero_page
  pub old : (j : ℕ) → j < d.total_pages → page_at result.1 j ≡ page_at d j

pwrite_end : (bs file : Bytes) → pwrite bs (length file) file ≡ file ++ bs
pwrite_end bs file =
    pwrite_inside bs file (length file) (omega arith)
    ∙ (unfold splice in
        rw (take-length file, drop-ge (length file + length bs) file (omega arith), append-nil bs))

module _ (d : Disk) (v : IsDisk d) (room : d.total_pages + 1 < 2 ^ 32) where
  abbrev grown : Disk
  grown = record d {
    file = pwrite zero_page (d.total_pages * page_size) d.file;
    total_pages = (d.total_pages + 1) % 2 ^ 32;
  }

  end_eq : pwrite zero_page (d.total_pages * page_size) d.file ≡ d.file ++ zero_page
  end_eq = rw (← v.whole) (pwrite_end zero_page d.file)

  fresh_eq : page_at grown d.total_pages ≡ zero_page
  unfolding page_at pread
  fresh_eq =
      ap (λ t. take page_size (drop (d.total_pages * page_size) t)) end_eq
      ∙ ap (λ (n : ℕ). take page_size (drop n (d.file ++ zero_page))) (sym v.whole)
      ∙ ap (take page_size) (drop-append d.file zero_page)
      ∙ ap (λ (n : ℕ). take n zero_page) (sym zero_page-IsPage)
      ∙ take-length zero_page

  old_eq : (j : ℕ) → j < d.total_pages → page_at grown j ≡ page_at d j
  unfolding page_at pread
  old_eq j h =
      ap (λ t. take page_size (drop (j * page_size) t)) end_eq
      ∙ ap (take page_size)
          (drop-append_le (j * page_size) d.file zero_page (omega (arith, v.whole)))
      ∙ take-append_le page_size (drop (j * page_size) d.file) zero_page
          (omega (arith, v.whole, length-drop (j * page_size) d.file))

  -- With room in the page count, allocate_page returns the old count as the id, the new page is
  -- zero, the file stays a whole number of pages, and every old page is unchanged.
  pub allocate_page-Allocated : Allocated d (allocate_page d)
  unfolding allocate_page
  allocate_page-Allocated = record {
    id_eq = refl;
    is_disk = record {
      whole =
          ap length end_eq
          ∙ omega (arith, length-append d.file zero_page, zero_page-IsPage, v.whole);
      count = omega arith;
    };
    grown = omega arith;
    fresh = fresh_eq;
    old = old_eq;
  }

-- A file below 2 ^ 44 bytes is opened as a file of whole pages, or its size is not a multiple of
-- the page size and the constructor throws.
pub open_disk_lem :
    (file : Bytes)
    → length file < 2 ^ 44
    → ((d : Disk) × (open_disk file ≡ ok d) × IsDisk d × (d.file ≡ file))
      ⊎ ((open_disk file ≡ err file_size_corrupt) × (length file % page_size ≢ 0))
unfolding open_disk
open_disk_lem file h = elim (Bool-cases (length file % page_size == 0)) [
  | inl e ↦ inl (
    record { file = file; synced = file; total_pages = length file / page_size % 2 ^ 32 },
    rw e,
    record { whole = ground (arith, e); count = omega arith },
    refl,
  )
  | inr e ↦ inr (rw e, ground arith)
]
