-- ===== src/Wal/Log.antt =====
-- The log as a sequence of records, and what a crash leaves of its bytes.
use gs_dbengine.Base.{
  ℕ, zero, suc, ◌+◌, ◌^◌, ◌<◌, ◌≤◌, ◌≡◌, refl, ap, sym, ◌∙◌, inl, inr, ◌⊎◌, List, [], ◌∷◌, ◌++◌,
  Bytes, length, ltb, take, drop, field, le_bytes, le_value, le_value-le_bytes, arith, append_assoc,
  All, length-append, length-drop, ltb-false, lt→ltb, Bool-cases, take-append, drop-append,
}
use gs_dbengine.Storage.Page.{Page, IsPage, page_size, invalid_page}
use gs_dbengine.Wal.{Scan, header_size, record_header, scan_write, scan_commit, scan_log}

pub data Record : Type 0 where
  page_write : ℕ → ℕ → Page → Record
  commit_mark : ℕ → Record

unfoldable pub encode_record : Record → Bytes
encode_record (page_write transaction_id page_id page) =
    record_header 1 transaction_id page_id ++ page
encode_record (commit_mark transaction_id) = record_header 2 transaction_id invalid_page

unfoldable pub encode_log : List Record → Bytes
encode_log [] = []
encode_log (r ∷ records) = encode_record r ++ encode_log records

abbrev pub FitsRecord : Record → Type 0
FitsRecord (page_write transaction_id page_id page) =
    (transaction_id < 2 ^ 32) × (page_id < 2 ^ 32) × IsPage page
FitsRecord (commit_mark transaction_id) = transaction_id < 2 ^ 32

-- The reading of one record, and of the records one after the other.
unfoldable pub scan_record : Record → Scan → Scan
scan_record (page_write transaction_id page_id page) s = scan_write transaction_id page_id page s
scan_record (commit_mark transaction_id) s = scan_commit transaction_id s

unfoldable pub scan_records : List Record → Scan → Scan
scan_records [] s = s
scan_records (r ∷ records) s = scan_records records (scan_record r s)

-- A beginning of a record that is not the whole of it, or nothing.
abbrev pub IsTorn : Bytes → Type 0
IsTorn bs = (length bs < header_size) ⊎ ((field 1 0 bs ≡ 1) × (length bs < header_size + page_size))

module _ (type t id : ℕ) (rest : Bytes) where
  abbrev framed : Bytes
  framed = record_header type t id ++ rest

  length-framed : length framed ≡ header_size + length rest
  unfolding record_header le_bytes
  length-framed = omega arith

  type-framed : field 1 0 framed ≡ type
  unfolding record_header le_bytes field le_value
  type-framed = omega arith

  framed_transaction : t < 2 ^ 32 → field 4 1 framed ≡ t
  unfolding record_header le_bytes field
  framed_transaction h = le_value-le_bytes 4 t h

  framed_page : id < 2 ^ 32 → field 4 5 framed ≡ id
  unfolding record_header le_bytes field
  framed_page h = le_value-le_bytes 4 id h

  framed_body : drop header_size framed ≡ rest
  unfolding record_header le_bytes
  framed_body = refl

scan_torn : (fuel : ℕ) (bs : Bytes) (s : Scan) → IsTorn bs → scan_log fuel bs s ≡ s
unfolding scan_log
scan_torn zero bs s h = refl
scan_torn (suc fuel) bs s (inl h) = rw (lt→ltb _ _ h)
scan_torn (suc fuel) bs s (inr (ty, h)) = elim (Bool-cases (ltb (length bs) header_size)) [
  | inl e ↦ rw e
  | inr e ↦ rw (
    e,
    ty,
    lt→ltb (length (drop header_size bs)) page_size
        (omega (arith, short, length-drop header_size bs)),
  )
]
  where
    short : length bs < header_size + page_size
    short = h

scan_write_step :
    (fuel t id : ℕ) (page rest : Bytes) (s : Scan)
    → t < 2 ^ 32
    → id < 2 ^ 32
    → IsPage page
    → scan_log (suc fuel) (record_header 1 t id ++ (page ++ rest)) s
      ≡ scan_log fuel rest (scan_write t id page s)
unfolding scan_log
scan_write_step fuel t id page rest s ht hid hp =
    let taken : take page_size (page ++ rest) ≡ page =
      ap (λ (n : ℕ). take n (page ++ rest)) (sym hp) ∙ take-append page rest in
    let left : drop page_size (page ++ rest) ≡ rest =
      ap (λ (n : ℕ). drop n (page ++ rest)) (sym hp) ∙ drop-append page rest in
    rw (
      ltb-false (length (record_header 1 t id ++ (page ++ rest))) header_size
          (omega (arith, length-framed 1 t id (page ++ rest))),
      type-framed 1 t id (page ++ rest),
      framed_body 1 t id (page ++ rest),
      ltb-false (length (page ++ rest)) page_size (omega (arith, length-append page rest, hp)),
      framed_transaction 1 t id (page ++ rest) ht,
      framed_page 1 t id (page ++ rest) hid,
      taken,
      left,
    )

scan_commit_step :
    (fuel t id : ℕ) (rest : Bytes) (s : Scan)
    → t < 2 ^ 32
    → scan_log (suc fuel) (record_header 2 t id ++ rest) s ≡ scan_log fuel rest (scan_commit t s)
unfolding scan_log
scan_commit_step fuel t id rest s ht = rw (
  ltb-false (length (record_header 2 t id ++ rest)) header_size
      (omega (arith, length-framed 2 t id rest)),
  type-framed 2 t id rest,
  framed_body 2 t id rest,
  framed_transaction 2 t id rest ht,
)

-- The loop reads back the records that were written, and stops at a torn end.
pub scan_log-encode_log :
    (records : List Record) (torn : Bytes) (fuel : ℕ) (s : Scan)
    → All FitsRecord records
    → IsTorn torn
    → length (encode_log records ++ torn) ≤ fuel
    → scan_log fuel (encode_log records ++ torn) s ≡ scan_records records s
unfolding encode_log scan_records scan_record encode_record
scan_log-encode_log [] torn fuel s fits h le = scan_torn fuel torn s h
scan_log-encode_log (page_write t id page ∷ records) torn zero s fits h le = absurd (
    omega (
      arith,
      length-framed 1 t id page,
      length-append (record_header 1 t id ++ page) (encode_log records),
      length-append ((record_header 1 t id ++ page) ++ encode_log records) torn,
    ))
scan_log-encode_log (page_write t id page ∷ records) torn (suc fuel) s fits h le =
    let e : ((record_header 1 t id ++ page) ++ encode_log records) ++ torn
        ≡ record_header 1 t id ++ (page ++ (encode_log records ++ torn)) =
      simp append_assoc in
    rw e (
      scan_write_step fuel t id page (encode_log records ++ torn) s fits.0.0 fits.0.1 fits.0.2
      ∙ scan_log-encode_log records torn fuel (scan_write t id page s) fits.1 h (
          omega (
            arith,
            ap length e,
            length-framed 1 t id (page ++ (encode_log records ++ torn)),
            length-append page (encode_log records ++ torn),
          )))
scan_log-encode_log (commit_mark t ∷ records) torn zero s fits h le = absurd (
    omega (
      arith,
      length-framed 2 t invalid_page (encode_log records ++ torn),
      ap length (append_assoc (record_header 2 t invalid_page) (encode_log records) torn),
    ))
scan_log-encode_log (commit_mark t ∷ records) torn (suc fuel) s fits h le =
    let e : (record_header 2 t invalid_page ++ encode_log records) ++ torn
        ≡ record_header 2 t invalid_page ++ (encode_log records ++ torn) =
      append_assoc (record_header 2 t invalid_page) (encode_log records) torn in
    rw e (
      scan_commit_step fuel t invalid_page (encode_log records ++ torn) s fits.0
      ∙ scan_log-encode_log records torn fuel (scan_commit t s) fits.1 h
          (omega (arith, ap length e, length-framed 2 t invalid_page (encode_log records ++ torn))))
