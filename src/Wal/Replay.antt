-- ===== src/Wal/Replay.antt =====
-- A crash keeps some beginning of the log's bytes: which records survive, and what `recover`
-- collects from them.
use gs_dbengine.Base.{
  subst, ℕ, zero, suc, ◌+◌, ◌-◌, ◌<◌, ◌≤◌, ◌≡◌, refl, ap, sym, ◌∙◌, ◌&&◌, inl, inr, List, [], ◌∷◌,
  ◌++◌, Bytes, length, if◌then◌else◌, ◌==◌, ltb, Option, some, take, field, le_bytes, le_value,
  arith, append_assoc, append-nil, All, length-append, length-take, Bool-cases, take-append_le,
  ==_iff,
}
use gs_dbengine.Base.Assoc.{find, insert, find-insert}
use gs_dbengine.Storage.Page.{Page, IsPage, page_size, invalid_page}
use gs_dbengine.Wal.{Scan, header_size, record_header, scan_write, scan_commit, scan_log, pages_of}
use gs_dbengine.Wal.Log.{
  Record, page_write, commit_mark, encode_record, encode_log, FitsRecord, scan_record, scan_records,
  IsTorn, scan_log-encode_log,
}

take-append_ge :
    (n : ℕ) (xs ys : Bytes) → length xs ≤ n → take n (xs ++ ys) ≡ xs ++ take (n - length xs) ys
take-append_ge n [] ys h = ap (λ (k : ℕ). take k ys) (omega arith)
take-append_ge zero (x ∷ xs) ys h = absurd (omega arith)
take-append_ge (suc n) (x ∷ xs) ys h =
    ap (λ t. x ∷ t)
      (take-append_ge n xs ys (omega arith)
        ∙ ap (λ (k : ℕ). xs ++ take k ys) {y = suc n - suc (length xs)} (omega arith))

-- The records of a log that lie wholly within its first `k` bytes.
pub record Cut (records : List Record) (k : ℕ) : Type 0 where
  pub kept : List Record
  pub lost : List Record
  pub torn : Bytes
  pub split : records ≡ kept ++ lost
  pub bytes : take k (encode_log records) ≡ encode_log kept ++ torn
  pub is_torn : IsTorn torn
  pub inside : length (encode_log kept) ≤ k
  -- no whole record is lost
  pub most :
      (r : Record) (rest : List Record)
      → lost ≡ r ∷ rest
      → k < length (encode_log kept) + length (encode_record r)

length-page_write :
    (t id : ℕ) (page : Page)
    → IsPage page
    → length (encode_record (page_write t id page)) ≡ header_size + page_size
unfolding encode_record record_header le_bytes
length-page_write t id page h = omega (arith, h)

length-commit_mark : (t : ℕ) → length (record_header 2 t invalid_page) ≡ header_size
unfolding record_header le_bytes
length-commit_mark t = omega arith

take-IsTorn :
    (r : Record) (k : ℕ)
    → FitsRecord r
    → k < length (encode_record r)
    → IsTorn (take k (encode_record r))
unfolding encode_record
take-IsTorn (commit_mark t) k fits h =
    inl (omega (arith, length-take k (record_header 2 t invalid_page), length-commit_mark t))
take-IsTorn (page_write t id page) zero fits h = inl (omega arith)
take-IsTorn (page_write t id page) (suc k) fits h =
    let whole : Bytes = record_header 1 t id ++ page in
    let size : length whole ≡ header_size + page_size =
      unfold encode_record in length-page_write t id page fits.2 in
    inr (
      (unfold record_header field le_value in omega arith),
      omega (arith, length-take (suc k) whole, size),
    )

pub cut_lem : (records : List Record) (k : ℕ) → All FitsRecord records → Cut records k
unfolding encode_log
cut_lem [] k fits = record {
  kept = [];
  lost = [];
  torn = [];
  split = refl;
  bytes = take_nil k;
  is_torn = inl (omega arith);
  inside = omega arith;
  most = λ r rest e. absurd (cc);
}
  where
    take_nil : (n : ℕ) → take {A = ℕ} n [] ≡ []
    take_nil zero = refl
    take_nil (suc n) = refl
cut_lem (r ∷ records) k fits = elim (Bool-cases (ltb k (length (encode_record r)))) [
  | inl lt ↦ record {
    kept = [];
    lost = r ∷ records;
    torn = take k (encode_record r);
    split = refl;
    bytes = take-append_le k (encode_record r) (encode_log records) (ground arith);
    is_torn = take-IsTorn r k fits.0 (ground arith);
    inside = omega arith;
    most = λ r' rest e.
        let same : r ≡ r' = cc in
        let l : k < length (encode_record r) = ground arith in
        omega (arith, ap (λ t. length (encode_record t)) same);
  }
  | inr ge ↦
      let le : length (encode_record r) ≤ k = ground arith in
      let c : Cut records (k - length (encode_record r)) =
        cut_lem records (k - length (encode_record r)) fits.1 in
      record {
        kept = r ∷ c.kept;
        lost = c.lost;
        torn = c.torn;
        split = ap (λ t. r ∷ t) c.split;
        bytes =
            take-append_ge k (encode_record r) (encode_log records) le
            ∙ ap (λ t. encode_record r ++ t) c.bytes
            ∙ sym (append_assoc (encode_record r) (encode_log c.kept) c.torn);
        is_torn = c.is_torn;
        inside =
            let i = c.inside in omega (arith, length-append (encode_record r) (encode_log c.kept));
        most = λ r' rest e.
            let m = c.most r' rest e in
            omega (arith, length-append (encode_record r) (encode_log c.kept));
      }
]

pub All-kept {ℓ} :
    {A : Type ℓ} (P : A → Type 0) (xs ys zs : List A) → xs ≡ ys ++ zs → All P xs → All P ys
All-kept P xs [] zs e h = tt
All-kept P xs (y ∷ ys) zs e h =
    let g : All P (y ∷ (ys ++ zs)) = subst (All P) e h in
    (g.0, All-kept P (ys ++ zs) ys zs refl g.1)

-- On the first k bytes of a log whose records fit their fields, the loop of recover collects what
-- the whole records within them say, and nothing of the record that the cut tore.
pub scan_log-take :
    (records : List Record) (k : ℕ) (s : Scan)
    → (fits : All FitsRecord records)
    → scan_log (length (take k (encode_log records))) (take k (encode_log records)) s
      ≡ scan_records (cut_lem records k fits).kept s
scan_log-take records k s fits =
    let c : Cut records k = cut_lem records k fits in
    let kept_fits : All FitsRecord c.kept =
      All-kept FitsRecord records c.kept c.lost c.split fits in
    rw c.bytes (
      scan_log-encode_log c.kept c.torn (length (encode_log c.kept ++ c.torn)) s kept_fits c.is_torn
        (omega arith))

-- The page that transaction `t` wrote last at `id`, and the transactions that committed.
unfoldable pub last_write : ℕ → ℕ → List Record → Option Page → Option Page
last_write t id [] o = o
last_write t id (commit_mark _ ∷ records) o = last_write t id records o
last_write t id (page_write u i page ∷ records) o =
    last_write t id records (if (u == t) && (i == id) then some page else o)

unfoldable pub commits : List Record → List ℕ
commits [] = []
commits (commit_mark t ∷ records) = t ∷ commits records
commits (page_write _ _ _ ∷ records) = commits records

pub scan_commits :
    (records : List Record) (s : Scan)
    → (scan_records records s).committed_txns ≡ s.committed_txns ++ commits records
unfolding scan_records scan_record scan_write scan_commit commits
scan_commits [] s = sym (append-nil s.committed_txns)
scan_commits (commit_mark t ∷ records) s =
    scan_commits records (scan_commit t s)
    ∙ append_assoc s.committed_txns (t ∷ []) (commits records)
scan_commits (page_write t id page ∷ records) s = scan_commits records (scan_write t id page s)

find-scan_write :
    (u i : ℕ) (page : Page) (s : Scan) (t id : ℕ)
    → find id (pages_of (find t (scan_write u i page s).txn_pages))
      ≡ (if (u == t) && (i == id) then some page else find id (pages_of (find t s.txn_pages)))
unfolding scan_write
find-scan_write u i page s t id = elim (Bool-cases (u == t)) [
  | inl e ↦
      rw (find-insert u (insert i page (pages_of (find u s.txn_pages))) t s.txn_pages, e)
        (unfold pages_of in
          find-insert i page id (pages_of (find u s.txn_pages))
          ∙ ap (λ (n : ℕ). if i == id then some page else find id (pages_of (find n s.txn_pages)))
              ((==_iff u t).0 e))
  | inr e ↦ rw (find-insert u (insert i page (pages_of (find u s.txn_pages))) t s.txn_pages, e)
]

-- The map of maps that the loop builds holds, for each transaction and page, the last write.
pub scan_pages :
    (records : List Record) (s : Scan) (t id : ℕ)
    → find id (pages_of (find t (scan_records records s).txn_pages))
      ≡ last_write t id records (find id (pages_of (find t s.txn_pages)))
unfolding scan_records scan_record scan_commit last_write
scan_pages [] s t id = refl
scan_pages (commit_mark u ∷ records) s t id = scan_pages records (scan_commit u s) t id
scan_pages (page_write u i page ∷ records) s t id =
    scan_pages records (scan_write u i page s) t id
    ∙ ap (last_write t id records) (find-scan_write u i page s t id)
