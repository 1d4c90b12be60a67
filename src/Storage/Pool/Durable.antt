-- ===== src/Storage/Pool/Durable.antt =====
-- The loop of `flush_all`, and what it makes durable.
use gs_dbengine.Base.{
  subst, ℕ, ◌*◌, ◌≡◌, refl, sym, ◌∙◌, false, List, [], ◌∷◌, ◌==◌, Option, none, some, arith,
  Bool-cases, inl, inr, All, ok,
}
use gs_dbengine.Storage.Page.{page_size}
use gs_dbengine.Storage.Disk.{page_at, pread, sync}
use gs_dbengine.Storage.Pool.{Pool, find, flush_entries, sync_pool, flush_all}
use gs_dbengine.Storage.Pool.Valid.{IsValid, view, resident}
use gs_dbengine.Base.Assoc.{Distinct-AllFound, AllFound}
use gs_dbengine.Storage.Pool.Flush.{flush_slot-Flushed}

abbrev CleanEntries : Pool → List (ℕ × ℕ) → Type 0
CleanEntries p = All (λ (e : ℕ × ℕ). (p.frames e.1).is_dirty ≡ false)

-- All entries of a list went to the file.
record AllFlushed (entries : List (ℕ × ℕ)) (p q : Pool) : Type 0 where
  valid : IsValid q
  same_view : (j : ℕ) → view q j ≡ view p j
  total_eq : (q.disk).total_pages ≡ (p.disk).total_pages
  table_eq : q.page_table ≡ p.page_table
  clean : CleanEntries q entries
  kept : (s : ℕ) → (p.frames s).is_dirty ≡ false → (q.frames s).is_dirty ≡ false

flush_entries-AllFlushed :
    (entries : List (ℕ × ℕ)) (p : Pool)
    → IsValid p
    → AllFound p.page_table entries
    → (q : Pool) × (flush_entries entries p ≡ (ok tt, q)) × AllFlushed entries p q
unfolding flush_entries
flush_entries-AllFlushed [] p v h = (
  p,
  refl,
  record {
    valid = v;
    same_view = λ j. refl;
    total_eq = refl;
    table_eq = refl;
    clean = tt;
    kept = λ s c. c;
  },
)
flush_entries-AllFlushed ((id, slot) ∷ entries) p v h =
    let (q, r, f) = flush_slot-Flushed id slot p v h.0 in
    let (q', r', fs) =
      flush_entries-AllFlushed entries q f.valid
        (subst (λ t. AllFound t entries) (sym f.table_eq) h.1) in
    (
      q',
      rw r r',
      record {
        valid = fs.valid;
        same_view = λ j. fs.same_view j ∙ f.same_view j;
        total_eq = fs.total_eq ∙ f.total_eq;
        table_eq = fs.table_eq ∙ f.table_eq;
        clean = (fs.kept slot f.clean, fs.clean);
        kept = λ s c. fs.kept s (f.kept s c);
      },
    )

clean_of_found :
    (id s : ℕ) (p : Pool) (entries : List (ℕ × ℕ))
    → CleanEntries p entries
    → find id entries ≡ some s
    → (p.frames s).is_dirty ≡ false
unfolding find
clean_of_found id s p [] c h = cc
clean_of_found id s p ((i, t) ∷ entries) c h = elim (Bool-cases (i == id)) [
  | inl e ↦ let x : t ≡ s = ground (arith, e) in rw (← x) c.0
  | inr e ↦ clean_of_found id s p entries c.1 (ground (arith, e))
]

resident_clean :
    (p : Pool)
    → IsValid p
    → CleanEntries p p.page_table
    → (id : ℕ) (o : Option ℕ) → find id p.page_table ≡ o
    → resident o p id ≡ page_at p.disk id
unfolding resident
resident_clean p v c id none h = refl
resident_clean p v c id (some s) h = v.clean id s h (clean_of_found id s p p.page_table c h)

-- What `flush_all` leaves: a valid pool with the view of the old one, whose durable file holds, at
-- every page, what clients read there.
pub record Checkpointed (p q : Pool) : Type 0 where
  pub valid : IsValid q
  pub same_view : (j : ℕ) → view q j ≡ view p j
  pub total_eq : (q.disk).total_pages ≡ (p.disk).total_pages
  pub all_synced : (q.disk).synced ≡ (q.disk).file
  pub durable : (j : ℕ) → pread page_size (j * page_size) (q.disk).synced ≡ view p j

-- From a valid pool, flush_all returns, and the file that fsync made durable holds every page as
-- clients of the pool read it; the pool stays valid with the same view.
pub flush_all-Checkpointed :
    (p : Pool) → IsValid p → (q : Pool) × (flush_all p ≡ (ok tt, q)) × Checkpointed p q
unfolding flush_all sync_pool
flush_all-Checkpointed p v =
    let (q, r, f) =
      flush_entries-AllFlushed p.page_table p v (Distinct-AllFound p.page_table v.distinct) in
    let clean : CleanEntries q q.page_table =
      subst (λ t. CleanEntries q t) (sym f.table_eq) f.clean in
    (
      record q { disk = sync q.disk },
      rw r,
      record {
        valid = record {
          disk =
              unfold sync in
              record { whole = ((f.valid).disk).whole; count = ((f.valid).disk).count };
          distinct = (f.valid).distinct;
          sized = (f.valid).sized;
          mapped = (f.valid).mapped;
          inside = unfold sync in (f.valid).inside;
          owned = (f.valid).owned;
          clean = unfold sync page_at in (f.valid).clean;
        };
        same_view = λ j. synced_view q j ∙ f.same_view j;
        total_eq = unfold sync in f.total_eq;
        all_synced = unfold sync in refl;
        durable = λ j.
            let file_eq : resident (find j q.page_table) q j ≡ page_at q.disk j =
              resident_clean q f.valid clean j (find j q.page_table) refl in
            let view_eq : resident (find j q.page_table) q j ≡ view p j =
              unfold view in f.same_view j in
            let read_eq : pread page_size (j * page_size) (sync q.disk).synced ≡ page_at q.disk j =
              unfold sync page_at in refl in
            read_eq ∙ sym file_eq ∙ view_eq;
      },
    )
  where
    synced_resident :
        (q : Pool) (j : ℕ) (o : Option ℕ)
        → resident o (record q { disk = sync q.disk }) j ≡ resident o q j
    synced_resident q j none = unfold resident page_at sync in refl
    synced_resident q j (some s) = unfold resident in refl

    synced_view : (q : Pool) (j : ℕ) → view (record q { disk = sync q.disk }) j ≡ view q j
    synced_view q j = unfold view in synced_resident q j (find j q.page_table)
