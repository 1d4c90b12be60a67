-- ===== src/Storage/Pool/Flush.antt =====
-- `flush_all`: afterwards the durable file holds what clients read.
use gs_dbengine.Base.{
  ℕ, ◌<◌, ◌≡◌, refl, ap, sym, ◌∙◌, true, false, if◌then◌else◌, ◌==◌, ==_refl, ==_ne, ==_iff, Option,
  none, some, arith, Bool-cases, inl, inr, ok,
}
use gs_dbengine.Storage.Page.{Page}
use gs_dbengine.Storage.Disk.{Disk, IsDisk, page_at}
use gs_dbengine.Storage.Disk.Pages.{write_page-eq, write_page-IsDisk, page_at-write_page}
use gs_dbengine.Storage.Pool.{Pool, Frame, find, set_frame, flushed, flush_slot}
use gs_dbengine.Storage.Pool.Valid.{IsValid, view, resident}
use gs_dbengine.Storage.Pool.Table.{set_frame_self, set_frame_ne}

-- A page went to the file, or was there: the view is the same and no clean frame became dirty.
pub record Flushed (slot : ℕ) (p q : Pool) : Type 0 where
  pub valid : IsValid q
  pub same_view : (j : ℕ) → view q j ≡ view p j
  pub total_eq : (q.disk).total_pages ≡ (p.disk).total_pages
  pub table_eq : q.page_table ≡ p.page_table
  pub clean : (q.frames slot).is_dirty ≡ false
  pub kept : (s : ℕ) → (p.frames s).is_dirty ≡ false → (q.frames s).is_dirty ≡ false

module _ (id slot : ℕ) (p : Pool) (v : IsValid p) (e : find id p.page_table ≡ some slot) where
  abbrev f : Frame
  f = record (p.frames slot) { is_dirty = false }

  page_eq :
      (d : Disk)
      → page_at d id ≡ (p.frames slot).page
      → (s : ℕ) (j : ℕ) → find j p.page_table ≡ some s
      → ((s == slot) ≡ true)
      → (set_frame slot f p.frames s).page ≡ page_at d j
  page_eq d r s j h same =
      let s_eq : s ≡ slot = (==_iff s slot).0 same in
      let id_eq : id ≡ j =
        sym (v.mapped id slot e)
        ∙ ap (λ (t : ℕ). (p.frames t).page_id) (sym s_eq)
        ∙ v.mapped j s h in
      ap (λ (t : ℕ). (set_frame slot f p.frames t).page) s_eq
      ∙ ap (λ (g : Frame). g.page) (set_frame_self slot f p.frames)
      ∙ sym r
      ∙ ap (page_at d) id_eq

  module _ (d : Disk) (is_disk : IsDisk d) (total : d.total_pages ≡ (p.disk).total_pages)
      (reads : (j : ℕ)
        → page_at d j ≡ (if j == id then (p.frames slot).page else page_at p.disk j)) where
    abbrev out : Pool
    out = record p { disk = d; frames = set_frame slot f p.frames }

    reads_id : page_at d id ≡ (p.frames slot).page
    reads_id = reads id ∙ rw (==_refl id)

    field_same :
        (s : ℕ)
        → ((set_frame slot f p.frames s).page ≡ (p.frames s).page)
          × ((set_frame slot f p.frames s).page_id ≡ (p.frames s).page_id)
    unfolding set_frame
    field_same s = elim (Bool-cases (s == slot)) [
      | inl same ↦ rw (same, (==_iff s slot).0 same) (refl, refl)
      | inr other ↦ rw other (refl, refl)
    ]

    out_clean :
        (j s : ℕ)
        → find j p.page_table ≡ some s
        → (set_frame slot f p.frames s).is_dirty ≡ false
        → (set_frame slot f p.frames s).page ≡ page_at d j
    out_clean j s h c = elim (Bool-cases (s == slot)) [
      | inl same ↦ page_eq d reads_id s j h same
      | inr other ↦
          let o = set_frame_ne slot f p.frames s other in
          let ne : (j == id) ≡ false =
            ==_ne j id λ x. ground (arith, other, h, e, ap (λ (t : ℕ). find t p.page_table) x) in
          ap (λ (g : Frame). g.page) o
          ∙ v.clean j s h (ap (λ (g : Frame). g.is_dirty) (sym o) ∙ c)
          ∙ sym (reads j ∙ rw ne)
    ]

    resident-out :
        (j : ℕ) (o : Option ℕ) → find j p.page_table ≡ o → resident o out j ≡ resident o p j
    unfolding resident
    resident-out j none h =
        let ne : (j == id) ≡ false =
          ==_ne j id λ x. cc (h, e, ap (λ (t : ℕ). find t p.page_table) x) in
        reads j ∙ rw ne
    resident-out j (some s) h = (field_same s).0

    out-Flushed : Flushed slot p out
    out-Flushed = record {
      valid = record {
        disk = is_disk;
        distinct = v.distinct;
        sized = λ s. rw ((field_same s).0) (v.sized s);
        mapped = λ j s h. (field_same s).1 ∙ v.mapped j s h;
        inside = λ j s h. let l = v.inside j s h in omega (arith, total);
        owned = λ s h. rw ((field_same s).1) (v.owned s (λ x. h ((field_same s).1 ∙ x)));
        clean = out_clean;
      };
      same_view = λ j. unfold view in resident-out j (find j p.page_table) refl;
      total_eq = total;
      table_eq = refl;
      clean = ap (λ (g : Frame). g.is_dirty) (set_frame_self slot f p.frames);
      kept = λ s c. elim (Bool-cases (s == slot)) [
        | inl same ↦ unfold set_frame in rw same
        | inr other ↦ unfold set_frame in rw other c
      ];
    }

  pub flush_slot-Flushed : (q : Pool) × (flush_slot id slot p ≡ (ok tt, q)) × Flushed slot p q
  unfolding flush_slot flushed
  flush_slot-Flushed =
      let inside : id < (p.disk).total_pages = v.inside id slot e in
      let page : Page = (p.frames slot).page in
      elim (Bool-cases (p.frames slot).is_dirty) [
        | inl dirty ↦ (
          _,
          rw (dirty, write_page-eq p.disk id page v.disk inside (v.sized slot)),
          out-Flushed _ (write_page-IsDisk p.disk id page v.disk inside (v.sized slot)) refl
              (page_at-write_page p.disk id page v.disk inside (v.sized slot)),
        )
        | inr tidy ↦ (
          p,
          rw tidy,
          record {
            valid = v;
            same_view = λ j. refl;
            total_eq = refl;
            table_eq = refl;
            clean = tidy;
            kept = λ s c. c;
          },
        )
      ]
