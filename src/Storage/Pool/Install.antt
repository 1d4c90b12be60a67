-- ===== src/Storage/Pool/Install.antt =====
-- A page enters an emptied slot.
use gs_dbengine.Base.{
  ℕ, ◌<◌, ◌≡◌, ◌≢◌, refl, ap, sym, ◌∙◌, true, false, ◌==◌, ==_refl, ==_ne, ==_iff, Option, none,
  some, arith, Bool-cases, inl, inr,
}
use gs_dbengine.Storage.Page.{Page, IsPage}
use gs_dbengine.Storage.Disk.{page_at}
use gs_dbengine.Storage.Pool.{Pool, Frame, find, insert, set_frame, install, touch}
use gs_dbengine.Storage.Pool.Table.{set_frame_self, set_frame_ne}
use gs_dbengine.Base.Assoc.{find-insert, Distinct-insert}
use gs_dbengine.Storage.Pool.Valid.{IsValid, view, resident}

module _ (id slot : ℕ) (page : Page) (q : Pool) (v : IsValid q)
    (absent : find id q.page_table ≡ none) (unmapped : (j : ℕ) → find j q.page_table ≢ some slot)
    (inside : id < (q.disk).total_pages) (is_page : IsPage page)
    (reads : page ≡ page_at q.disk id) where
  abbrev fresh : Frame
  fresh = record { page = page; page_id = id; is_dirty = false; pin_count = 1 }

  eq_of_== : (a b : ℕ) → (a == b) ≡ true → a ≡ b
  eq_of_== a b = (==_iff a b).0

  -- a mapping of the new table is the new one, or an old one of another page and another slot
  old_slot : (j s : ℕ) → find j q.page_table ≡ some s → (s == slot) ≡ false
  old_slot j s h = ==_ne s slot (λ e. unmapped j (h ∙ ap some e))

  pub installed_mapping : find id (insert id slot q.page_table) ≡ some slot
  installed_mapping = find-insert id slot id q.page_table ∙ rw (==_refl id)

  cases :
      (P : ℕ → ℕ → Type 0)
      → P id slot
      → ((j s : ℕ) → (id == j) ≡ false → find j q.page_table ≡ some s → P j s)
      → (j s : ℕ) → find j (insert id slot q.page_table) ≡ some s
      → P j s
  cases P new old j s h = elim (Bool-cases (id == j)) [
    | inl e ↦
        let same_slot : slot ≡ s = ground (arith, e, find-insert id slot j q.page_table) in
        rw (← eq_of_== id j e, ← same_slot) new
    | inr e ↦ old j s e (ground (arith, e, find-insert id slot j q.page_table))
  ]

  self : set_frame slot fresh q.frames slot ≡ fresh
  self = set_frame_self slot fresh q.frames

  other : (j s : ℕ) → find j q.page_table ≡ some s → set_frame slot fresh q.frames s ≡ q.frames s
  other j s h = set_frame_ne slot fresh q.frames s (old_slot j s h)

  pub install-IsValid : IsValid (install id slot page q)
  unfolding install touch
  install-IsValid = record {
    disk = v.disk;
    distinct = Distinct-insert id slot q.page_table v.distinct;
    sized = λ s. elim (Bool-cases (s == slot)) [
      | inl e ↦ unfold set_frame in rw e is_page
      | inr e ↦ unfold set_frame in rw e (v.sized s)
    ];
    mapped =
        cases (λ j s. (set_frame slot fresh q.frames s).page_id ≡ j)
          (ap (λ (g : Frame). g.page_id) self)
          (λ j s ne h. ap (λ (g : Frame). g.page_id) (other j s h) ∙ v.mapped j s h);
    inside = cases (λ j s. j < (q.disk).total_pages) inside (λ j s ne h. v.inside j s h);
    owned = λ s h. elim (Bool-cases (s == slot)) [
      | inl e ↦ rw (eq_of_== s slot e, self) installed_mapping
      | inr e ↦
          let o : find (q.frames s).page_id q.page_table ≡ some s =
            v.owned s
              (λ x. h (ap (λ (g : Frame). g.page_id) (set_frame_ne slot fresh q.frames s e) ∙ x)) in
          let ne : (id == (q.frames s).page_id) ≡ false =
            ==_ne id (q.frames s).page_id
              (λ x. cc (absent, o, ap (λ (t : ℕ). find t q.page_table) x)) in
          rw
            (
              set_frame_ne slot fresh q.frames s e,
              find-insert id slot (q.frames s).page_id q.page_table,
              ne,
            )
            o
    ];
    clean =
        cases
          (λ j s.
            (set_frame slot fresh q.frames s).is_dirty ≡ false
            → (set_frame slot fresh q.frames s).page ≡ page_at q.disk j)
          (λ _. ap (λ (g : Frame). g.page) self ∙ reads)
          (λ j s ne h d.
            ap (λ (g : Frame). g.page) (other j s h)
            ∙ v.clean j s h (ap (λ (g : Frame). g.is_dirty) (sym (other j s h)) ∙ d));
  }

  resident-install :
      (j : ℕ) (o : Option ℕ)
      → find j q.page_table ≡ o
      → resident o (install id slot page q) j ≡ resident o q j
  unfolding resident install touch
  resident-install j none h = refl
  resident-install j (some s) h = ap (λ (g : Frame). g.page) (other j s h)

  pub view-install : (j : ℕ) → view (install id slot page q) j ≡ view q j
  unfolding view install touch
  view-install j = elim (Bool-cases (id == j)) [
    | inl e ↦
        rw (← eq_of_== id j e, installed_mapping, absent)
          (unfold resident in ap (λ (g : Frame). g.page) self ∙ reads)
    | inr e ↦
        rw (find-insert id slot j q.page_table, e)
          (unfold install touch in resident-install j (find j q.page_table) refl)
  ]

  pub installed_frame : (install id slot page q).frames slot ≡ fresh
  unfolding install touch
  installed_frame = self

  pub installed_find : find id (install id slot page q).page_table ≡ some slot
  unfolding install touch
  installed_find = installed_mapping

pub installed_other :
    (id slot : ℕ) (page : Page) (q : Pool) (s : ℕ)
    → (s == slot) ≡ false
    → (install id slot page q).frames s ≡ q.frames s
unfolding install touch
installed_other id slot page q s e = set_frame_ne slot _ q.frames s e
