-- ===== src/Storage/Pool/Evict.antt =====
-- Eviction: the victim's page is written back when it is dirty, and no client sees a difference.
use gs_dbengine.Base.{
  ℕ, ◌<◌, ◌≡◌, ◌≢◌, refl, ap, sym, ◌∙◌, true, false, if◌then◌else◌, ◌==◌, ==_refl, ==_ne, ==_iff,
  Option, none, some, arith, Bool-cases, inl, inr,
}
use gs_dbengine.Storage.Page.{invalid_page, zero_page-IsPage}
use gs_dbengine.Storage.Disk.{Disk, IsDisk, page_at}
use gs_dbengine.Storage.Pool.{Pool, Frame, find, erase, set_frame, empty_frame, clear_frame}
use gs_dbengine.Storage.Pool.Table.{set_frame_self, set_frame_ne}
use gs_dbengine.Base.Assoc.{find-erase, Distinct-erase}
use gs_dbengine.Storage.Pool.Valid.{IsValid, view, resident}

-- The pool after the frame of a slot was given up.
pub record Evicted (slot : ℕ) (p q : Pool) : Type 0 where
  pub valid : IsValid q
  pub same_view : (j : ℕ) → view q j ≡ view p j
  pub total_eq : (q.disk).total_pages ≡ (p.disk).total_pages
  pub empty_eq : q.frames slot ≡ empty_frame
  pub unmapped : (j : ℕ) → find j q.page_table ≢ some slot
  pub shrinks : (j : ℕ) → find j p.page_table ≡ none → find j q.page_table ≡ none
  pub lru_eq : q.lru_list ≡ p.lru_list
  pub others : (s : ℕ) → (s == slot) ≡ false → q.frames s ≡ p.frames s

some-ne : {a b : ℕ} → a ≢ b → ◌≢◌ {A = Option ℕ} (some a) (some b)
some-ne h e = h (cc)

eq_of_== : (a b : ℕ) → (a == b) ≡ true → a ≡ b
eq_of_== a b = (==_iff a b).0

-- A frame that holds no page is only cleared.
module _ (slot : ℕ) (p : Pool) (v : IsValid p) (free : (p.frames slot).page_id ≡ invalid_page) where
  count_small : (id : ℕ) → id < (p.disk).total_pages → id ≢ invalid_page
  count_small id h = let c = (v.disk).count in omega arith

  not_mapped : (j s : ℕ) → find j p.page_table ≡ some s → (s == slot) ≡ false
  not_mapped j s h = ==_ne s slot λ e.
      count_small j (v.inside j s h)
        (sym (v.mapped j s h) ∙ ap (λ (t : ℕ). (p.frames t).page_id) e ∙ free)

  cleared_view :
      (j : ℕ) (o : Option ℕ)
      → find j p.page_table ≡ o
      → resident o (clear_frame slot p) j ≡ resident o p j
  unfolding resident clear_frame
  cleared_view j none h = refl
  cleared_view j (some s) h =
      ap (λ (f : Frame). f.page) (set_frame_ne slot empty_frame p.frames s (not_mapped j s h))

  keep :
      (j s : ℕ) → find j p.page_table ≡ some s → set_frame slot empty_frame p.frames s ≡ p.frames s
  keep j s h = set_frame_ne slot empty_frame p.frames s (not_mapped j s h)

  pub clear_frame-Evicted : Evicted slot p (clear_frame slot p)
  unfolding clear_frame
  clear_frame-Evicted = record {
    valid = record {
      disk = v.disk;
      distinct = v.distinct;
      sized = λ s. elim (Bool-cases (s == slot)) [
        | inl e ↦ unfold set_frame empty_frame in rw e zero_page-IsPage
        | inr e ↦ unfold set_frame in rw e (v.sized s)
      ];
      mapped = λ id s h. rw (keep id s h) (v.mapped id s h);
      inside = v.inside;
      owned = λ s h. elim (Bool-cases (s == slot)) [
        | inl e ↦ absurd (h (unfold set_frame empty_frame in rw e))
        | inr e ↦ rw (set_frame_ne slot empty_frame p.frames s e) (
            v.owned s (λ x.
              h (ap (λ (f : Frame). f.page_id) (set_frame_ne slot empty_frame p.frames s e) ∙ x)))
      ];
      clean = λ id s h d.
          ap (λ (f : Frame). f.page) (keep id s h)
          ∙ v.clean id s h (ap (λ (f : Frame). f.is_dirty) (sym (keep id s h)) ∙ d);
    };
    same_view = λ j. unfold view in cleared_view j (find j p.page_table) refl;
    total_eq = refl;
    empty_eq = set_frame_self slot empty_frame p.frames;
    unmapped = λ j h. cc (not_mapped j slot h, ==_refl slot);
    shrinks = λ j h. h;
    lru_eq = refl;
    others = λ s e. set_frame_ne slot empty_frame p.frames s e;
  }

-- A frame that holds page `k`, over a file `d` that has its content.
module _ (slot k : ℕ) (p : Pool) (d : Disk) (v : IsValid p) (holds : (p.frames slot).page_id ≡ k)
    (real : k ≢ invalid_page) (is_disk : IsDisk d) (total : d.total_pages ≡ (p.disk).total_pages)
    (reads : (j : ℕ)
      → page_at d j ≡ (if j == k then (p.frames slot).page else page_at p.disk j)) where
  found_k : find k p.page_table ≡ some slot
  found_k = rw holds at (v.owned slot (λ e. real (sym holds ∙ e)))

  abbrev pub left : Pool
  left = clear_frame slot (record p { disk = d; page_table = erase k p.page_table })

  -- what the smaller table still has
  other_page : (j s : ℕ) → find j (erase k p.page_table) ≡ some s → (k == j) ≡ false
  other_page j s h = ground (arith, find-erase k j p.page_table)

  still : (j s : ℕ) → find j (erase k p.page_table) ≡ some s → find j p.page_table ≡ some s
  still j s h = ground (arith, find-erase k j p.page_table)

  other_slot : (j s : ℕ) → find j p.page_table ≡ some s → (k == j) ≡ false → (s == slot) ≡ false
  other_slot j s h ne = ==_ne s slot λ e.
      ground (arith, ne, sym holds ∙ ap (λ (t : ℕ). (p.frames t).page_id) (sym e) ∙ v.mapped j s h)

  kept_frame :
      (j s : ℕ)
      → find j (erase k p.page_table) ≡ some s
      → set_frame slot empty_frame p.frames s ≡ p.frames s
  kept_frame j s h =
      set_frame_ne slot empty_frame p.frames s (other_slot j s (still j s h) (other_page j s h))

  left_view_other :
      (j : ℕ) (o : Option ℕ)
      → find j p.page_table ≡ o
      → (k == j) ≡ false
      → resident o left j ≡ resident o p j
  unfolding resident clear_frame
  left_view_other j none h ne = reads j ∙ ground (arith, ne)
  left_view_other j (some s) h ne =
      ap (λ (f : Frame). f.page) (set_frame_ne slot empty_frame p.frames s (other_slot j s h ne))

  left-view : (j : ℕ) → view left j ≡ view p j
  unfolding view clear_frame
  left-view j = elim (Bool-cases (k == j)) [
    | inl e ↦
        rw (find-erase k j p.page_table, e, ← eq_of_== k j e, found_k)
          (unfold resident in reads k ∙ rw (==_refl k))
    | inr e ↦ rw (find-erase k j p.page_table, e) (left_view_other j (find j p.page_table) refl e)
  ]

  left_owned :
      (s : ℕ)
      → (set_frame slot empty_frame p.frames s).page_id ≢ invalid_page
      → find (set_frame slot empty_frame p.frames s).page_id (erase k p.page_table) ≡ some s
  left_owned s h = elim (Bool-cases (s == slot)) [
    | inl e ↦ absurd (h (unfold set_frame empty_frame in rw e))
    | inr e ↦
        let f : find (p.frames s).page_id p.page_table ≡ some s = v.owned s (λ x.
          h (ap (λ (g : Frame). g.page_id) (set_frame_ne slot empty_frame p.frames s e) ∙ x)) in
        let ne : (k == (p.frames s).page_id) ≡ false =
          ==_ne k (p.frames s).page_id
            λ x. ground (arith, e, found_k, f, ap (λ (t : ℕ). find t p.page_table) x) in
        rw
          (
            set_frame_ne slot empty_frame p.frames s e,
            find-erase k (p.frames s).page_id p.page_table,
            ne,
          )
          f
  ]

  pub left-Evicted : Evicted slot p left
  unfolding clear_frame
  left-Evicted = record {
    valid = record {
      disk = is_disk;
      distinct = Distinct-erase k p.page_table v.distinct;
      sized = λ s. elim (Bool-cases (s == slot)) [
        | inl e ↦ unfold set_frame empty_frame in rw e zero_page-IsPage
        | inr e ↦ unfold set_frame in rw e (v.sized s)
      ];
      mapped = λ id s h. rw (kept_frame id s h) (v.mapped id s (still id s h));
      inside = λ id s h. let l = v.inside id s (still id s h) in omega (arith, total);
      owned = left_owned;
      clean = λ id s h c.
          ap (λ (f : Frame). f.page) (kept_frame id s h)
          ∙ v.clean id s (still id s h)
              (ap (λ (f : Frame). f.is_dirty) (sym (kept_frame id s h)) ∙ c)
          ∙ sym (reads id ∙ ground (arith, other_page id s h));
    };
    same_view = left-view;
    total_eq = total;
    empty_eq = set_frame_self slot empty_frame p.frames;
    unmapped = λ j h. cc (other_slot j slot (still j slot h) (other_page j slot h), ==_refl slot);
    shrinks = λ j h. ground (arith, find-erase k j p.page_table);
    lru_eq = refl;
    others = λ s e. set_frame_ne slot empty_frame p.frames s e;
  }
