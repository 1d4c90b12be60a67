-- ===== src/Storage/Pool/Update.antt =====
-- A frame is replaced by one for the same page: pins, dirty marks and writes through the pointer.
use gs_dbengine.Base.{
  ℕ, ◌≡◌, refl, ap, sym, ◌∙◌, true, false, List, if◌then◌else◌, ◌==◌, ==_ne, ==_iff, Option, none,
  some, arith, Bool-cases, inl, inr,
}
use gs_dbengine.Storage.Page.{IsPage}
use gs_dbengine.Storage.Disk.{page_at}
use gs_dbengine.Storage.Pool.{Pool, Frame, find, set_frame}
use gs_dbengine.Storage.Pool.Table.{set_frame_self, set_frame_ne}
use gs_dbengine.Storage.Pool.Valid.{IsValid, view, resident}

module _ (slot : ℕ) (f : Frame) (lru : List ℕ) (p : Pool) (v : IsValid p)
    (same_id : f.page_id ≡ (p.frames slot).page_id) (is_page : IsPage f.page)
    (tidy : f.is_dirty ≡ false
      → (f.page ≡ (p.frames slot).page) × ((p.frames slot).is_dirty ≡ false)) where
  abbrev pub updated : Pool
  updated = record p { frames = set_frame slot f p.frames; lru_list = lru }

  eq_slot : (s : ℕ) → (s == slot) ≡ true → s ≡ slot
  eq_slot s = (==_iff s slot).0

  page_id_same : (s : ℕ) → (set_frame slot f p.frames s).page_id ≡ (p.frames s).page_id
  page_id_same s = elim (Bool-cases (s == slot)) [
    | inl e ↦
        rw (eq_slot s e) (ap (λ (g : Frame). g.page_id) (set_frame_self slot f p.frames) ∙ same_id)
    | inr e ↦ rw (set_frame_ne slot f p.frames s e)
  ]

  updated_clean :
      (id s : ℕ)
      → find id p.page_table ≡ some s
      → (set_frame slot f p.frames s).is_dirty ≡ false
      → (set_frame slot f p.frames s).page ≡ page_at p.disk id
  updated_clean id s h d = elim (Bool-cases (s == slot)) [
    | inl e ↦
        let self : set_frame slot f p.frames s ≡ f =
          ap (set_frame slot f p.frames) (eq_slot s e) ∙ set_frame_self slot f p.frames in
        let (same, old) = tidy (ap (λ (g : Frame). g.is_dirty) (sym self) ∙ d) in
        ap (λ (g : Frame). g.page) self ∙ same ∙ v.clean id slot (h ∙ ap some (eq_slot s e)) old
    | inr e ↦
        let other = set_frame_ne slot f p.frames s e in
        ap (λ (g : Frame). g.page) other
        ∙ v.clean id s h (ap (λ (g : Frame). g.is_dirty) (sym other) ∙ d)
  ]

  pub updated-IsValid : IsValid updated
  updated-IsValid = record {
    disk = v.disk;
    distinct = v.distinct;
    sized = λ s. elim (Bool-cases (s == slot)) [
      | inl e ↦ unfold set_frame in rw e is_page
      | inr e ↦ unfold set_frame in rw e (v.sized s)
    ];
    mapped = λ id s h. page_id_same s ∙ v.mapped id s h;
    inside = v.inside;
    owned = λ s h. rw (page_id_same s) (v.owned s (λ e. h (page_id_same s ∙ e)));
    clean = updated_clean;
  }

  resident-updated :
      (j : ℕ) (o : Option ℕ) → f.page ≡ (p.frames slot).page → resident o updated j ≡ resident o p j
  unfolding resident
  resident-updated j none same = refl
  resident-updated j (some s) same = elim (Bool-cases (s == slot)) [
    | inl e ↦ rw (eq_slot s e) (ap (λ (g : Frame). g.page) (set_frame_self slot f p.frames) ∙ same)
    | inr e ↦ ap (λ (g : Frame). g.page) (set_frame_ne slot f p.frames s e)
  ]

  -- with the same content the view is the same
  pub view-updated_same : f.page ≡ (p.frames slot).page → (j : ℕ) → view updated j ≡ view p j
  unfolding view
  view-updated_same same j = resident-updated j (find j p.page_table) same

  resident_other :
      (id j : ℕ) (o : Option ℕ)
      → find id p.page_table ≡ some slot
      → find j p.page_table ≡ o
      → (j == id) ≡ false
      → resident o updated j ≡ resident o p j
  unfolding resident
  resident_other id j none h e ne = refl
  resident_other id j (some s) h e ne =
      ap (λ (g : Frame). g.page)
        (set_frame_ne slot f p.frames s (
          ==_ne s slot λ x. ground (
            arith,
            ne,
            v.mapped j s e,
            v.mapped id slot h,
            ap (λ (t : ℕ). (p.frames t).page_id) x,
          )))

  -- with other content, only the page of the slot reads differently
  pub view-updated :
      (id : ℕ)
      → find id p.page_table ≡ some slot
      → (j : ℕ) → view updated j ≡ (if j == id then f.page else view p j)
  unfolding view
  view-updated id h j = elim (Bool-cases (j == id)) [
    | inl e ↦
        rw (e, (==_iff j id).0 e, h)
          (unfold resident in ap (λ (g : Frame). g.page) (set_frame_self slot f p.frames))
    | inr e ↦ rw e (resident_other id j (find j p.page_table) h refl e)
  ]
