-- ===== src/Wal/Apply.antt =====
-- Committed pages enter the pool: `fetch_page`, `memcpy`, `unpin_page` on a pool that nobody pins.
use gs_dbengine.Base.{
  subst, ℕ, ◌<◌, ◌≡◌, ◌≢◌, refl, ap, sym, ◌∙◌, true, false, inl, inr, List, [], ◌∷◌, ◌++◌, reverse,
  if◌then◌else◌, ◌==◌, Option, none, some, arith, All, Bool-cases, ==_iff, ==_ne, ok,
}
use mathlib.Core.List.{reverse-append}
use gs_dbengine.Base.Assoc.{find, Distinct}
use gs_dbengine.Storage.Page.{Page, IsPage}
use gs_dbengine.Storage.Pool
use gs_dbengine.Storage.Pool.{
  Pool, Frame, fetch_page, write_frame, unpin_page, unpin_found, unpin_slot, set_frame,
}
use gs_dbengine.Storage.Pool.Table.{set_frame_self}
use gs_dbengine.Storage.Pool.Valid.{IsValid, view}
use gs_dbengine.Storage.Pool.Victim.{AllPinned}
use gs_dbengine.Storage.Pool.Fetch.{Fetched, fetch_page_cases}
use gs_dbengine.Storage.Pool.Release.{write-unpin_page, set_frame_twice}
use gs_dbengine.Wal.{apply_page, apply_pages}

-- Valid, with slots to give and no pin.
pub record IsIdle (p : Pool) : Type 0 where
  pub valid : IsValid p
  pub free : (s : ℕ) → (p.frames s).pin_count ≡ 0
  pub slots : p.lru_list ≢ []

-- An idle pool always has a slot to give.
pub free_slot :
    (p : Pool) (slots : List ℕ)
    → slots ≢ []
    → AllPinned p.frames (reverse slots)
    → ((s : ℕ) → (p.frames s).pin_count ≡ 0)
    → ⊥
free_slot p [] h a free = h refl
free_slot p (s ∷ slots) h a free =
    go (reverse slots) (subst (AllPinned p.frames) (reverse-append (s ∷ []) slots) a)
  where
    go : (xs : List ℕ) → AllPinned p.frames (xs ++ s ∷ []) → ⊥
    go [] a = a.0 (free s)
    go (x ∷ xs) a = a.0 (free x)

-- `q` shows `page` at `id` and else what `p` shows.
pub record Applied (id : ℕ) (page : Page) (p q : Pool) : Type 0 where
  pub idle : IsIdle q
  pub total_eq : (q.disk).total_pages ≡ (p.disk).total_pages
  pub shows : (j : ℕ) → view q j ≡ (if j == id then page else view p j)

module _ (id slot : ℕ) (page : Page) (p q : Pool) (idle : IsIdle p) (f : Fetched id slot p q)
    (is_page : IsPage page) where
  one : (q.frames slot).pin_count ≡ 1
  one = let z = idle.free slot in elim f.pins [ inl e ↦ e | inr e ↦ e ∙ rw z ]

  out : Pool
  out = unpin_page id true (write_frame slot page q)

  out_free : (s : ℕ) → (out.frames s).pin_count ≡ 0
  unfolding out unpin_page unpin_slot write_frame
  out_free s =
      rw
        (
          f.mapping,
          set_frame_self slot (record (q.frames slot) { page = page }) q.frames,
          one,
          set_frame_twice,
        )
        (elim (Bool-cases (s == slot)) [
          | inl e ↦ unfold set_frame in rw e
          | inr e ↦ unfold set_frame in rw e (f.other_pins s e ∙ idle.free s)
        ])

  out_lru : out.lru_list ≡ q.lru_list
  unfolding out unpin_page unpin_slot write_frame
  out_lru =
      rw (f.mapping, set_frame_self slot (record (q.frames slot) { page = page }) q.frames, one)

  out_total : (out.disk).total_pages ≡ (q.disk).total_pages
  unfolding out unpin_page unpin_slot write_frame
  out_total =
      rw (f.mapping, set_frame_self slot (record (q.frames slot) { page = page }) q.frames, one)

  out-Applied : Applied id page p out
  unfolding out
  out-Applied =
      let pinned : (q.frames slot).pin_count ≢ 0 = omega (arith, one) in
      let (valid, shows) = write-unpin_page id slot page q f.valid f.mapping pinned is_page in
      let (rest, front) = f.front in
      record {
        idle = record { valid = valid; free = out_free; slots = λ e. cc (out_lru, front, e) };
        total_eq = out_total ∙ f.total_eq;
        shows = λ j. shows j ∙ ap (λ t. if j == id then page else t) (f.same_view j);
      }

-- On an idle pool every page of the file can be applied.
pub apply_page-Applied :
    (id : ℕ) (page : Page) (p : Pool)
    → IsIdle p
    → id < (p.disk).total_pages
    → IsPage page
    → (q : Pool) × (apply_page id page p ≡ (ok tt, q)) × Applied id page p q
unfolding apply_page out
apply_page-Applied id page p idle h is_page = elim (fetch_page_cases id p idle.valid h) [
  | inl (slot, q, r, f) ↦
      (out id slot page p q idle f is_page, rw r, out-Applied id slot page p q idle f is_page)
  | inr (r, absent, pinned) ↦ absurd (free_slot p p.lru_list idle.slots pinned idle.free)
]

-- The page of a transaction at an id, else another.
abbrev pub or_else : Option Page → Page → Page
or_else none page = page
or_else (some page) _ = page

abbrev pub InFile : ℕ → List (ℕ × Page) → Type 0
InFile total = All (λ (e : ℕ × Page). (e.0 < total) × IsPage e.1)

pub record AppliedAll (pages : List (ℕ × Page)) (p q : Pool) : Type 0 where
  pub idle : IsIdle q
  pub total_eq : (q.disk).total_pages ≡ (p.disk).total_pages
  pub shows : (j : ℕ) → view q j ≡ or_else (find j pages) (view p j)

override_cons :
    (j id : ℕ) (page base v : Page) (pages : List (ℕ × Page))
    → find id pages ≡ none
    → v ≡ (if j == id then page else base)
    → or_else (find j pages) v ≡ or_else (if id == j then some page else find j pages) base
override_cons j id page base v pages absent e = elim (Bool-cases (id == j)) [
  | inl same ↦
      let eq : id ≡ j = (==_iff id j).0 same in
      let none_j : find j pages ≡ none = ap (λ (n : ℕ). find n pages) (sym eq) ∙ absent in
      let back : (j == id) ≡ true = (==_iff j id).1 (sym eq) in rw (same, none_j) (e ∙ rw back)
  | inr other ↦
      let back : (j == id) ≡ false = ==_ne j id (λ x. cc (other, (==_iff id j).1 (sym x))) in
      rw other (ap (or_else (find j pages)) (e ∙ rw back))
]

pub apply_pages-AppliedAll :
    (pages : List (ℕ × Page)) (p : Pool)
    → IsIdle p
    → Distinct pages
    → InFile (p.disk).total_pages pages
    → (q : Pool) × (apply_pages pages p ≡ (ok tt, q)) × AppliedAll pages p q
unfolding apply_pages Pool.and_then
apply_pages-AppliedAll [] p idle d h =
    (p, refl, record { idle = idle; total_eq = refl; shows = λ j. unfold find in refl })
apply_pages-AppliedAll ((id, page) ∷ pages) p idle d h =
    let (q, r, a) = apply_page-Applied id page p idle h.0.0 h.0.1 in
    let (q', r', b) =
      apply_pages-AppliedAll pages q a.idle d.1
        (subst (λ (n : ℕ). InFile n pages) (sym a.total_eq) h.1) in
    (
      q',
      rw r r',
      record {
        idle = b.idle;
        total_eq = b.total_eq ∙ a.total_eq;
        shows = λ j.
            b.shows j
            ∙ find_cons j (override_cons j id page (view p j) (view q j) pages d.0 (a.shows j));
      },
    )
  where
    find_cons :
        (j : ℕ) {x : Page}
        → x ≡ or_else (if id == j then some page else find j pages) (view p j)
        → x ≡ or_else (find j ((id, page) ∷ pages)) (view p j)
    find_cons j e = unfold find in e
