-- ===== src/Btree/Node/Cells.antt =====
-- What the setters of btree_node.cpp leave in the page.
use gs_dbengine.Base.{
  ℕ, ◌+◌, ◌-◌, ◌%◌, ◌^◌, ◌≤◌, ◌≡◌, refl, ap, sym, ◌∙◌, inl, inr, List, [], ◌∷◌, ◌++◌, Bytes, length,
  Result, ok, ◌>>=◌, ltb-false, drop, take, reverse, splice, field, set_field, le_value, ◌⊎◌, arith,
  append_assoc, append-nil, length-append, length-splice, drop-splice_self, slice-splice_before,
  length-set_field, drop-set_field_after, field-set_field, field-set_field_ne,
}
use mathlib.Core.List.{reverse-append}
use gs_dbengine.Storage.Page.{Page, IsPage, page_size}
use gs_dbengine.Btree.Node.{
  type, num_cells, free_space_ptr_value, parent_page, next_leaf, rightmost_child, set_num_cells,
  set_free_space_ptr, write_cells, finish_cells, node_header_size,
}

unfoldable pub total : List Bytes → ℕ
total [] = 0
total (c ∷ cells) = length c + total cells

unfoldable pub flat : List Bytes → Bytes
flat [] = []
flat (c ∷ cells) = c ++ flat cells

-- The cells in the order of their addresses, in front of what stood behind them.
pub joined : List Bytes → Bytes → Bytes
joined [] acc = acc
joined (c ∷ cells) acc = joined cells (c ++ acc)

pub record Written (cells : List Bytes) (ptr : ℕ) (p : Page) : Type 0 where
  pub page : Page
  pub runs : write_cells cells ptr p ≡ ok (page, ptr - total cells)
  pub size : length page ≡ length p
  pub tail : drop (ptr - total cells) page ≡ joined cells (drop ptr p)
  pub before : (o n : ℕ) → o + n ≤ ptr - total cells → take n (drop o page) ≡ take n (drop o p)

write_cells_lem :
    (cells : List Bytes) (ptr : ℕ) (p : Page)
    → total cells ≤ ptr
    → ptr ≤ length p
    → Written cells ptr p
unfolding write_cells total joined
write_cells_lem [] ptr p h k = record {
  page = p;
  runs = ap (λ (n : ℕ). ok (p, n)) (omega arith);
  size = refl;
  tail = ap (λ (n : ℕ). drop n p) {x = ptr - 0} (omega arith);
  before = λ o n _. refl;
}
write_cells_lem (c ∷ cells) ptr p h k =
    let off : ℕ = ptr - length c in
    let q : Page = splice off c p in
    let fits : off + length c ≤ length p = omega arith in
    let w : Written cells off q =
      write_cells_lem cells off q (omega arith) (omega (arith, length-splice off c p fits)) in
    let same : off - total cells ≡ ptr - (length c + total cells) = omega arith in
    record {
      page = w.page;
      runs =
          rw (ltb-false ptr (length c) (omega arith))
            (w.runs ∙ ap (λ (n : ℕ). ok (w.page, n)) same);
      size = w.size ∙ length-splice off c p fits;
      tail =
          ap (λ (n : ℕ). drop n w.page) (sym same)
          ∙ w.tail
          ∙ ap (joined cells) (
              drop-splice_self off c p fits
              ∙ ap (λ (n : ℕ). c ++ drop n p) {y = ptr} (omega arith));
      before =
          λ o n l. w.before o n (omega arith) ∙ slice-splice_before off c p fits o n (omega arith);
    }

total-append : (xs ys : List Bytes) → total (xs ++ ys) ≡ total xs + total ys
unfolding total
total-append [] ys = omega arith
total-append (x ∷ xs) ys = omega (arith, total-append xs ys)

pub length-flat : (cells : List Bytes) → length (flat cells) ≡ total cells
unfolding total flat
length-flat [] = refl
length-flat (c ∷ cells) = omega (arith, length-append c (flat cells), length-flat cells)

joined-append :
    (xs ys : List Bytes) (acc : Bytes) → joined (xs ++ ys) acc ≡ joined ys (joined xs acc)
unfolding joined
joined-append [] ys acc = refl
joined-append (x ∷ xs) ys acc = joined-append xs ys (x ++ acc)

total-reverse : (cells : List Bytes) → total (reverse cells) ≡ total cells
unfolding total
total-reverse [] = refl
total-reverse (c ∷ cells) =
    ap total (reverse-append (c ∷ []) cells)
    ∙ omega (arith, total-append (reverse cells) (c ∷ []), total-reverse cells)

joined-reverse : (cells : List Bytes) (acc : Bytes) → joined (reverse cells) acc ≡ flat cells ++ acc
unfolding joined flat
joined-reverse [] acc = refl
joined-reverse (c ∷ cells) acc =
    ap (λ t. joined t acc) (reverse-append (c ∷ []) cells)
    ∙ joined-append (reverse cells) (c ∷ []) acc
    ∙ ap (λ t. c ++ t) (joined-reverse cells acc)
    ∙ sym (append_assoc c (flat cells) acc)

-- The page after a setter: the cells stand in order from `free_space_ptr` to the end, and the
-- header fields that the setter does not write are those of the old page.
pub record Stored (cells : List Bytes) (count : ℕ) (p : Page) (result : Result Page) : Type 0 where
  pub page : Page
  pub runs : result ≡ ok page
  pub is_page : IsPage page
  pub cells_eq : drop (free_space_ptr_value page) page ≡ flat cells
  pub free_space : free_space_ptr_value page ≡ page_size - total cells
  pub count_eq : num_cells page ≡ count % 2 ^ 16
  pub type_eq : type page ≡ type p
  pub parent_eq : parent_page page ≡ parent_page p
  pub next_eq : next_leaf page ≡ next_leaf p
  pub rightmost_eq : rightmost_child page ≡ rightmost_child p

drop-all : (p : Bytes) → drop (length p) p ≡ []
drop-all [] = refl
drop-all (x ∷ p) = drop-all p

module _ (cells : List Bytes) (count : ℕ) (p : Page) (is_page : IsPage p)
    (fits : total cells + node_header_size ≤ page_size) where
  write : Written (reverse cells) page_size p
  write =
      write_cells_lem (reverse cells) page_size p (omega (arith, total-reverse cells)) (omega arith)

  ptr_eq : page_size - total (reverse cells) ≡ page_size - total cells
  ptr_eq = omega (arith, total-reverse cells)

  long : page_size ≡ length write.page
  long = sym (write.size ∙ is_page)

  abbrev counted : Page
  counted = set_field 2 1 (count % 2 ^ 16) write.page

  abbrev finished : Page
  finished = set_field 2 3 ((page_size - total cells) % 2 ^ 16) counted

  length-counted : length counted ≡ length write.page
  length-counted = length-set_field 2 1 (count % 2 ^ 16) write.page (omega (arith, long))

  room : 3 + 2 ≤ length counted
  room = omega (arith, long, length-counted)

  -- a header field behind the two that are written, or before them
  kept :
      (w o : ℕ)
      → (o + w ≤ 1) ⊎ (5 ≤ o)
      → o + w ≤ node_header_size
      → field w o finished ≡ field w o p
  kept w o apart inside =
      field-set_field_ne 2 3 ((page_size - total cells) % 2 ^ 16) counted room w o (omega arith)
      ∙ field-set_field_ne 2 1 (count % 2 ^ 16) write.page (omega (arith, long)) w o (omega arith)
      ∙ (unfold field in ap le_value (write.before o w (omega (arith, ptr_eq))))

  free_space_eq : free_space_ptr_value finished ≡ page_size - total cells
  unfolding free_space_ptr_value
  free_space_eq =
      field-set_field 2 3 ((page_size - total cells) % 2 ^ 16) counted room (omega arith)
      ∙ omega arith

  finished_tail : drop (page_size - total cells) finished ≡ flat cells
  finished_tail =
      drop-set_field_after 2 3 ((page_size - total cells) % 2 ^ 16) counted room
        (page_size - total cells) (omega arith)
      ∙ drop-set_field_after 2 1 (count % 2 ^ 16) write.page (omega (arith, long))
          (page_size - total cells) (omega arith)
      ∙ ap (λ (n : ℕ). drop n write.page) (sym ptr_eq)
      ∙ write.tail
      ∙ joined-reverse cells (drop page_size p)
      ∙ ap (λ t. flat cells ++ t) (ap (λ (n : ℕ). drop n p) (sym is_page) ∙ drop-all p)
      ∙ append-nil (flat cells)

  pub set_cells_lem :
      Stored cells count p (write_cells (reverse cells) page_size p >>= finish_cells count)
  unfolding type num_cells parent_page next_leaf rightmost_child finish_cells set_num_cells
      set_free_space_ptr
  set_cells_lem = record {
    page = finished;
    runs = rw (write.runs, ptr_eq);
    is_page =
        length-set_field 2 3 ((page_size - total cells) % 2 ^ 16) counted room
        ∙ length-counted
        ∙ sym long;
    cells_eq = rw free_space_eq finished_tail;
    free_space = free_space_eq;
    count_eq =
        field-set_field_ne 2 3 ((page_size - total cells) % 2 ^ 16) counted room 2 1
          (inl (omega arith))
        ∙ field-set_field 2 1 (count % 2 ^ 16) write.page (omega (arith, long)) (omega arith);
    type_eq = kept 1 0 (inl (omega arith)) (omega arith);
    parent_eq = kept 4 5 (inr (omega arith)) (omega arith);
    next_eq = kept 4 9 (inr (omega arith)) (omega arith);
    rightmost_eq = kept 4 13 (inr (omega arith)) (omega arith);
  }
