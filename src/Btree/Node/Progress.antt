-- ===== src/Btree/Node/Progress.antt =====
-- The loops that read a page end: each round takes bytes off what is left.
use gs_dbengine.Base.{
  ℕ, zero, suc, ◌+◌, ◌≤◌, ◌≡◌, ◌≢◌, ap, inl, inr, Bool, true, false, [], ◌∷◌, Bytes, length, Result,
  Error, ok, err, ◌>>=◌, out_of_fuel, arith, read_bytes, load, length-drop, ltb, Bool-cases,
  if◌then◌else◌, ◌==◌,
}
use gs_dbengine.Storage.Page.{Page, IsPage, page_size}
use gs_dbengine.Row.{Value, int, float, string}
use gs_dbengine.Btree.Key.{decode, decode_value, decode_elements, read_u16, read_u32, read_bool}
use gs_dbengine.Btree.Node.{
  read_cells, read_leaf_cell, read_internal_cell, get_leaf_entries, get_internal_entries,
  free_space_ptr_value,
}

-- A read that takes at least `k` bytes, or fails with an error of the program.
abbrev Takes {ℓ} : {A : Type ℓ} → ℕ → Bytes → Result (A × Bytes) → Type 0
Takes k bs (ok (a, rest)) = length rest + k ≤ length bs
Takes k bs (err e) = e ≢ out_of_fuel

Takes-bind {ℓ κ} :
    {A : Type ℓ} {B : Type κ} (j k : ℕ) (bs : Bytes) (m : Result (A × Bytes))
    (f : A × Bytes → Result (B × Bytes))
    → Takes j bs m
    → ((a : A) (rest : Bytes) → Takes k rest (f (a, rest)))
    → Takes (j + k) bs (m >>= f)
Takes-bind j k bs (err e) f h g = h
Takes-bind {B = B} j k bs (ok (a, rest)) f h g = weaken (f (a, rest)) (g a rest)
  where
    weaken : (r : Result (B × Bytes)) → Takes k rest r → Takes (j + k) bs r
    weaken (ok (b, rest')) t = omega arith
    weaken (err e) t = t

Takes-weaken {ℓ} :
    {A : Type ℓ} (j k : ℕ) (bs : Bytes) (m : Result (A × Bytes))
    → k ≤ j
    → Takes j bs m
    → Takes k bs m
Takes-weaken j k bs (ok (a, rest)) h t = omega arith
Takes-weaken j k bs (err e) h t = t

read_bytes-Takes : (n : ℕ) (bs : Bytes) → Takes n bs (read_bytes n bs)
unfolding read_bytes
read_bytes-Takes n bs = elim (Bool-cases (ltb (length bs) n)) [
  | inl e ↦ rw e (λ x. cc)
  | inr e ↦ rw e (ground (arith, length-drop n bs))
]

load-Takes : (w : ℕ) (bs : Bytes) → Takes w bs (load w bs)
unfolding load
load-Takes w bs =
    Takes-weaken (w + 0) w bs _ (omega arith)
      (Takes-bind w 0 bs (read_bytes w bs) _ (read_bytes-Takes w bs) (λ a rest. omega arith))

Takes-if {ℓ} :
    {A : Type ℓ} (k : ℕ) (bs : Bytes) (b : Bool) (m n : Result (A × Bytes))
    → Takes k bs m
    → Takes k bs n
    → Takes k bs (if b then m else n)
Takes-if k bs true m n h g = h
Takes-if k bs false m n h g = g

-- one more byte in front
Takes-cons {ℓ} :
    {A : Type ℓ} (k b : ℕ) (bs : Bytes) (m : Result (A × Bytes)) → Takes k bs m → Takes k (b ∷ bs) m
Takes-cons k b bs (ok (a, rest)) h = omega arith
Takes-cons k b bs (err e) h = h

read_u32-Takes : (bs : Bytes) → Takes 4 bs (read_u32 bs)
unfolding read_u32
read_u32-Takes bs = load-Takes 4 bs

word-Takes : (make : ℕ → Value) (bs : Bytes) → Takes 0 bs (read_u32 bs >>= λ r. ok (make r.0, r.1))
word-Takes make bs =
    Takes-weaken 4 0 bs _ (omega arith)
      (Takes-bind 4 0 bs (read_u32 bs) _ (read_u32-Takes bs) (λ a rest. omega arith))

text-Takes :
    (bs : Bytes)
    → Takes 0 bs (read_u32 bs >>= λ l. read_bytes l.0 l.1 >>= λ s. ok (string s.0, s.1))
text-Takes bs = Takes-weaken 4 0 bs _ (omega arith) (
    Takes-bind 4 0 bs (read_u32 bs) _ (read_u32-Takes bs) λ n rest.
      Takes-weaken (n + 0) 0 rest _ (omega arith) (
        Takes-bind n 0 rest (read_bytes n rest) _ (read_bytes-Takes n rest)
          (λ a more. omega arith)))

bool-Takes : (bs : Bytes) → Takes 0 bs (read_bool bs)
unfolding read_bool
bool-Takes [] = λ e. cc
bool-Takes (b ∷ bs) = omega arith

decode_value-Takes : (bs : Bytes) → Takes 0 bs (decode_value bs)
unfolding decode_value
decode_value-Takes [] = λ e. cc
decode_value-Takes (tag ∷ bs) = Takes-cons 0 tag bs _ (
    Takes-if 0 bs (tag == 0) _ _ (omega arith) (
      Takes-if 0 bs (tag == 1) _ _ (word-Takes int bs) (
        Takes-if 0 bs (tag == 2) _ _ (word-Takes float bs) (
          Takes-if 0 bs (tag == 3) _ _ (bool-Takes bs)
            (Takes-if 0 bs (tag == 4) _ _ (text-Takes bs) (λ e. cc))))))

decode_elements-Takes : (n : ℕ) (bs : Bytes) → Takes 0 bs (decode_elements n bs)
unfolding decode_elements
decode_elements-Takes zero bs = omega arith
decode_elements-Takes (suc n) bs =
    Takes-bind 0 0 bs (decode_value bs) _ (decode_value-Takes bs) λ v rest.
      Takes-bind 0 0 rest (decode_elements n rest) _ (decode_elements-Takes n rest)
        (λ a more. omega arith)

decode-Takes : (bs : Bytes) → Takes 2 bs (decode bs)
unfolding decode read_u16
decode-Takes bs =
    Takes-bind 2 0 bs (load 2 bs) _ (load-Takes 2 bs) (λ n rest. decode_elements-Takes n rest)

leaf-Takes : (bs : Bytes) → Takes 1 bs (read_leaf_cell bs)
unfolding read_leaf_cell
leaf-Takes bs = Takes-weaken 2 1 bs _ (omega arith) (
    Takes-bind 2 0 bs (decode bs) _ (decode-Takes bs) λ k rest.
      Takes-weaken 4 0 rest _ (omega arith) (
        Takes-bind 4 0 rest (read_u32 rest) _ (read_u32-Takes rest) λ n more.
          Takes-weaken (n + 0) 0 more _ (omega arith) (
            Takes-bind n 0 more (read_bytes n more) _ (read_bytes-Takes n more)
              (λ a end. omega arith))))

internal-Takes : (bs : Bytes) → Takes 1 bs (read_internal_cell bs)
unfolding read_internal_cell
internal-Takes bs = Takes-weaken 2 1 bs _ (omega arith) (
    Takes-bind 2 0 bs (decode bs) _ (decode-Takes bs) λ k rest.
      Takes-weaken 4 0 rest _ (omega arith)
        (Takes-bind 4 0 rest (read_u32 rest) _ (read_u32-Takes rest) (λ a more. omega arith)))

err-injective {ℓ} : {A : Type ℓ} {e e' : Error} → ◌≡◌ {A = Result A} (err e) (err e') → e ≡ e'
err-injective x = cc

bind-ne {ℓ κ} :
    {A : Type ℓ} {B : Type κ} (m : Result A) (f : A → B)
    → m ≢ err out_of_fuel
    → (m >>= λ a. ok (f a)) ≢ err out_of_fuel
bind-ne (ok a) f h x = cc
bind-ne (err e) f h x = h (ap err (err-injective x))

module _ {ℓ} {A : Type ℓ} (read : Bytes → Result (A × Bytes))
    (takes : (bs : Bytes) → Takes 1 bs (read bs)) where
  next_round :
      (fuel : ℕ) (r : Result (A × Bytes)) (bs : Bytes)
      → Takes 1 bs r
      → length bs ≤ suc fuel
      → ((rest : Bytes) → length rest ≤ fuel → read_cells read fuel rest ≢ err out_of_fuel)
      → (r >>= λ c. read_cells read fuel c.1 >>= λ entries. ok (c.0 ∷ entries)) ≢ err out_of_fuel
  next_round fuel (err e) bs t h go x = t (err-injective x)
  next_round fuel (ok (a, rest)) bs t h go x =
      bind-ne (read_cells read fuel rest) (λ entries. a ∷ entries) (go rest (omega arith)) x

  read_cells-ends :
      (fuel : ℕ) (bs : Bytes) → length bs ≤ fuel → read_cells read fuel bs ≢ err out_of_fuel
  unfolding read_cells
  read_cells-ends fuel [] h = λ e. cc
  read_cells-ends zero (b ∷ bs) h = absurd (omega arith)
  read_cells-ends (suc fuel) (b ∷ bs) h =
      next_round fuel (read (b ∷ bs)) (b ∷ bs) (takes (b ∷ bs)) h
        (λ rest l. read_cells-ends fuel rest l)

-- On every page, whatever its bytes, the loops of get_leaf_entries and get_internal_entries end
-- before they have used as much fuel as the page has bytes.
pub get_entries-end :
    (p : Page)
    → IsPage p
    → (get_leaf_entries p ≢ err out_of_fuel) × (get_internal_entries p ≢ err out_of_fuel)
unfolding get_leaf_entries get_internal_entries
get_entries-end p h = (
  read_cells-ends read_leaf_cell leaf-Takes page_size _
      (omega (arith, length-drop (free_space_ptr_value p) p)),
  read_cells-ends read_internal_cell internal-Takes page_size _
      (omega (arith, length-drop (free_space_ptr_value p) p)),
)
