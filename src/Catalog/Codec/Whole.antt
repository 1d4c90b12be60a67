-- ===== src/Catalog/Codec/Whole.antt =====
-- The whole catalog page: `deserialize` after `serialize`.
use gs_dbengine.Base.{
  ℕ, suc, ◌/◌, ◌%◌, ◌^◌, ◌<◌, ◌≡◌, ◌≢◌, refl, ap, sym, ◌∙◌, inl, inr, false, List, [], ◌∷◌, ◌++◌,
  Bytes, length, none, ok, All, map, arith, append_assoc, append-nil, Bool-cases, le_bytes, ◌==◌,
  ◌&&◌,
}
use native.Mathlib.Nat.{mod-eq_of_lt}
use gs_dbengine.Catalog.Schema.{TableSchema, IndexSchema, text_eq}
use gs_dbengine.Row.{list_eq}
use gs_dbengine.Catalog.Texts.{find_text, insert_text}
use gs_dbengine.Catalog.Codec.{
  write_uint32, write_each, write_list, write_table, read_table, write_index, read_index, Catalog,
  serialize, enter_tables, enter_indexes, starts_with_zeros, read_catalog, deserialize,
}
use gs_dbengine.Catalog.Codec.RoundTrip.{
  FitsList, FitsTable, FitsIndex, list-Reads, table-Reads, index-Reads,
}

text_eq_sym : (s t : Bytes) → text_eq s t ≡ text_eq t s
unfolding text_eq list_eq
text_eq_sym [] [] = refl
text_eq_sym [] (c ∷ t) = refl
text_eq_sym (b ∷ s) [] = refl
text_eq_sym (b ∷ s) (c ∷ t) = ground (arith, text_eq_sym s t)

module _ {ℓ} {V : Type ℓ} where
  -- Each text stands once.
  abbrev pub DistinctTexts : List (Bytes × V) → Type ℓ
  DistinctTexts [] = Unit {ℓ}
  DistinctTexts ((k, _) ∷ m) = (find_text k m ≡ none) × DistinctTexts m

  abbrev IsFresh : List (Bytes × V) → List (Bytes × V) → Type ℓ
  IsFresh acc = All (λ (e : Bytes × V). find_text e.0 acc ≡ none)

  insert_text-append :
      (k : Bytes) (v : V) (m : List (Bytes × V))
      → find_text k m ≡ none
      → insert_text k v m ≡ m ++ (k, v) ∷ []
  unfolding find_text insert_text
  insert_text-append k v [] h = refl
  insert_text-append k v ((j, w) ∷ m) h = elim (Bool-cases (text_eq j k)) [
    | inl e ↦ absurd (ground (arith, e))
    | inr e ↦
        let g : find_text k m ≡ none = rw e at h in
        rw e (ap (λ t. (j, w) ∷ t) (insert_text-append k v m g))
  ]

  find_text-append :
      (k j : Bytes) (v : V) (m : List (Bytes × V))
      → find_text j m ≡ none
      → text_eq k j ≡ false
      → find_text j (m ++ (k, v) ∷ []) ≡ none
  unfolding find_text
  find_text-append k j v [] h e = rw e
  find_text-append k j v ((i, w) ∷ m) h e = elim (Bool-cases (text_eq i j)) [
    | inl t ↦ absurd (ground (arith, t))
    | inr t ↦ let g : find_text j m ≡ none = rw t at h in rw t (find_text-append k j v m g e)
  ]

  IsFresh-append :
      (k : Bytes) (v : V) (acc m : List (Bytes × V))
      → find_text k m ≡ none
      → IsFresh acc m
      → IsFresh (acc ++ (k, v) ∷ []) m
  unfolding find_text
  IsFresh-append k v acc [] h f = tt
  IsFresh-append k v acc ((j, w) ∷ m) h f = elim (Bool-cases (text_eq j k)) [
    | inl t ↦ absurd (ground (arith, t))
    | inr t ↦
        let g : find_text k m ≡ none = rw t at h in
        (find_text-append k j v acc f.0 (text_eq_sym k j ∙ t), IsFresh-append k v acc m g f.1)
  ]

  IsFresh-nil : (m : List (Bytes × V)) → IsFresh [] m
  unfolding find_text
  IsFresh-nil [] = tt
  IsFresh-nil ((k, v) ∷ m) = (refl, IsFresh-nil m)

abbrev schemas {ℓ} : {V : Type ℓ} → List (Bytes × V) → List V
schemas = map (λ e. e.1)

enter_tables_lem :
    (m acc : List (Bytes × TableSchema))
    → All (λ (e : Bytes × TableSchema). e.0 ≡ (e.1).name) m
    → DistinctTexts m
    → IsFresh acc m
    → enter_tables (schemas m) acc ≡ acc ++ m
unfolding enter_tables
enter_tables_lem [] acc n d f = sym (append-nil acc)
enter_tables_lem ((k, s) ∷ m) acc n d f =
    let step : insert_text s.name s acc ≡ acc ++ (k, s) ∷ [] =
      ap (λ t. insert_text t s acc) (sym n.0) ∙ insert_text-append k s acc f.0 in
    ap (enter_tables (schemas m)) step
    ∙ enter_tables_lem m (acc ++ (k, s) ∷ []) n.1 d.1 (IsFresh-append k s acc m d.0 f.1)
    ∙ append_assoc acc ((k, s) ∷ []) m

enter_indexes_lem :
    (m acc : List (Bytes × IndexSchema))
    → All (λ (e : Bytes × IndexSchema). e.0 ≡ (e.1).name) m
    → DistinctTexts m
    → IsFresh acc m
    → enter_indexes (schemas m) acc ≡ acc ++ m
unfolding enter_indexes
enter_indexes_lem [] acc n d f = sym (append-nil acc)
enter_indexes_lem ((k, s) ∷ m) acc n d f =
    let step : insert_text s.name s acc ≡ acc ++ (k, s) ∷ [] =
      ap (λ t. insert_text t s acc) (sym n.0) ∙ insert_text-append k s acc f.0 in
    ap (enter_indexes (schemas m)) step
    ∙ enter_indexes_lem m (acc ++ (k, s) ∷ []) n.1 d.1 (IsFresh-append k s acc m d.0 f.1)
    ∙ append_assoc acc ((k, s) ∷ []) m

length-schemas {ℓ} : {V : Type ℓ} (m : List (Bytes × V)) → length (schemas m) ≡ length m
length-schemas [] = refl
length-schemas (e ∷ m) = ap suc (length-schemas m)

module _ {ℓ} {V : Type ℓ} (w : V → Bytes) where
  write_each-schemas :
      (m : List (Bytes × V)) → write_each (λ (e : Bytes × V). w e.1) m ≡ write_each w (schemas m)
  unfolding write_each
  write_each-schemas [] = refl
  write_each-schemas (e ∷ m) = ap (λ t. w e.1 ++ t) (write_each-schemas m)

  write_list-schemas :
      (m : List (Bytes × V)) → write_list (λ (e : Bytes × V). w e.1) m ≡ write_list w (schemas m)
  unfolding write_list
  write_list-schemas m = rw (length-schemas m, write_each-schemas m)

-- What `CatalogManager` keeps: maps from the names of the schemas, within the widths of their
-- length fields.
pub record FitsCatalog (c : Catalog) : Type 0 where
  pub table_names : All (λ (e : Bytes × TableSchema). e.0 ≡ (e.1).name) c.tables
  pub index_names : All (λ (e : Bytes × IndexSchema). e.0 ≡ (e.1).name) c.indexes
  pub table_keys : DistinctTexts c.tables
  pub index_keys : DistinctTexts c.indexes
  pub tables_fit : FitsList FitsTable (schemas c.tables)
  pub indexes_fit : FitsList FitsIndex (schemas c.indexes)

read-serialize :
    (c : Catalog) (rest : Bytes) → FitsCatalog c → read_catalog (serialize c ++ rest) ≡ ok c
unfolding read_catalog serialize
read-serialize c rest f = rw (
  write_list-schemas write_table c.tables,
  write_list-schemas write_index c.indexes,
  append_assoc,
  list-Reads write_table read_table table-Reads (schemas c.tables) _ f.tables_fit,
  list-Reads write_index read_index index-Reads (schemas c.indexes) rest f.indexes_fit,
  enter_tables_lem c.tables [] f.table_names f.table_keys (IsFresh-nil c.tables),
  enter_indexes_lem c.indexes [] f.index_names f.index_keys (IsFresh-nil c.indexes),
)

-- The count of the tables comes first; it is not 0 where there is a table.
page_start :
    (n : ℕ) (rest : Bytes)
    → n ≢ 0
    → n < 2 ^ 32
    → deserialize (write_uint32 n ++ rest) ≡ read_catalog (write_uint32 n ++ rest)
unfolding deserialize write_uint32 le_bytes starts_with_zeros
page_start n rest h k =
    let e : ((n % 256 == 0) && (n / 256 % 256 == 0))
          && ((n / 256 / 256 % 256 == 0) && (n / 256 / 256 / 256 % 256 == 0))
        ≡ false =
      ground arith in
    rw e

-- A catalog with a table, of distinct names and within the widths of the length fields, is read
-- back from its bytes, whatever follows them.
pub deserialize-serialize_catalog :
    (c : Catalog) (rest : Bytes)
    → FitsCatalog c
    → c.tables ≢ []
    → deserialize (serialize c ++ rest) ≡ ok c
deserialize-serialize_catalog c rest f h =
    let n : ℕ = length c.tables in
    let small : n < 2 ^ 32 = omega (arith, (f.tables_fit).0, length-schemas c.tables) in
    let some_table : n ≢ 0 = ne_nil c.tables h in
    let tail : Bytes =
      write_each (λ (e : Bytes × TableSchema). write_table e.1) c.tables
      ++ (write_list (λ (e : Bytes × IndexSchema). write_index e.1) c.indexes ++ rest) in
    let e : serialize c ++ rest ≡ write_uint32 n ++ tail =
      unfold serialize write_list in rw (mod-eq_of_lt small) (simp append_assoc) in
    ap deserialize e
    ∙ page_start n tail some_table small
    ∙ ap read_catalog (sym e)
    ∙ read-serialize c rest f
  where
    ne_nil : (m : List (Bytes × TableSchema)) → m ≢ [] → length m ≢ 0
    ne_nil [] h e = h refl
    ne_nil (x ∷ m) h e = absurd (omega (arith, e))
