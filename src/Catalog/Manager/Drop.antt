-- ===== src/Catalog/Manager/Drop.antt =====
-- What the methods that change the maps leave in them, also when the catalog does not fit its page.
use gs_dbengine.Base.{
  ◌≡◌, refl, inl, inr, List, [], ◌∷◌, Bytes, length, none, ok, err, ltb, Bool-cases, Option-cases,
  ◌⊎◌, no_such_table,
}
use gs_dbengine.Storage.Page.{page_size}
use gs_dbengine.Catalog.Schema.{TableSchema, IndexSchema, text_eq}
use gs_dbengine.Catalog.Texts.{find_text, erase_text}
use gs_dbengine.Catalog.Codec.{serialize}
use gs_dbengine.Catalog.Manager.{
  CatalogManager, store_page, persist, erase_indexes_of, drop_table, get_table, indexes_for,
  get_indexes_for_table,
}

-- `persist` changes no map, whatever its outcome.
pub persist-catalog : (s : CatalogManager) → ((persist s).1).catalog ≡ s.catalog
unfolding persist store_page
persist-catalog s = elim (Bool-cases (ltb page_size (length (serialize s.catalog)))) [
  | inl e ↦ rw e
  | inr e ↦ rw e
]

find-erase_text {ℓ} :
    {V : Type ℓ} (k : Bytes) (m : List (Bytes × V)) → find_text k (erase_text k m) ≡ none
unfolding find_text erase_text
find-erase_text k [] = refl
find-erase_text k ((j, w) ∷ m) = elim (Bool-cases (text_eq j k)) [
  | inl e ↦ rw e (find-erase_text k m)
  | inr e ↦ rw (e, e) (find-erase_text k m)
]

indexes_for-erase_indexes_of :
    (k : Bytes) (m : List (Bytes × IndexSchema)) → indexes_for k (erase_indexes_of k m) ≡ []
unfolding indexes_for erase_indexes_of
indexes_for-erase_indexes_of k [] = refl
indexes_for-erase_indexes_of k ((j, idx) ∷ m) = elim (Bool-cases (text_eq idx.table_name k)) [
  | inl e ↦ rw e (indexes_for-erase_indexes_of k m)
  | inr e ↦ rw (e, e) (indexes_for-erase_indexes_of k m)
]

-- drop_table of a missing table throws and changes nothing; of a present one it leaves neither the
-- table nor an index on it in the maps, also when the catalog is not persisted.
pub drop_table_cases :
    (table_name : Bytes) (s : CatalogManager)
    → ((get_table table_name s ≡ err no_such_table)
        × (drop_table table_name s ≡ (err no_such_table, s)))
      ⊎ ((schema : TableSchema) × (get_table table_name s ≡ ok schema)
          × (get_table table_name (drop_table table_name s).1 ≡ err no_such_table)
          × (get_indexes_for_table table_name (drop_table table_name s).1 ≡ []))
unfolding drop_table get_table get_indexes_for_table
drop_table_cases table_name s = elim (Option-cases (find_text table_name (s.catalog).tables)) [
  | inl e ↦ inl (rw e, rw e)
  | inr (schema, e) ↦
      let dropped : CatalogManager = record s {
        catalog = record {
          tables = erase_text table_name (s.catalog).tables;
          indexes = erase_indexes_of table_name (s.catalog).indexes;
        };
      } in
      inr (
        schema,
        rw e,
        rw (e, persist-catalog dropped, find-erase_text table_name (s.catalog).tables),
        rw (e, persist-catalog dropped)
            (indexes_for-erase_indexes_of table_name (s.catalog).indexes),
      )
]
