-- ===== src/Catalog/Manager.antt =====
-- src/catalog/catalog_manager.h and catalog_manager.cpp: `CatalogManager` over the pool and the log.
-- A method returns its result with the state that it leaves, also when it throws.
pub mod Persist
pub mod Drop
use gs_dbengine.Base.{
  ℕ, ◌+◌, ◌-◌, Bool, true, false, List, [], ◌∷◌, ◌++◌, Bytes, length, Option, none, some, Result,
  ok, err, if◌then◌else◌, ◌==◌, ltb, map, replicate, catalog_too_large, unexpected_catalog_page,
  table_already_exists, no_such_table, index_already_exists, no_such_index,
}
use gs_dbengine.Storage.Page.{Page, page_size, zero_page}
use gs_dbengine.Storage.Pool.{Pool, fetch_page, new_page, unpin_page, write_frame}
use gs_dbengine.Wal.{Wal, Engine, begin, write, commit}
use gs_dbengine.Catalog.Schema.{TableSchema, IndexSchema, ForeignKeyConstraint, text_eq}
use gs_dbengine.Catalog.Texts.{find_text, insert_text, erase_text}
use gs_dbengine.Catalog.Codec.{Catalog, empty_catalog, serialize, deserialize}

abbrev pub catalog_page_id : ℕ
catalog_page_id = 1

pub record CatalogManager : Type 0 where
  pub engine : Engine
  pub catalog : Catalog

unfoldable pub with_pool : Pool → CatalogManager → CatalogManager
with_pool p s = record s { engine = record s.engine { pool = p } }

unfoldable pub committed :
    Result (Unit {0}) × Engine → CatalogManager → Result (Unit {0}) × CatalogManager
committed (r, e) s = (r, record s { engine = e })

unfoldable pub store_page : Page → CatalogManager → Result (Unit {0}) × CatalogManager
unfolding committed
store_page page s =
    let (txn, w) = begin (s.engine).wal in
    committed (commit txn (record s.engine { wal = write txn catalog_page_id page w })) s

unfoldable pub persist : CatalogManager → Result (Unit {0}) × CatalogManager
persist s =
    let bytes = serialize s.catalog in
    if ltb page_size (length bytes)
    then (err catalog_too_large, s)
    else store_page (bytes ++ replicate (page_size - length bytes) 0) s

-- `load` of a new database; the id is that of the page which `new_page` returned.
unfoldable pub load_created :
    Result (ℕ × ℕ) × Pool → CatalogManager → Result (Unit {0}) × CatalogManager
load_created (err e, p) s = (err e, with_pool p s)
load_created (ok (page_id, slot), p) s =
    if page_id == catalog_page_id
    then (ok tt, with_pool (unpin_page page_id false (write_frame slot zero_page p)) s)
    else (err unexpected_catalog_page, with_pool p s)

-- `deserialize` fills the maps. On an error this model keeps the old ones, where the source has
-- cleared them and filled a part.
unfoldable pub load_bytes : Result Catalog → CatalogManager → Result (Unit {0}) × CatalogManager
load_bytes (err e) s = (err e, s)
load_bytes (ok c) s = (ok tt, record s { catalog = c })

unfoldable pub load_fetched : Result ℕ × Pool → CatalogManager → Result (Unit {0}) × CatalogManager
unfolding load_bytes
load_fetched (err e, p) s = (err e, with_pool p s)
load_fetched (ok slot, p) s =
    load_bytes (deserialize (p.frames slot).page) (with_pool (unpin_page catalog_page_id false p) s)

unfoldable pub load : Bool → CatalogManager → Result (Unit {0}) × CatalogManager
unfolding load_created load_fetched
load true s = load_created (new_page (s.engine).pool) s
load false s = load_fetched (fetch_page catalog_page_id (s.engine).pool) s

-- The maps change before `persist`, and stay changed when it throws.
unfoldable pub create_table_at :
    Option TableSchema → TableSchema → CatalogManager → Result (Unit {0}) × CatalogManager
create_table_at (some _) schema s = (err table_already_exists, s)
create_table_at none schema s = persist (record s {
  catalog = record s.catalog { tables = insert_text schema.name schema (s.catalog).tables };
})

unfoldable pub create_table : TableSchema → CatalogManager → Result (Unit {0}) × CatalogManager
unfolding create_table_at
create_table schema s = create_table_at (find_text schema.name (s.catalog).tables) schema s

-- The loop of `drop_table` over the indexes.
unfoldable pub erase_indexes_of : Bytes → List (Bytes × IndexSchema) → List (Bytes × IndexSchema)
erase_indexes_of table_name [] = []
erase_indexes_of table_name ((k, idx) ∷ m) =
    let rest = erase_indexes_of table_name m in
    if text_eq idx.table_name table_name then rest else (k, idx) ∷ rest

unfoldable pub drop_table_at :
    Option TableSchema → Bytes → CatalogManager → Result (Unit {0}) × CatalogManager
drop_table_at none table_name s = (err no_such_table, s)
drop_table_at (some _) table_name s = persist (record s {
  catalog = record {
    tables = erase_text table_name (s.catalog).tables;
    indexes = erase_indexes_of table_name (s.catalog).indexes;
  };
})

unfoldable pub drop_table : Bytes → CatalogManager → Result (Unit {0}) × CatalogManager
unfolding drop_table_at
drop_table table_name s = drop_table_at (find_text table_name (s.catalog).tables) table_name s

unfoldable pub table_or_error : Option TableSchema → Result TableSchema
table_or_error none = err no_such_table
table_or_error (some schema) = ok schema

unfoldable pub get_table : Bytes → CatalogManager → Result TableSchema
unfolding table_or_error
get_table table_name s = table_or_error (find_text table_name (s.catalog).tables)

unfoldable pub is_some {ℓ} : {V : Type ℓ} → Option V → Bool
is_some none = false
is_some (some _) = true

unfoldable pub table_exists : Bytes → CatalogManager → Bool
unfolding is_some
table_exists table_name s = is_some (find_text table_name (s.catalog).tables)

unfoldable pub list_tables : CatalogManager → List Bytes
list_tables s = map (λ (e : Bytes × TableSchema). e.0) (s.catalog).tables

unfoldable pub create_index_at :
    Option IndexSchema → IndexSchema → CatalogManager → Result (Unit {0}) × CatalogManager
create_index_at (some _) idx s = (err index_already_exists, s)
create_index_at none idx s = persist (record s {
  catalog = record s.catalog { indexes = insert_text idx.name idx (s.catalog).indexes };
})

unfoldable pub create_index : IndexSchema → CatalogManager → Result (Unit {0}) × CatalogManager
unfolding create_index_at
create_index idx s = create_index_at (find_text idx.name (s.catalog).indexes) idx s

unfoldable pub drop_index_at :
    Option IndexSchema → Bytes → CatalogManager → Result (Unit {0}) × CatalogManager
drop_index_at none index_name s = (err no_such_index, s)
drop_index_at (some _) index_name s = persist (record s {
  catalog = record s.catalog { indexes = erase_text index_name (s.catalog).indexes };
})

unfoldable pub drop_index : Bytes → CatalogManager → Result (Unit {0}) × CatalogManager
unfolding drop_index_at
drop_index index_name s = drop_index_at (find_text index_name (s.catalog).indexes) index_name s

unfoldable pub index_or_error : Option IndexSchema → Result IndexSchema
index_or_error none = err no_such_index
index_or_error (some idx) = ok idx

unfoldable pub get_index : Bytes → CatalogManager → Result IndexSchema
unfolding index_or_error
get_index index_name s = index_or_error (find_text index_name (s.catalog).indexes)

unfoldable pub indexes_for : Bytes → List (Bytes × IndexSchema) → List IndexSchema
indexes_for table_name [] = []
indexes_for table_name ((_, idx) ∷ m) =
    let rest = indexes_for table_name m in
    if text_eq idx.table_name table_name then idx ∷ rest else rest

unfoldable pub get_indexes_for_table : Bytes → CatalogManager → List IndexSchema
unfolding indexes_for
get_indexes_for_table table_name s = indexes_for table_name (s.catalog).indexes

unfoldable pub keys_referencing :
    Bytes → Bytes → List ForeignKeyConstraint → List (Bytes × ForeignKeyConstraint)
keys_referencing parent_table name [] = []
keys_referencing parent_table name (fk ∷ fks) =
    let rest = keys_referencing parent_table name fks in
    if text_eq fk.ref_table parent_table then (name, fk) ∷ rest else rest

unfoldable pub tables_referencing :
    Bytes → List (Bytes × TableSchema) → List (Bytes × ForeignKeyConstraint)
unfolding keys_referencing
tables_referencing parent_table [] = []
tables_referencing parent_table ((_, schema) ∷ m) =
    keys_referencing parent_table schema.name schema.foreign_keys
    ++ tables_referencing parent_table m

unfoldable pub get_foreign_keys_referencing :
    Bytes → CatalogManager → List (Bytes × ForeignKeyConstraint)
unfolding tables_referencing
get_foreign_keys_referencing parent_table s = tables_referencing parent_table (s.catalog).tables

-- `it->second.root_page = new_root_page`
unfoldable pub update_table_at :
    Option TableSchema → Bytes → ℕ → CatalogManager → Result (Unit {0}) × CatalogManager
update_table_at none table_name new_root_page s = (err no_such_table, s)
update_table_at (some schema) table_name new_root_page s = persist (record s {
  catalog = record s.catalog {
    tables =
        insert_text table_name (record schema { root_page = new_root_page }) (s.catalog).tables;
  };
})

unfoldable pub update_table_root : Bytes → ℕ → CatalogManager → Result (Unit {0}) × CatalogManager
unfolding update_table_at
update_table_root table_name new_root_page s =
    update_table_at (find_text table_name (s.catalog).tables) table_name new_root_page s

unfoldable pub update_index_at :
    Option IndexSchema → Bytes → ℕ → CatalogManager → Result (Unit {0}) × CatalogManager
update_index_at none index_name new_root_page s = (err no_such_index, s)
update_index_at (some idx) index_name new_root_page s = persist (record s {
  catalog = record s.catalog {
    indexes = insert_text index_name (record idx { root_page = new_root_page }) (s.catalog).indexes;
  };
})

unfoldable pub update_index_root : Bytes → ℕ → CatalogManager → Result (Unit {0}) × CatalogManager
unfolding update_index_at
update_index_root index_name new_root_page s =
    update_index_at (find_text index_name (s.catalog).indexes) index_name new_root_page s
