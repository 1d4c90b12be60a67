-- ===== src/Tests/Catalog.antt =====
-- A table with two columns and an index, a row of it, and the catalog that has both.
use gs_dbengine.Base.{
  ℕ, ◌≡◌, ◌≢◌, ◌≤◌, ◌++◌, refl, true, false, [], ◌∷◌, Bytes, length, ok, err, arith, no_such_table,
  ◌⊎◌, le_bytes,
}
use gs_dbengine.Row.{null, string, Row}
use gs_dbengine.Row.Serializer.{serialize, deserialize}
use gs_dbengine.Row.Serializer.Marks.{FitsColumns}
use gs_dbengine.Row.Serializer.RoundTrip.{deserialize-serialize}
use gs_dbengine.Storage.Pool.{open_pool}
use gs_dbengine.Storage.Pool.Valid.{view}
use gs_dbengine.Wal.{open_wal}
use gs_dbengine.Wal.Crash.{open_pool-IsIdle}
use gs_dbengine.Catalog.Schema.{ColumnType, Column, TableSchema, IndexSchema}
use gs_dbengine.Catalog.Texts.{find_text}
use gs_dbengine.Catalog.Codec
use gs_dbengine.Catalog.Codec.{Catalog, empty_catalog}
use gs_dbengine.Catalog.Codec.Whole.{FitsCatalog}
use gs_dbengine.Catalog.Manager.{
  CatalogManager, persist, load, drop_table, get_table, get_indexes_for_table,
}
use gs_dbengine.Catalog.Manager.Persist.{Persisted, load-persist}
use gs_dbengine.Catalog.Manager.Drop.{drop_table_cases}
use gs_dbengine.Tests.{three_pages, three_pages-IsDisk}

abbrev id_column : Column
id_column = record {
  name = 105 ∷ [];
  type = ColumnType.int;
  max_length = 0;
  is_nullable = true;
  is_primary_key = true;
  auto_increment = false;
  has_default = false;
  default_value = null;
}

abbrev text_column : Column
text_column = record {
  name = 116 ∷ [];
  type = ColumnType.varchar;
  max_length = 10;
  is_nullable = false;
  is_primary_key = false;
  auto_increment = false;
  has_default = true;
  default_value = string (65 ∷ []);
}

abbrev table : TableSchema
table = record {
  name = 84 ∷ [];
  columns = id_column ∷ text_column ∷ [];
  root_page = 2;
  primary_key_indices = 0 ∷ [];
  checks = [];
  foreign_keys = [];
  create_sql = 67 ∷ [];
}

abbrev row : Row
row = record { values = null ∷ string (65 ∷ 66 ∷ []) ∷ [] }

row-Fits : FitsColumns table.columns row.values
row-Fits = (refl, ((refl, omega arith, omega arith), tt))

serialize_example :
    (bytes : Bytes) × (serialize row table ≡ ok bytes)
    × ((rest : Bytes) → deserialize (bytes ++ rest) table ≡ ok row)
serialize_example = deserialize-serialize row table row-Fits

abbrev index : IndexSchema
index = record {
  name = 73 ∷ [];
  table_name = 84 ∷ [];
  column_names = (116 ∷ []) ∷ [];
  root_page = 3;
  is_unique = true;
}

abbrev catalog : Catalog
catalog = record { tables = (84 ∷ [], table) ∷ []; indexes = (73 ∷ [], index) ∷ [] }

catalog-Fits : FitsCatalog catalog
unfolding find_text
catalog-Fits = record {
  table_names = (refl, tt);
  index_names = (refl, tt);
  table_keys = (refl, tt);
  index_keys = (refl, tt);
  tables_fit = (
    omega arith,
    (
      (
        omega arith,
        omega arith,
        (omega arith, (omega arith, tt)),
        (
          omega arith,
          ((omega arith, omega arith, refl), ((omega arith, omega arith, omega arith), tt)),
        ),
        (omega arith, tt),
        (omega arith, tt),
        omega arith,
      ),
      tt,
    ),
  );
  indexes_fit = (
    omega arith,
    ((omega arith, omega arith, (omega arith, (omega arith, tt)), omega arith), tt),
  );
}

some_table : catalog.tables ≢ []
some_table e = cc

abbrev manager : CatalogManager
manager = record {
  engine = record { pool = open_pool three_pages; wal = open_wal [] 100 };
  catalog = catalog;
}

catalog_small : length (Codec.serialize catalog) ≤ 4096
unfolding Codec.serialize Codec.write_list Codec.write_each Codec.write_table Codec.write_index
    Codec.write_column Codec.write_string Codec.write_uint32 Codec.write_uint8 Codec.write_flag
    Codec.write_default Codec.write_value le_bytes
catalog_small = omega arith

load_example :
    (s' : CatalogManager) × (persist manager ≡ (ok tt, s'))
    × Persisted manager s'
    × (s'' : CatalogManager) × (load false (record s' { catalog = empty_catalog }) ≡ (ok tt, s''))
    × (s''.catalog ≡ catalog)
    × ((j : ℕ) → view (s''.engine).pool j ≡ view (s'.engine).pool j)
unfolding open_pool
load_example =
    load-persist manager (open_pool-IsIdle three_pages three_pages-IsDisk) (omega arith)
      catalog_small catalog-Fits some_table empty_catalog

drop_table_example :
    ((get_table (84 ∷ []) manager ≡ err no_such_table)
      × (drop_table (84 ∷ []) manager ≡ (err no_such_table, manager)))
    ⊎ ((schema : TableSchema) × (get_table (84 ∷ []) manager ≡ ok schema)
        × (get_table (84 ∷ []) (drop_table (84 ∷ []) manager).1 ≡ err no_such_table)
        × (get_indexes_for_table (84 ∷ []) (drop_table (84 ∷ []) manager).1 ≡ []))
drop_table_example = drop_table_cases (84 ∷ []) manager
