-- ===== src/Catalog/Codec/RoundTrip.antt =====
-- The parts of the catalog page read back as they were written.
use gs_dbengine.Base.{
  ℕ, ◌^◌, ◌<◌, ◌≡◌, refl, Bool, true, false, List, [], ◌∷◌, ◌++◌, Bytes, length, Result, ok, All,
  append_assoc, load-le_bytes, read_bytes-append,
}
use native.Mathlib.Nat.{mod-eq_of_lt}
use gs_dbengine.Row.{Value, null, int, float, bool, string}
use gs_dbengine.Btree.Key.{FitsValue}
use gs_dbengine.Catalog.Schema.{
  ColumnType, Column, CheckOp, CheckConstraint, FkOnDelete, ForeignKeyConstraint, TableSchema,
  IndexSchema,
}
use gs_dbengine.Catalog.Codec.{
  write_uint32, read_uint32, write_uint8, read_uint8, write_string, read_string, write_flag,
  read_flag, write_value, read_tagged, read_value, write_each, read_each, write_list, read_list,
  column_type_code, column_type_of, check_op_code, check_op_of, fk_on_delete_code, fk_on_delete_of,
  write_default, read_default, write_column, read_column, write_check, read_check,
  write_foreign_key, read_foreign_key, write_table, read_table, write_index, read_index,
}

-- `r` reads back what `w` wrote, whatever bytes follow.
abbrev pub Reads {ℓ} :
    {A : Type ℓ} → (A → Type 0) → (A → Bytes) → (Bytes → Result (A × Bytes)) → Type ℓ
Reads {A = A} Fits w r = (a : A) (rest : Bytes) → Fits a → r (w a ++ rest) ≡ ok (a, rest)

abbrev pub FitsWord : ℕ → Type 0
FitsWord v = v < 2 ^ 32

abbrev pub FitsText : Bytes → Type 0
FitsText s = length s < 2 ^ 32

uint32-Reads : Reads FitsWord write_uint32 read_uint32
unfolding write_uint32 read_uint32
uint32-Reads v rest h = load-le_bytes 4 v rest h

read_uint8-write_uint8 : (v : ℕ) (rest : Bytes) → read_uint8 (write_uint8 v ++ rest) ≡ ok (v, rest)
unfolding write_uint8 read_uint8
read_uint8-write_uint8 v rest = refl

string-Reads : Reads FitsText write_string read_string
unfolding write_string read_string
string-Reads s rest h =
    rw (mod-eq_of_lt h, append_assoc, uint32-Reads (length s) (s ++ rest) h, read_bytes-append)

read_flag-write_flag : (b : Bool) (rest : Bytes) → read_flag (write_flag b ++ rest) ≡ ok (b, rest)
unfolding write_flag read_flag
read_flag-write_flag true rest = rw read_uint8-write_uint8
read_flag-write_flag false rest = rw read_uint8-write_uint8

value-Reads : Reads FitsValue write_value read_value
unfolding write_value read_value read_tagged
value-Reads null rest h = rw read_uint8-write_uint8
value-Reads (int raw) rest h = rw (append_assoc, read_uint8-write_uint8, uint32-Reads raw rest h)
value-Reads (float raw) rest h = rw (append_assoc, read_uint8-write_uint8, uint32-Reads raw rest h)
value-Reads (bool b) rest h = rw (append_assoc, read_uint8-write_uint8, read_flag-write_flag)
value-Reads (string s) rest h = rw (append_assoc, read_uint8-write_uint8, string-Reads s rest h)

module _ {ℓ} {A : Type ℓ} {Fits : A → Type 0} (w : A → Bytes) (r : Bytes → Result (A × Bytes))
    (reads : Reads Fits w r) where
  each-Reads :
      (xs : List A) (rest : Bytes)
      → All Fits xs
      → read_each r (length xs) (write_each w xs ++ rest) ≡ ok (xs, rest)
  unfolding read_each write_each
  each-Reads [] rest h = refl
  each-Reads (x ∷ xs) rest h =
      rw (append_assoc, reads x (write_each w xs ++ rest) h.0, each-Reads xs rest h.1)

  pub list-Reads : Reads (λ xs. (length xs < 2 ^ 32) × All Fits xs) (write_list w) (read_list r)
  unfolding read_list write_list
  list-Reads xs rest h = rw (
    mod-eq_of_lt h.0,
    append_assoc,
    uint32-Reads (length xs) (write_each w xs ++ rest) h.0,
    each-Reads xs rest h.1,
  )

column_type_lem : (t : ColumnType) → column_type_of (column_type_code t) ≡ ok t
unfolding column_type_of column_type_code
column_type_lem ColumnType.int = refl
column_type_lem ColumnType.float = refl
column_type_lem ColumnType.boolean = refl
column_type_lem ColumnType.varchar = refl

check_op_lem : (t : CheckOp) → check_op_of (check_op_code t) ≡ ok t
unfolding check_op_of check_op_code
check_op_lem CheckOp.eq = refl
check_op_lem CheckOp.neq = refl
check_op_lem CheckOp.lt = refl
check_op_lem CheckOp.gt = refl
check_op_lem CheckOp.lte = refl
check_op_lem CheckOp.gte = refl

fk_on_delete_lem : (t : FkOnDelete) → fk_on_delete_of (fk_on_delete_code t) ≡ ok t
unfolding fk_on_delete_of fk_on_delete_code
fk_on_delete_lem FkOnDelete.restrict = refl
fk_on_delete_lem FkOnDelete.cascade = refl

-- The default that stands in the page: none where the column has none.
abbrev pub FitsDefault : Bool → Value → Type 0
FitsDefault true v = FitsValue v
FitsDefault false v = v ≡ null

default-Reads :
    (b : Bool) (v : Value) (rest : Bytes)
    → FitsDefault b v
    → read_default b (write_default b v ++ rest) ≡ ok (v, rest)
unfolding read_default write_default
default-Reads true v rest h = value-Reads v rest h
default-Reads false v rest h = rw h

abbrev pub FitsColumnText : Column → Type 0
FitsColumnText col =
    FitsText col.name × FitsWord col.max_length × FitsDefault col.has_default col.default_value

column-Reads : Reads FitsColumnText write_column read_column
unfolding write_column read_column
column-Reads col rest h = rw (
  append_assoc,
  string-Reads col.name _ h.0,
  append_assoc,
  read_uint8-write_uint8,
  column_type_lem,
  append_assoc,
  uint32-Reads col.max_length _ h.1,
  append_assoc,
  read_flag-write_flag,
  append_assoc,
  read_flag-write_flag,
  append_assoc,
  read_flag-write_flag,
  append_assoc,
  read_flag-write_flag,
  default-Reads col.has_default col.default_value rest h.2,
)

abbrev pub FitsCheck : CheckConstraint → Type 0
FitsCheck c = FitsWord c.column_index × FitsValue c.operand

check-Reads : Reads FitsCheck write_check read_check
unfolding write_check read_check
check-Reads c rest h = rw (
  append_assoc,
  uint32-Reads c.column_index _ h.0,
  append_assoc,
  read_uint8-write_uint8,
  check_op_lem,
  value-Reads c.operand rest h.1,
)

abbrev pub FitsList {ℓ} : {A : Type ℓ} → (A → Type 0) → List A → Type 0
FitsList Fits xs = (length xs < 2 ^ 32) × All Fits xs

abbrev pub FitsForeignKey : ForeignKeyConstraint → Type 0
FitsForeignKey fk =
    FitsList FitsWord fk.column_indices
    × FitsText fk.ref_table
    × FitsList FitsWord fk.ref_column_indices
    × FitsText fk.child_index_name
    × FitsText fk.ref_index_name

foreign_key-Reads : Reads FitsForeignKey write_foreign_key read_foreign_key
unfolding write_foreign_key read_foreign_key
foreign_key-Reads fk rest h = rw (
  append_assoc,
  list-Reads write_uint32 read_uint32 uint32-Reads fk.column_indices _ h.0,
  append_assoc,
  string-Reads fk.ref_table _ h.1,
  append_assoc,
  list-Reads write_uint32 read_uint32 uint32-Reads fk.ref_column_indices _ h.2,
  append_assoc,
  read_uint8-write_uint8,
  fk_on_delete_lem,
  append_assoc,
  string-Reads fk.child_index_name _ h.3,
  string-Reads fk.ref_index_name rest h.4,
)

abbrev pub FitsTable : TableSchema → Type 0
FitsTable s =
    FitsText s.name
    × FitsWord s.root_page
    × FitsList FitsWord s.primary_key_indices
    × FitsList FitsColumnText s.columns
    × FitsList FitsCheck s.checks
    × FitsList FitsForeignKey s.foreign_keys
    × FitsText s.create_sql

pub table-Reads : Reads FitsTable write_table read_table
unfolding write_table read_table
table-Reads s rest h = rw (
  append_assoc,
  string-Reads s.name _ h.0,
  append_assoc,
  uint32-Reads s.root_page _ h.1,
  append_assoc,
  list-Reads write_uint32 read_uint32 uint32-Reads s.primary_key_indices _ h.2,
  append_assoc,
  list-Reads write_column read_column column-Reads s.columns _ h.3,
  append_assoc,
  list-Reads write_check read_check check-Reads s.checks _ h.4,
  append_assoc,
  list-Reads write_foreign_key read_foreign_key foreign_key-Reads s.foreign_keys _ h.5,
  string-Reads s.create_sql rest h.6,
)

abbrev pub FitsIndex : IndexSchema → Type 0
FitsIndex s =
    FitsText s.name
    × FitsText s.table_name
    × FitsList FitsText s.column_names
    × FitsWord s.root_page

pub index-Reads : Reads FitsIndex write_index read_index
unfolding write_index read_index
index-Reads s rest h = rw (
  append_assoc,
  string-Reads s.name _ h.0,
  append_assoc,
  string-Reads s.table_name _ h.1,
  append_assoc,
  list-Reads write_string read_string string-Reads s.column_names _ h.2,
  append_assoc,
  uint32-Reads s.root_page _ h.3,
  read_flag-write_flag,
)
