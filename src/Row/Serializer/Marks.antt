-- ===== src/Row/Serializer/Marks.antt =====
-- The first loop of `serialize`: the bitmap says which values are NULL.
use gs_dbengine.Base.{
  ℕ, suc, ◌+◌, ◌*◌, ◌/◌, ◌^◌, ◌<◌, ◌≤◌, ◌≡◌, refl, ap, ◌∙◌, sym, true, false, List, [], ◌∷◌, Bytes,
  length, arith, ok, ==_refl,
}
use gs_dbengine.Row.{Value, null, int, float, bool, string, is_null}
use gs_dbengine.Catalog.Schema.{ColumnType, Column}
use gs_dbengine.Row.Serializer.{get_null_bit, set_null_bit, null_bitmap}
use gs_dbengine.Row.Serializer.Bits.{length-set, get-set_null_bit}

-- A value that a column can hold, of the width of its C++ type; a text fits its 16-bit length.
abbrev pub FitsColumn : Column → Value → Type 0
FitsColumn col null = col.is_nullable ≡ true
FitsColumn col (int raw) = (col.type ≡ ColumnType.int) × (raw < 2 ^ 32)
FitsColumn col (float raw) = (col.type ≡ ColumnType.float) × (raw < 2 ^ 32)
FitsColumn col (bool b) = col.type ≡ ColumnType.boolean
FitsColumn col (string s) =
    (col.type ≡ ColumnType.varchar) × (length s ≤ col.max_length) × (length s < 2 ^ 16)

abbrev pub FitsColumns : List Column → List Value → Type 0
FitsColumns [] [] = Unit {0}
FitsColumns (col ∷ columns) (v ∷ values) = FitsColumn col v × FitsColumns columns values
FitsColumns [] (v ∷ values) = ⊥
FitsColumns (col ∷ columns) [] = ⊥

pub length-FitsColumns :
    (columns : List Column) (values : List Value)
    → FitsColumns columns values
    → length values ≡ length columns
length-FitsColumns [] [] h = refl
length-FitsColumns [] (v ∷ values) h = elim h [ ]
length-FitsColumns (col ∷ columns) [] h = elim h [ ]
length-FitsColumns (col ∷ columns) (v ∷ values) h = ap suc (length-FitsColumns columns values h.1)

-- The bits from `i` on say which values are NULL.
abbrev pub IsMarked : Bytes → ℕ → List Value → Type 0
IsMarked bitmap i [] = Unit {0}
IsMarked bitmap i (v ∷ values) =
    (get_null_bit bitmap i ≡ is_null v) × IsMarked bitmap (suc i) values

-- What the first loop makes of a bitmap whose bits from `i` on are clear.
pub record Marked (i : ℕ) (columns : List Column) (values : List Value) (bitmap : Bytes)
    : Type 0 where
  pub result : Bytes
  pub runs : null_bitmap i columns values bitmap ≡ ok result
  pub size : length result ≡ length bitmap
  pub before : (j : ℕ) → j < i → get_null_bit result j ≡ get_null_bit bitmap j
  pub marked : IsMarked result i values

length-set_null_bit : (bitmap : Bytes) (i : ℕ) → length (set_null_bit bitmap i) ≡ length bitmap
unfolding set_null_bit
length-set_null_bit bitmap i = length-set bitmap (i / 8) _

Marked-value :
    (i : ℕ) (col : Column) (columns : List Column) (v : Value) (values : List Value)
    (bitmap : Bytes)
    → is_null v ≡ false
    → get_null_bit bitmap i ≡ false
    → Marked (suc i) columns values bitmap
    → Marked i (col ∷ columns) (v ∷ values) bitmap
unfolding null_bitmap
Marked-value i col columns v values bitmap e clear m = record {
  result = m.result;
  runs = rw e m.runs;
  size = m.size;
  before = λ j l. m.before j (omega arith);
  marked = (m.before i (omega arith) ∙ clear ∙ sym e, m.marked);
}

pub null_bitmap-Marked :
    (i : ℕ) (columns : List Column) (values : List Value) (bitmap : Bytes)
    → FitsColumns columns values
    → i + length values ≤ 8 * length bitmap
    → ((j : ℕ) → i ≤ j → get_null_bit bitmap j ≡ false)
    → Marked i columns values bitmap
unfolding null_bitmap is_null
null_bitmap-Marked i [] [] bitmap f h clear = record {
  result = bitmap;
  runs = refl;
  size = refl;
  before = λ j l. refl;
  marked = tt;
}
null_bitmap-Marked i [] (v ∷ values) bitmap f h clear = elim f [ ]
null_bitmap-Marked i (col ∷ columns) [] bitmap f h clear = elim f [ ]
null_bitmap-Marked i (col ∷ columns) (null ∷ values) bitmap f h clear =
    let next : Bytes = set_null_bit bitmap i in
    let long : length next ≡ length bitmap = length-set_null_bit bitmap i in
    let inside : i < 8 * length bitmap = omega arith in
    let m : Marked (suc i) columns values next =
      null_bitmap-Marked (suc i) columns values next f.1 (omega (arith, long))
        (λ j l. get-set_null_bit bitmap i j inside ∙ ground (arith, clear j (omega arith))) in
    record {
      result = m.result;
      runs = rw f.0 m.runs;
      size = m.size ∙ long;
      before = λ j l. m.before j (omega arith) ∙ get-set_null_bit bitmap i j inside ∙ ground arith;
      marked = (
        m.before i (omega arith) ∙ get-set_null_bit bitmap i i inside ∙ rw (==_refl i),
        m.marked,
      );
    }
null_bitmap-Marked i (col ∷ columns) (int raw ∷ values) bitmap f h clear =
    Marked-value i col columns (int raw) values bitmap refl (clear i (omega arith)) (
      null_bitmap-Marked (suc i) columns values bitmap f.1 (omega arith)
        (λ j l. clear j (omega arith)))
null_bitmap-Marked i (col ∷ columns) (float raw ∷ values) bitmap f h clear =
    Marked-value i col columns (float raw) values bitmap refl (clear i (omega arith)) (
      null_bitmap-Marked (suc i) columns values bitmap f.1 (omega arith)
        (λ j l. clear j (omega arith)))
null_bitmap-Marked i (col ∷ columns) (bool b ∷ values) bitmap f h clear =
    Marked-value i col columns (bool b) values bitmap refl (clear i (omega arith)) (
      null_bitmap-Marked (suc i) columns values bitmap f.1 (omega arith)
        (λ j l. clear j (omega arith)))
null_bitmap-Marked i (col ∷ columns) (string s ∷ values) bitmap f h clear =
    Marked-value i col columns (string s) values bitmap refl (clear i (omega arith)) (
      null_bitmap-Marked (suc i) columns values bitmap f.1 (omega arith)
        (λ j l. clear j (omega arith)))
