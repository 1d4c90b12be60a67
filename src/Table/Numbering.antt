-- ===== src/Table/Numbering.antt =====
-- The keys that a table numbers: which row `insert` stores, and what the counter is then.
use gs_dbengine.Base.{
  ℕ, zero, suc, ◌+◌, ◌%◌, ◌^◌, ◌<◌, ◌≡◌, ◌⊎◌, refl, ap, sym, ◌∙◌, inl, inr, true, false, List, [],
  ◌∷◌, ◌++◌, length, length-append, some, ok, get_elem?, if◌then◌else◌, leb, ltb, arith, lt→ltb,
  Bool-cases,
}
use gs_dbengine.Base
use gs_dbengine.Row.{Value, null, int, Row, get, is_null}
use gs_dbengine.Catalog.Schema.{TableSchema}
use gs_dbengine.Btree.Key.{Key}
use gs_dbengine.Btree.Tree.{BTree}
use gs_dbengine.Table.{
  Table, is_single_int_auto_increment, first_int, extract_primary_key, key_values,
}
use gs_dbengine.Table.Rows.{set, assign_key, advance_past}

-- A table without indexes.
abbrev pub plain : TableSchema → ℕ → BTree → Table
plain schema next b = record {
  schema = schema;
  btree = b;
  next_auto_increment = next;
  indexes = [];
}

-- A table that does not count keeps the row and the counter. One that counts has one key column: a
-- number there stays, and the counter moves behind it where it has not passed it; a NULL becomes the
-- next number, and the counter moves by one.
abbrev pub IsNumbered : TableSchema → ℕ → Row → Row → ℕ → Type 0
IsNumbered schema next row stored next' =
    ((is_single_int_auto_increment schema ≡ false) × (stored ≡ row) × (next' ≡ next))
    ⊎ ((before : List Value) × (v : Value) × (after : List Value) × (is_single_int_auto_increment
            schema
          ≡ true)
        × (schema.primary_key_indices ≡ length before ∷ [])
        × (row.values ≡ before ++ v ∷ after)
        × (((n : ℕ) × (v ≡ int n)
              × (stored ≡ row)
              × (next' ≡ (if leb next n then (n + 1) % 2 ^ 32 else next)))
            ⊎ ((v ≡ null)
                × (stored.values ≡ before ++ int next ∷ after)
                × (next' ≡ (next + 1) % 2 ^ 32))))

get_elem-middle :
    (before : List Value) (v : Value) (after : List Value)
    → get_elem? (before ++ v ∷ after) (length before) ≡ some v
get_elem-middle [] v after = refl
get_elem-middle (x ∷ before) v after = get_elem-middle before v after

set-middle :
    (before : List Value) (v w : Value) (after : List Value)
    → Base.set (before ++ v ∷ after) (length before) w ≡ before ++ w ∷ after
set-middle [] v w after = refl
set-middle (x ∷ before) v w after = ap (λ xs. x ∷ xs) (set-middle before v w after)

get-middle :
    (row : Row) (before : List Value) (v : Value) (after : List Value)
    → row.values ≡ before ++ v ∷ after
    → get row (length before) ≡ ok v
unfolding get
get-middle row before v after e = rw (e, get_elem-middle before v after) refl

set_null :
    (row : Row) (before : List Value) (v w : Value) (after : List Value)
    → row.values ≡ before ++ v ∷ after
    → set (length before) w row ≡ ok (record { values = before ++ w ∷ after })
unfolding set
set_null row before v w after e =
    let inside : length before < length (before ++ v ∷ after) =
      omega (arith, length-append before (v ∷ after)) in
    rw (e, lt→ltb _ _ inside, set-middle before v w after) refl

-- The row that `insert` stores.
pub assign_key-IsNumbered :
    (schema : TableSchema) (next next' : ℕ) (row stored : Row)
    → IsNumbered schema next row stored next'
    → assign_key row schema next ≡ ok stored
unfolding assign_key is_null
assign_key-IsNumbered schema next next' row stored (inl (off, same, _)) = rw (off, same) refl
assign_key-IsNumbered schema next next' row stored
      (inr (before, v, after, on, key, values, inl (n, e, same, _))) =
    rw (on, key, get-middle row before v after values, e, same) refl
assign_key-IsNumbered schema next next' row stored
      (inr (before, v, after, on, key, values, inr (e, same, _))) =
    rw
      (
        on,
        key,
        get-middle row before v after values,
        e,
        set_null row before v (int next) after values,
        same,
      )
      refl

-- A key of one column that holds a number.
key-number :
    (row : Row) (schema : TableSchema) (key : Key) (before : List Value) (n : ℕ)
    (after : List Value)
    → schema.primary_key_indices ≡ length before ∷ []
    → row.values ≡ before ++ int n ∷ after
    → extract_primary_key row schema ≡ ok key
    → first_int key ≡ ok n
unfolding extract_primary_key key_values is_null first_int
key-number row schema key before n after index values extracted =
    let found : ok (int n ∷ []) ≡ ok key =
      rw (index, get-middle row before (int n) after values) at extracted in
    let same : int n ∷ [] ≡ key = cc in rw⁻¹ same refl

-- The counter then.
pub advance_past-IsNumbered :
    (schema : TableSchema) (next next' : ℕ) (row stored : Row) (key : Key) (b : BTree)
    → IsNumbered schema next row stored next'
    → extract_primary_key stored schema ≡ ok key
    → advance_past key (plain schema next b) ≡ (ok tt, plain schema next' b)
unfolding advance_past
advance_past-IsNumbered schema next next' row stored key b (inl (off, _, e)) extracted =
    rw (off, e) refl
advance_past-IsNumbered schema next next' row stored key b
      (inr (before, v, after, on, index, values, inl (n, e, same, counter))) extracted =
    let first : first_int key ≡ ok n =
      key-number stored schema key before n after index (rw (same, values, e) refl) extracted in
    elim (Bool-cases (leb next n)) [
      | inl z ↦ rw (on, first, counter, z) refl
      | inr z ↦ rw (on, first, counter, z) refl
    ]
advance_past-IsNumbered schema next next' row stored key b
      (inr (before, v, after, on, index, values, inr (e, same, counter))) extracted =
    let first : first_int key ≡ ok next =
      key-number stored schema key before next after index same extracted in
    let reached : leb next next ≡ true = ground arith in rw (on, first, counter, reached) refl
