-- ===== src/Tests/Btree.antt =====
-- Keys and nodes: one leaf entry, and two separators.
use gs_dbengine.Base.{
  ℕ, ◌≡◌, ◌≢◌, ◌++◌, refl, ok, err, out_of_fuel, List, [], ◌∷◌, map, All, arith, le_bytes,
}
use gs_dbengine.Storage.Page.{zero_page, zero_page-IsPage}
use gs_dbengine.Row.{null, int, string}
use gs_dbengine.Btree.Key.{
  Key, key_lt, encode, encode_elements, encode_value, append_u16, append_u32, decode, FitsKey,
}
use gs_dbengine.Btree.Key.RoundTrip.{decode-encode}
use gs_dbengine.Btree.Node.{
  LeafEntry, InternalEntry, leaf_cell, internal_cell, set_leaf_entries, get_leaf_entries,
  set_internal_entries, get_internal_entries, find_child_for_key, rightmost_child,
}
use gs_dbengine.Btree.Node.Cells.{Stored, total}
use gs_dbengine.Btree.Node.RoundTrip.{
  FitsLeaf, FitsInternal, LeafRoom, InternalRoom, get-set_leaf_entries,
}
use gs_dbengine.Btree.Node.Search.{IsAscending, Routes, find_child-set_internal_entries}
use gs_dbengine.Btree.Node.Progress.{get_entries-end}

abbrev pair : Key
pair = int 7 ∷ string (65 ∷ 66 ∷ []) ∷ null ∷ []

pair-Fits : FitsKey pair
pair-Fits = (omega arith, (omega arith, (omega arith, (tt, tt))))

decode_example : decode (encode pair ++ 9 ∷ []) ≡ ok (pair, 9 ∷ [])
decode_example = decode-encode pair (9 ∷ []) pair-Fits

abbrev rows : List LeafEntry
rows = record { key = pair; value = 1 ∷ 2 ∷ 3 ∷ [] } ∷ record { key = int 8 ∷ []; value = [] } ∷ []

rows-Fits : All FitsLeaf rows
rows-Fits = ((pair-Fits, omega arith), (((omega arith, (omega arith, tt)), omega arith), tt))

rows_room : LeafRoom rows
unfolding leaf_cell total encode encode_elements encode_value append_u16 append_u32 le_bytes
rows_room = omega arith

leaf_example :
    (s : Stored (map leaf_cell rows) 2 zero_page (set_leaf_entries rows zero_page))
    × (get_leaf_entries s.page ≡ ok rows)
leaf_example = get-set_leaf_entries rows zero_page zero_page-IsPage rows-Fits rows_room

abbrev separators : List InternalEntry
separators =
    record { key = int 7 ∷ []; child_page_id = 2 }
    ∷ record { key = int 9 ∷ []; child_page_id = 3 }
    ∷ []

separators-Fits : All FitsInternal separators
separators-Fits = (
  ((omega arith, (omega arith, tt)), omega arith),
  (((omega arith, (omega arith, tt)), omega arith), tt),
)

separators_room : InternalRoom separators
unfolding internal_cell total encode encode_elements encode_value append_u16 append_u32 le_bytes
separators_room = omega arith

separators-IsAscending : IsAscending separators
unfolding key_lt
separators-IsAscending = ((omega arith, tt), (refl, tt), ((omega arith, tt), tt, tt))

find_child_example :
    (s : Stored
      (map internal_cell separators)
      2
      zero_page
      (set_internal_entries separators zero_page))
    × (c : ℕ) × (find_child_for_key (int 8 ∷ []) s.page ≡ ok c)
    × Routes (int 8 ∷ []) separators (rightmost_child zero_page) c
find_child_example =
    find_child-set_internal_entries (int 8 ∷ []) separators zero_page zero_page-IsPage
      separators-Fits separators_room (omega arith, tt) separators-IsAscending

get_entries_example :
    (get_leaf_entries zero_page ≢ err out_of_fuel)
    × (get_internal_entries zero_page ≢ err out_of_fuel)
get_entries_example = get_entries-end zero_page zero_page-IsPage
