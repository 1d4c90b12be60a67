-- ===== src/Table/Batch.antt =====
-- src/table/table.cpp: `update_matched` and `update_where`, which plan the changes of all rows before
-- they write the first.
use gs_dbengine.Base.{
  ℕ, ◌%◌, ◌^◌, Bool, true, false, not, List, [], ◌∷◌, ◌++◌, length, Result, ok, err, if◌then◌else◌,
  replicate, batch_collision,
}
use gs_dbengine.Base.Action.{Action, done, throw, attempt, when, ◌>>=◌, ◌>>◌}
use gs_dbengine.Row.{Row}
use gs_dbengine.Row.Serializer.{serialize}
use gs_dbengine.Btree.Key.{Key, key_eq}
use gs_dbengine.Index.{is_indexable}
use gs_dbengine.Table.{
  Table, IndexBinding, ScanResult, Predicate, extract_indexed_value, extract_primary_key,
}
use gs_dbengine.Table.Rows.{check_all_unique_constraints, advance_past}
use gs_dbengine.Table.Update.{Changes, apply_values, check_new_key, replace_row, scan}

pub record PlannedUpdate : Type 0 where
  pub old_key : Key
  pub new_key : Key
  pub old_row : Row
  pub new_row : Row

-- Whether a list of keys holds the key.
unfoldable pub is_seen : Key → List Key → Bool
is_seen key [] = false
is_seen key (seen ∷ keys) = let rest = is_seen key keys in if key_eq seen key then true else rest

-- What the row claims of one index: its value joins those of the rows before it, or is one of them.
unfoldable pub claim_value : Key → List Key → Result (List Key)
unfolding is_seen
claim_value indexed_value claimed =
    if not (is_indexable indexed_value)
    then ok claimed
    else if is_seen indexed_value claimed
    then err batch_collision
    else ok (claimed ++ indexed_value ∷ [])

unfoldable pub claim : IndexBinding → Row → List Key → Result (List Key)
claim binding new_row claimed =
    if not ((binding.bound).schema).is_unique
    then ok claimed
    else valued (extract_indexed_value new_row binding)
  where
    valued : Result Key → Result (List Key)
    valued (err e) = err e
    valued (ok indexed_value) = claim_value indexed_value claimed

-- The loop over the indexes, with `batch_claimed` beside them.
unfoldable pub claim_all : List IndexBinding → Row → List (List Key) → Result (List (List Key))
claim_all [] new_row batch = ok batch
claim_all (binding ∷ bindings) new_row [] = ok []
claim_all (binding ∷ bindings) new_row (claimed ∷ batch) =
    joined (claim binding new_row claimed) (claim_all bindings new_row batch)
  where
    joined : Result (List Key) → Result (List (List Key)) → Result (List (List Key))
    joined (err e) rest = err e
    joined (ok now) (err e) = err e
    joined (ok now) (ok rest) = ok (now ∷ rest)

-- One round of phase 1.
unfoldable pub plan_row :
    Changes → ScanResult → List (List Key) → Action Table (PlannedUpdate × List (List Key))
plan_row new_values r batch t = steps t
  where
    steps : Action Table (PlannedUpdate × List (List Key))
    steps = do
      new_row ← attempt (apply_values false new_values t.schema r.row)
      new_key ← attempt (extract_primary_key new_row t.schema)
      check_all_unique_constraints new_row r.primary_key
      batch' ← attempt (claim_all t.indexes new_row batch)
      done (
        record { old_key = r.primary_key; new_key = new_key; old_row = r.row; new_row = new_row },
        batch',
      )

unfoldable pub plan_rows :
    Changes → List ScanResult → List (List Key) → Action Table (List PlannedUpdate)
plan_rows new_values [] batch = done []
plan_rows new_values (r ∷ rows) batch = do
  (u, batch') ← plan_row new_values r batch
  to_update ← plan_rows new_values rows batch'
  done (u ∷ to_update)

-- Phase 1b.
unfoldable pub check_keys : List PlannedUpdate → List Key → Action Table Unit
check_keys [] final_keys = done tt
check_keys (u ∷ to_update) final_keys = do
  check_new_key (not (key_eq u.new_key u.old_key)) u.new_key
  when (is_seen u.new_key final_keys) (throw batch_collision)
  check_keys to_update (final_keys ++ u.new_key ∷ [])

-- Phase 2.
unfoldable pub write_one : PlannedUpdate → Action Table Unit
write_one u t = write t
  where
    write : Action Table Unit
    write = do
      new_bytes ← attempt (serialize u.new_row t.schema)
      replace_row u.old_key u.old_row u.new_key u.new_row new_bytes

unfoldable pub write_planned : List PlannedUpdate → Action Table Unit
write_planned [] = done tt
write_planned (u ∷ to_update) = do write_one u; write_planned to_update

unfoldable pub advance_planned : List PlannedUpdate → Action Table Unit
advance_planned [] = done tt
advance_planned (u ∷ to_update) = do
  when (not (key_eq u.new_key u.old_key)) (advance_past u.new_key)
  advance_planned to_update

unfoldable pub update_matched : List ScanResult → Changes → Action Table ℕ
update_matched matched_rows new_values t = steps t
  where
    steps : Action Table ℕ
    steps = do
      to_update ← plan_rows new_values matched_rows (replicate (length t.indexes) [])
      check_keys to_update []
      write_planned to_update
      advance_planned to_update
      done (length to_update % 2 ^ 32)

unfoldable pub update_where : Predicate → Changes → Action Table ℕ
update_where predicate new_values = do
  matched_rows ← scan predicate
  update_matched matched_rows new_values
