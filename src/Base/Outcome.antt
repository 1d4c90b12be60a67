-- ===== src/Base/Outcome.antt =====
-- Exceptions as values, and methods that change an object and may throw.
-- One constructor for each exception that the modelled sources throw. `buffer_overrun` and
-- `page_overflow` stand for accesses outside a buffer, which C++ leaves undefined.
pub data Error : Type 0 where
  buffer_overrun page_overflow : Error
  out_of_fuel : Error
  corrupt_type_tag : Error
  column_out_of_range column_count_mismatch null_in_non_nullable type_mismatch : Error
  varchar_too_long buffer_too_short : Error
  duplicate_key key_not_found sibling_not_found : Error
  value_arity_mismatch key_arity_mismatch unique_violation too_many_columns : Error
  no_bound no_range_column : Error
  file_size_corrupt read_failed page_out_of_range all_pages_pinned : Error
  file_not_empty file_empty invalid_magic page_size_mismatch unsupported_version : Error
  unknown_value_tag unknown_enumerator : Error
  catalog_too_large unexpected_catalog_page : Error
  table_already_exists no_such_table index_already_exists no_such_index : Error
  unterminated_string unknown_character : Error
  unexpected_token invalid_number number_out_of_range : Error
  null_primary_key wrong_alternative foreign_index unknown_index_column : Error
  primary_key_collision batch_collision : Error

-- The outcome of code that may throw.
pub data Result {ℓ} (A : Type ℓ) : Type ℓ where
  err : Error → Result A
  ok : A → Result A

-- What follows a call runs when the call did not throw; an `abbrev`, so that it computes on `ok`.
infixl 5 ◌>>=◌
abbrev pub ◌>>=◌ {ℓ κ} : {A : Type ℓ} {B : Type κ} → Result A → (A → Result B) → Result B
err thrown >>= next = err thrown
ok result >>= next = next result
