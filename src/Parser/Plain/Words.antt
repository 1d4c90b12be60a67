-- ===== src/Parser/Plain/Words.antt =====
-- The methods on literals, columns and lists are blind.
use gs_dbengine.Base.{ℕ, Bytes, Result, List, Bool, true, false, if◌then◌else◌, unexpected_token}
use gs_dbengine.Base.Action.{throw}
use gs_dbengine.Row.{Value}
use gs_dbengine.Parser.Ast.{AggregateType}
use gs_dbengine.Parser.Words.{
  read_u32, qualified, parse_column_ref, next_name, parse_column_list, parse_other_value,
  parse_signed, parse_value, next_value, parse_value_list, aggregate_of, count_of,
  parse_aggregate_or_column,
}
use gs_dbengine.Parser.Plain.{Blind}
use gs_dbengine.Parser.Plain.Steps.{blind, throw-Blind}

pub parse_column_ref-Blind : Blind parse_column_ref
unfolding parse_column_ref qualified
parse_column_ref-Blind = search blind depth 12

pub parse_column_list-Blind : Blind parse_column_list
unfolding parse_column_list next_name
parse_column_list-Blind = search blind depth 12

aggregate_of-Blind : (aggregate : AggregateType) → Blind (aggregate_of aggregate)
unfolding aggregate_of
aggregate_of-Blind aggregate = search (blind, parse_column_ref-Blind)

count_of-Blind : Blind count_of
unfolding count_of
count_of-Blind = search (blind, parse_column_ref-Blind)

pub parse_aggregate_or_column-Blind : Blind parse_aggregate_or_column
unfolding parse_aggregate_or_column
parse_aggregate_or_column-Blind =
    search (blind, parse_column_ref-Blind, count_of-Blind, aggregate_of-Blind) depth 12

pub read_u32-Blind : (text : Bytes) → Blind (read_u32 text)
unfolding read_u32
read_u32-Blind text = search blind

parse_other_value-Blind : Blind parse_other_value
unfolding parse_other_value
parse_other_value-Blind = search blind depth 12

module _ (stof : Bytes → Result ℕ) where
  refused :
      (negative : Bool) → Blind (if negative then throw unexpected_token else parse_other_value)
  refused true = throw-Blind unexpected_token
  refused false = parse_other_value-Blind

  parse_signed-Blind : (negative : Bool) → Blind (parse_signed stof negative)
  unfolding parse_signed
  parse_signed-Blind negative = search (blind, refused) depth 12

  pub parse_value-Blind : Blind (parse_value stof)
  unfolding parse_value
  parse_value-Blind = search (blind, parse_signed-Blind)

  next_value-Blind : (both : List Value × List Bool) → Blind (next_value stof both)
  unfolding next_value
  next_value-Blind both = search (blind, parse_value-Blind)

  pub parse_value_list-Blind : Blind (parse_value_list stof)
  unfolding parse_value_list
  parse_value_list-Blind = search (blind, next_value-Blind)
