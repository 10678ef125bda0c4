-- ===== src/Policies/Merge.antt =====
-- `_deep_merge` of two JSON objects.
pub mod Lookup
use goblin_king.Base.{Option, none, some}
use goblin_king.Contracts.{
  Json, null, bool, num, str, arr, obj, Fields, end, field, get_field, set_field,
}

-- One value of the override, over what the merged object has under its key; a dict over a dict is
-- merged, and any other value replaces.
unfoldable mutual
  pub deep_merge : (base override : Fields) → Fields
  deep_merge base end = base
  deep_merge base (field key value override) =
      deep_merge (set_field key (merge_value (get_field key base) value) base) override

  pub merge_value : Option Json → Json → Json
  merge_value (some (obj base)) (obj override) = obj (deep_merge base override)
  merge_value _ value = value
