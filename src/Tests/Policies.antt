-- ===== src/Tests/Policies.antt =====
-- Resource policies on a concrete set: a default timeout, a ceiling, and a codec that reads the two
-- numbers of a request.
use goblin_king.Base.{
  ℕ, ◌≡◌, refl, Option, none, some, [], ◌∷◌, ltb, ok, arith, String, ◌↔◌, Result,
}
use goblin_king.Base.Int.{pos}
use goblin_king.Contracts.{Json, num, str, obj, Fields, end, field, get_field, set_field}
use goblin_king.Policies.{
  ResourcePolicy, ResourcePolicySet, PolicyCodec, empty_policy, effective_for,
  validate_within_ceilings, merged_policy, exceeds_ceiling,
}
use goblin_king.Policies.Quantity.{Floats, parse_bytes, read_number, read_unit, scaled, codes}
use goblin_king.Policies.Quantity.RoundTrip.{parse_bytes-quantity, quantity, mebi}
use goblin_king.Policies.Merge.{deep_merge, merge_value}
use goblin_king.Policies.Merge.Lookup.{deep_merge-path, get_path, layered, IsDict}
use goblin_king.Policies.Ceilings.{IsWithin, AtMost}
use goblin_king.Policies.Effective.{effective_for-IsWithin, effective_for-requested, ReadsNumbers}

abbrev pub sample_floats : Floats ℕ
sample_floats = record {
  float = λ text. parse_bytes text;
  thousandth = λ value. value;
  gt = λ value max_value. ltb max_value value;
}

abbrev number_in : Option Json → Option ℕ
number_in (some (num (pos n))) = some n
number_in _ = none

abbrev validated : Json → Option ResourcePolicy
validated (obj fields) = some (record empty_policy {
  timeout_seconds = number_in (get_field "timeout_seconds" fields);
  max_retries = number_in (get_field "max_retries" fields);
  concurrency = record {
    max_running = none;
    max_project_running = number_in (get_field "max_project_running" fields);
  };
})
validated _ = none

abbrev optional_field : String → Option ℕ → Fields → Fields
optional_field key none fields = fields
optional_field key (some n) fields = field key (num (pos n)) fields

abbrev pub sample_codec : PolicyCodec
sample_codec = record {
  dump = λ policy.
      optional_field "timeout_seconds" policy.timeout_seconds
        (optional_field "max_retries" policy.max_retries end);
  compact = λ policy.
      optional_field "timeout_seconds" policy.timeout_seconds
        (optional_field "max_retries" policy.max_retries end);
  model_validate = validated;
}

abbrev pub sample_policies : ResourcePolicySet
sample_policies = record {
  version = 1;
  defaults = record empty_policy { timeout_seconds = some 60 };
  goblins = ("example.hello", record empty_policy { max_retries = some 2 }) ∷ [];
  ceilings = record empty_policy { timeout_seconds = some 90; max_retries = some 3 };
}

abbrev expected : ResourcePolicy
expected = record empty_policy { timeout_seconds = some 60; max_retries = some 1 }

requested :
    effective_for sample_floats sample_codec sample_policies "example.hello" none (some 1)
    ≡ ok expected
unfolding effective_for merged_policy validate_within_ceilings deep_merge merge_value get_field
    set_field
requested = refl

too_long :
    effective_for sample_floats sample_codec sample_policies "example.hello" (some 100) none
    ≡ Result.raise (exceeds_ceiling "example.hello" "timeout_seconds")
unfolding effective_for merged_policy validate_within_ceilings deep_merge merge_value get_field
    set_field
too_long = refl

effective_for-IsWithin_example :
    (effective_for sample_floats sample_codec sample_policies "example.hello" none (some 1)
      ≡ ok expected)
    ↔ (validated (obj (merged_policy sample_codec sample_policies "example.hello" none (some 1)))
        ≡ some expected)
      × IsWithin sample_floats sample_policies.ceilings expected
effective_for-IsWithin_example =
    effective_for-IsWithin sample_floats sample_codec sample_policies "example.hello" none (some 1)
      expected

sample_reads : ReadsNumbers sample_codec
sample_reads = record {
  timeout_seconds = λ fields n policy at valid. ground arith;
  max_retries = λ fields n policy at valid. ground arith;
}

abbrev asked : ResourcePolicy
asked = record empty_policy { timeout_seconds = some 80; max_retries = some 3 }

asked_effective :
    effective_for sample_floats sample_codec sample_policies "example.hello" (some 80) (some 3)
    ≡ ok asked
unfolding effective_for merged_policy validate_within_ceilings deep_merge merge_value get_field
    set_field
asked_effective = refl

effective_for-requested_example :
    (asked.timeout_seconds ≡ some 80)
    × (asked.max_retries ≡ some 3)
    × AtMost (some 80) (some 90)
    × AtMost (some 3) (some 3)
effective_for-requested_example =
    effective_for-requested sample_floats sample_codec sample_policies "example.hello" 80 3 asked
      sample_reads asked_effective

abbrev base_fields : Fields
base_fields = field "memory" (obj (field "request" (str "1Gi") (field "limit" (str "2Gi") end))) end

abbrev override_fields : Fields
override_fields = field "memory" (obj (field "limit" (str "3Gi") end)) end

override-IsDict : IsDict override_fields
unfolding IsDict get_field
override-IsDict = (refl, (refl, tt, tt), tt)

deep_merge-path_example :
    get_path ("memory" ∷ "request" ∷ []) (obj (deep_merge base_fields override_fields))
    ≡ layered ("memory" ∷ "request" ∷ []) (some (obj base_fields)) (obj override_fields)
deep_merge-path_example =
    deep_merge-path ("memory" ∷ "request" ∷ []) base_fields override_fields override-IsDict
      (unfold get_path get_field in refl)

parse_run : parse_bytes (codes "512Mi") ≡ some 536870912
unfolding parse_bytes scaled read_number read_unit
parse_run = refl

parse_bytes-quantity_example : parse_bytes (quantity 512 mebi) ≡ some 536870912
parse_bytes-quantity_example = parse_bytes-quantity 512 mebi
