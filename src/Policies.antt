-- ===== src/Policies.antt =====
-- Resource policies: defaults, overrides per goblin and ceilings (resource_policies.py).
pub mod Quantity
pub mod Merge
pub mod Ceilings
pub mod Effective
use goblin_king.Base.{
  ℕ, String, ◌==◌, Bool, true, false, ◌&&◌, Option, none, some, List, [], ◌∷◌, ltb, eqb, is_some,
  Result, ok, raise, ◌>>=◌, ◌>>◌, raise_if, if◌then◌else◌,
}
use goblin_king.Base.Int.{pos}
use goblin_king.Contracts.{Json, null, num, obj, Fields, end, get_field, set_field}
use goblin_king.Policies.Quantity.{Floats, codes, parse_bytes, parse_cpu}
use goblin_king.Policies.Merge.{deep_merge}

-- CpuPolicy and MemoryPolicy
pub record AmountPolicy : Type 0 where
  pub request : Option String
  pub limit : Option String

pub record ProcessPolicy : Type 0 where
  pub pids_limit : Option ℕ

pub record NetworkPolicy : Type 0 where
  pub mode : Option String

pub record FilesystemPolicy : Type 0 where
  pub read_only_root : Option Bool
  pub tmpfs : List String
  pub artifact_max_bytes : Option ℕ
  pub artifact_max_files : Option ℕ

pub record LogsPolicy : Type 0 where
  pub max_bytes : Option ℕ

pub record ConcurrencyPolicy : Type 0 where
  pub max_running : Option ℕ
  pub max_project_running : Option ℕ

pub record ResourcePolicy : Type 0 where
  pub timeout_seconds : Option ℕ
  pub max_retries : Option ℕ
  pub cpu : AmountPolicy
  pub memory : AmountPolicy
  pub process : ProcessPolicy
  pub network : NetworkPolicy
  pub filesystem : FilesystemPolicy
  pub logs : LogsPolicy
  pub concurrency : ConcurrencyPolicy

-- ResourcePolicy()
abbrev pub empty_policy : ResourcePolicy
empty_policy = record {
  timeout_seconds = none;
  max_retries = none;
  cpu = record { request = none; limit = none };
  memory = record { request = none; limit = none };
  process = record { pids_limit = none };
  network = record { mode = none };
  filesystem = record {
    read_only_root = none;
    tmpfs = [];
    artifact_max_bytes = none;
    artifact_max_files = none;
  };
  logs = record { max_bytes = none };
  concurrency = record { max_running = none; max_project_running = none };
}

pub record ResourcePolicySet : Type 0 where
  pub version : ℕ
  pub defaults : ResourcePolicy
  pub goblins : List (String × ResourcePolicy)
  pub ceilings : ResourcePolicy

-- What pydantic does with a policy: `none` of a validation is its ValueError.
pub record PolicyCodec : Type 0 where
  -- `model_dump(mode="json", exclude_none=True)`
  pub dump : ResourcePolicy → Fields
  -- `model_dump(mode="json", exclude_none=True, exclude_defaults=True)`
  pub compact : ResourcePolicy → Fields
  pub model_validate : Json → Option ResourcePolicy

-- The ValueErrors of the module, and those of `float` and of pydantic.
pub data PolicyError : Type 0 where
  invalid_policy : PolicyError
  invalid_persisted : PolicyError
  invalid_bytes : (value : String) → PolicyError
  invalid_float : (value : String) → PolicyError
  exceeds_ceiling : (kind field : String) → PolicyError

-- `self.goblins.get(kind, ResourcePolicy())`
abbrev pub goblin_policy : String → List (String × ResourcePolicy) → ResourcePolicy
goblin_policy kind [] = empty_policy
goblin_policy kind ((k, policy) ∷ goblins) =
    if k == kind then policy else goblin_policy kind goblins

-- `value is not None and max_value is not None and value > max_value`
abbrev pub exceeds {ℓ} : {A : Type ℓ} → (A → A → Bool) → (value max_value : Option A) → Bool
exceeds gt none max_value = false
exceeds gt (some value) none = false
exceeds gt (some value) (some max_value) = gt value max_value

abbrev pub greater : ℕ → ℕ → Bool
greater value max_value = ltb max_value value

-- `_parse_cpu` and `_parse_bytes` of a limit that may be missing.
abbrev pub parsed_cpu : {F : Type 0} → Floats F → Option String → Result PolicyError (Option F)
parsed_cpu floats none = ok none
parsed_cpu floats (some value) = elim (parse_cpu floats (codes value)) [
  | none ↦ raise (invalid_float value)
  | some cores ↦ ok (some cores)
]

abbrev pub parsed_bytes : Option String → Result PolicyError (Option ℕ)
parsed_bytes none = ok none
parsed_bytes (some value) = elim (parse_bytes (codes value)) [
  | none ↦ raise (invalid_bytes value)
  | some bytes ↦ ok (some bytes)
]

-- One of the checks, in their order.
abbrev pub check : Bool → (kind field : String) → Result PolicyError (Unit {0})
check exceeded kind field = raise_if exceeded (exceeds_ceiling kind field)

-- The checks' values are computed first: `_parse_cpu` and `_parse_bytes` may raise.
unfoldable pub validate_within_ceilings :
    {F : Type 0}
    → Floats F
    → (ceilings : ResourcePolicy) (kind : String) → ResourcePolicy
    → Result PolicyError (Unit {0})
validate_within_ceilings floats ceilings kind policy = do
  cpu ← parsed_cpu floats policy.cpu.limit
  cpu_ceiling ← parsed_cpu floats ceilings.cpu.limit
  memory ← parsed_bytes policy.memory.limit
  memory_ceiling ← parsed_bytes ceilings.memory.limit
  check (exceeds greater policy.timeout_seconds ceilings.timeout_seconds) kind "timeout_seconds"
  check (exceeds greater policy.max_retries ceilings.max_retries) kind "max_retries"
  check (exceeds floats.gt cpu cpu_ceiling) kind "cpu.limit"
  check (exceeds greater memory memory_ceiling) kind "memory.limit"
  check (exceeds greater policy.process.pids_limit ceilings.process.pids_limit) kind
      "process.pids_limit"
  check
      (exceeds greater policy.filesystem.artifact_max_bytes ceilings.filesystem.artifact_max_bytes)
      kind "filesystem.artifact_max_bytes"
  check
      (exceeds greater policy.filesystem.artifact_max_files ceilings.filesystem.artifact_max_files)
      kind "filesystem.artifact_max_files"
  check (exceeds greater policy.logs.max_bytes ceilings.logs.max_bytes) kind "logs.max_bytes"
  check (exceeds greater policy.concurrency.max_running ceilings.concurrency.max_running) kind
      "concurrency.max_running"
  check
      (exceeds greater policy.concurrency.max_project_running
        ceilings.concurrency.max_project_running)
      kind "concurrency.max_project_running"

-- `if value is not None: merged[key] = value`
abbrev pub override_field : String → Option ℕ → Fields → Fields
override_field key none merged = merged
override_field key (some value) merged = set_field key (num (pos value)) merged

-- The JSON that the effective policy is validated from.
unfoldable pub merged_policy :
    PolicyCodec
    → ResourcePolicySet
    → (kind : String) (timeout_seconds max_retries : Option ℕ) → Fields
merged_policy codec policies kind timeout_seconds max_retries =
    override_field "max_retries" max_retries (
      override_field "timeout_seconds" timeout_seconds (
        deep_merge (codec.dump policies.defaults)
          (codec.compact (goblin_policy kind policies.goblins))))

unfoldable pub effective_for :
    {F : Type 0}
    → Floats F
    → PolicyCodec
    → ResourcePolicySet
    → (kind : String) → (timeout_seconds max_retries : Option ℕ) → Result PolicyError ResourcePolicy
unfolding merged_policy
effective_for floats codec policies kind timeout_seconds max_retries =
    elim (codec.model_validate
      (obj (merged_policy codec policies kind timeout_seconds max_retries))) [
        | none ↦ raise invalid_policy
        | some policy ↦ do validate_within_ceilings floats policies.ceilings kind policy; ok policy
      ]

abbrev pub carried : PolicyCodec → Option Json → Result PolicyError (Option ResourcePolicy)
carried codec none = ok none
carried codec (some null) = ok none
carried codec (some payload) = elim (codec.model_validate payload) [
  | none ↦ raise invalid_persisted
  | some policy ↦ ok (some policy)
]

-- The policy that a job carries; JSON's null counts as missing.
unfoldable pub policy_from_job_metadata :
    PolicyCodec → (metadata : Fields) → Result PolicyError (Option ResourcePolicy)
policy_from_job_metadata codec metadata = carried codec (get_field "resource_policy" metadata)
