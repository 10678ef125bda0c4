-- ===== src/Scheduler/Environment.antt =====
-- What a scheduler is given: its settings, and the code that it calls outside of this model.
use goblin_king.Base.{ℕ, String, Bool, true, false, Option, Result}
use goblin_king.Contracts.{Json, Fields, Message, GoblinResult, JobRecord}
use goblin_king.Policies.{ResourcePolicy, ResourcePolicySet, PolicyCodec, PolicyError}
use goblin_king.Policies.Quantity.{Floats}
use goblin_king.Registry.{GoblinDefinition, GoblinRegistry, RegistryError}
use goblin_king.Scheduler.Action.{Action, SchedulerError}

pub data RuntimeMode : Type 0 where
  docker kubernetes in_process : RuntimeMode

-- `isinstance(runtime, DockerRuntime | KubernetesRuntime)`
abbrev pub is_container : RuntimeMode → Bool
is_container in_process = false
is_container _ = true

abbrev pub mode_text : RuntimeMode → String
mode_text docker = "docker"
mode_text kubernetes = "kubernetes"
mode_text in_process = "in-process"

-- The fields of `Scheduler` that its passes read.
pub record Scheduler : Type 0 where
  pub registry : GoblinRegistry
  pub worker_id : String
  -- microseconds
  pub lease_time : ℕ
  pub claim_limit : ℕ
  pub runtime_mode : RuntimeMode
  pub resource_policies : Option ResourcePolicySet

-- GoblinContext; its artifact root is the directory of this job's artifacts.
pub record GoblinContext : Type 0 where
  pub run_id : String
  pub artifact_job_id : String
  pub metadata : Fields

-- What `_execute_claimed_job` resolves a job to: a registered goblin, or a notebook's.
pub record Binding (N : Type 0) : Type 0 where
  pub definition : GoblinDefinition
  pub notebook : Option N
  pub input : Fields

-- N is the type of stored notebooks, and F that of Python's floats.
pub record Outside (N F : Type 0) : Type 0 where
  pub uuid4 : ℕ → String
  pub utc_now : ℕ → ℕ
  -- in microseconds
  pub monotonic : ℕ → ℕ
  pub isoformat : ℕ → Json
  pub number : ℕ → Json
  -- the text of a formatted message, and of an exception
  pub message_text : Message → String
  pub error_text : SchedulerError → String
  pub policy_error_text : PolicyError → String
  pub floats : Floats F
  pub codec : PolicyCodec
  pub dump_definition : GoblinDefinition → Json
  -- the import of an entry point
  pub load : GoblinDefinition → Result RegistryError String
  -- `croniter` in a time zone; `none` is an exception.
  pub next_time : (cron timezone : String) (now : ℕ) → Option ℕ
  pub get_notebook_goblin : (kind : String) → Action (Option N)
  pub notebook_definition : N → GoblinDefinition
  pub notebook_worker_input : N → Fields → Fields
  -- `_validate_before_container_run`: the message of a refusal.
  pub validation_error : Binding N → JobRecord → Option ResourcePolicy → Action (Option Message)
  pub run_goblin :
      Binding N → JobRecord → GoblinContext → Option ResourcePolicy → Action GoblinResult
