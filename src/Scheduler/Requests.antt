-- ===== src/Scheduler/Requests.antt =====
-- Requests that queue jobs: a fanout batch, and the retry of a job that has ended (create_fanout and
-- retry_job of fanout.py).
pub mod Retried
use goblin_king.Base.{
  ℕ, zero, suc, String, ◌==◌, Bool, true, false, not, Option, none, some, List, [], ◌∷◌, or_else,
  Result, ok, raise, if◌then◌else◌,
}
use goblin_king.Base.Int.{ℤ}
use goblin_king.Contracts.{
  Json, null, str, obj, Fields, end, field, set_field, JobRecord, JobStatus, FanoutRecord,
  is_terminal, status_text,
}
use goblin_king.Fanout.{FanoutDetail, FanoutError, unknown_fanout, fanout_detail}
use goblin_king.Policies.{ResourcePolicy, ResourcePolicySet, PolicyError, effective_for}
use goblin_king.Registry.{GoblinDefinition, GoblinRegistry, RegistryError, get}
use goblin_king.Store.{Store}
use goblin_king.Store.Jobs.{save_job, get_job}
use goblin_king.Store.Schedules.{save_fanout}
use goblin_king.Scheduler.Action.{
  Action, SchedulerError, registry_error, policy_error, key_error, not_terminal, ◌>>=◌, ◌>>◌, done,
  fail, returned, query, transact, only_store, draw, on_option,
}
use goblin_king.Scheduler.Environment.{Outside}

pub record FanoutItem : Type 0 where
  pub kind : String
  pub input : Fields
  pub priority : ℤ
  pub max_retries : ℕ
  pub timeout_seconds : Option ℕ

pub record FanoutCreateRequest : Type 0 where
  pub description : Option String
  pub correlation_id : Option String
  pub items : List FanoutItem

pub record RetryCreateRequest : Type 0 where
  pub reason : Option String
  pub input : Option Fields
  pub priority : Option ℤ
  pub max_retries : Option ℕ
  pub timeout_seconds : Option ℕ

-- `request.correlation_id or str(uuid4())`: an empty text counts as none.
abbrev pub given_text : Option String → Option String
given_text none = none
given_text (some text) = if text == "" then none else some text

-- `value if asked is None else asked`
abbrev pub asked_or {ℓ} : {A : Type ℓ} → Option A → A → A
asked_or none value = value
asked_or (some asked) value = asked

abbrev pub asked_or_none : Option ℕ → Option ℕ → Option ℕ
asked_or_none none value = value
asked_or_none (some asked) value = some asked

abbrev pub reason_json : Option String → Json
reason_json none = null
reason_json (some reason) = str reason

module _ {N F : Type 0} (outside : Outside N F) (dump_item : FanoutItem → Json) where
  -- `{"resource_policy": policy.compact()} if policy else {}`
  abbrev pub with_compact : Option ResourcePolicy → Fields → Fields
  with_compact none metadata = metadata
  with_compact (some policy) metadata =
      set_field "resource_policy" (obj (outside.codec.compact policy)) metadata

  abbrev pub retries_under : Option ResourcePolicy → ℕ → ℕ
  retries_under none max_retries = max_retries
  retries_under (some policy) max_retries = or_else policy.max_retries 0

  abbrev pub timeout_under : Option ResourcePolicy → Option ℕ → Option ℕ
  timeout_under none timeout_seconds = timeout_seconds
  timeout_under (some policy) timeout_seconds = policy.timeout_seconds

  abbrev pub some_policy :
      Result PolicyError ResourcePolicy → Result PolicyError (Option ResourcePolicy)
  some_policy (ok policy) = ok (some policy)
  some_policy (raise e) = raise e

  -- The effective policy, where policies are configured.
  unfoldable pub request_policy :
      Option ResourcePolicySet
      → (kind : String) (timeout_seconds : Option ℕ) (max_retries : ℕ)
      → Result PolicyError (Option ResourcePolicy)
  request_policy none kind timeout_seconds max_retries = ok none
  request_policy (some policies) kind timeout_seconds max_retries =
      some_policy (
        effective_for outside.floats outside.codec policies kind timeout_seconds (some max_retries))

  -- `[registry.get(item.kind) for item in request.items]`
  unfoldable pub definitions_of : GoblinRegistry → List FanoutItem → Action (List GoblinDefinition)
  definitions_of registry [] = done []
  definitions_of registry (item ∷ items) = do
    definition ← returned registry_error (get item.kind registry)
    rest ← definitions_of registry items
    done (definition ∷ rest)

  -- The items with their definitions and effective policies; the lists are equally long.
  unfoldable pub effective_policies :
      Option ResourcePolicySet
      → List GoblinDefinition
      → List FanoutItem
      → Action (List (GoblinDefinition × FanoutItem × Option ResourcePolicy))
  effective_policies policies (definition ∷ definitions) (item ∷ items) = do
    policy ←
        returned policy_error
          (request_policy policies definition.kind item.timeout_seconds item.max_retries)
    rest ← effective_policies policies definitions items
    done ((definition, item, policy) ∷ rest)
  effective_policies policies _ _ = done []

  abbrev pub item_job :
      (id : String) (index now : ℕ) (created_by : String) (project_id : Option String)
      → FanoutRecord
      → GoblinDefinition × FanoutItem × Option ResourcePolicy
      → JobRecord
  item_job id index now created_by project_id fanout (definition, item, policy) = record {
    id = id;
    kind = definition.kind;
    input = item.input;
    created_at = now;
    created_by = created_by;
    correlation_id = fanout.correlation_id;
    project_id = project_id;
    fanout_id = some fanout.id;
    metadata = with_compact policy (
        field "fanout_item_index" (outside.number index)
          (field "fanout_item" (dump_item item) end));
    status = JobStatus.queued;
    priority = item.priority;
    schedule_id = none;
    due_at = some now;
    lease_owner = none;
    leased_until = none;
    attempt_count = 0;
    max_retries = retries_under policy item.max_retries;
    timeout_seconds = timeout_under policy item.timeout_seconds;
    last_error = none;
  }

  unfoldable pub item_jobs :
      (index now : ℕ) (created_by : String) (project_id : Option String)
      → FanoutRecord
      → List (GoblinDefinition × FanoutItem × Option ResourcePolicy)
      → Action (List JobRecord)
  item_jobs index now created_by project_id fanout [] = done []
  item_jobs index now created_by project_id fanout (item ∷ items) = do
    id ← draw outside.uuid4
    rest ← item_jobs (suc index) now created_by project_id fanout items
    done (item_job id index now created_by project_id fanout item ∷ rest)

  unfoldable pub save_jobs : List JobRecord → Action (Unit {0})
  save_jobs [] = done tt
  save_jobs (job ∷ jobs) = do transact (λ store. only_store (save_job job store)); save_jobs jobs

  abbrev pub missing_fanout : FanoutError → SchedulerError
  missing_fanout (unknown_fanout id) = key_error id

  unfoldable pub correlation_of : Option String → Action String
  correlation_of none = draw outside.uuid4
  correlation_of (some text) = done text

  unfoldable pub create_fanout :
      GoblinRegistry
      → FanoutCreateRequest
      → (created_by : String) (project_id : Option String) → Option ResourcePolicySet
      → Action FanoutDetail
  unfolding definitions_of effective_policies item_jobs save_jobs correlation_of
  create_fanout registry request created_by project_id policies = do
    definitions ← definitions_of registry request.items
    items ← effective_policies policies definitions request.items
    now ← draw outside.utc_now
    id ← draw outside.uuid4
    correlation_id ← correlation_of (given_text request.correlation_id)
    let fanout : FanoutRecord = record {
      id = id;
      created_at = now;
      created_by = created_by;
      project_id = project_id;
      correlation_id = some correlation_id;
      description = request.description;
    }
    jobs ← item_jobs 0 now created_by project_id fanout items
    transact (λ store. only_store (save_fanout fanout store))
    save_jobs jobs
    detail ← query (λ store. fanout_detail store fanout.id)
    returned missing_fanout detail

  abbrev pub retry_of :
      JobRecord
      → RetryCreateRequest
      → (created_by id : String) (created_at due_at : ℕ) → Option ResourcePolicy
      → JobRecord
  retry_of source request created_by id created_at due_at policy = record {
    id = id;
    kind = source.kind;
    input = asked_or request.input source.input;
    created_at = created_at;
    created_by = created_by;
    correlation_id = source.correlation_id;
    project_id = source.project_id;
    fanout_id = source.fanout_id;
    metadata = with_compact policy (
        set_field "retry"
          (obj (
            field "source_job_id" (str source.id) (
              field "source_status" (str (status_text source.status))
                (field "reason" (reason_json request.reason) end))))
          source.metadata);
    status = JobStatus.queued;
    priority = asked_or request.priority source.priority;
    schedule_id = none;
    due_at = some due_at;
    lease_owner = none;
    leased_until = none;
    attempt_count = 0;
    max_retries = retries_under policy (asked_or request.max_retries source.max_retries);
    timeout_seconds =
        timeout_under policy (asked_or_none request.timeout_seconds source.timeout_seconds);
    last_error = none;
  }

  unfoldable pub retry_source :
      JobRecord
      → RetryCreateRequest
      → (created_by : String) → Option ResourcePolicySet
      → Action JobRecord
  unfolding request_policy
  retry_source source request created_by policies = do
    if is_terminal source.status then done (tt {0}) else fail (not_terminal source.status)
    policy ← returned policy_error (
        request_policy policies source.kind
          (asked_or_none request.timeout_seconds source.timeout_seconds)
          (asked_or request.max_retries source.max_retries))
    id ← draw outside.uuid4
    created_at ← draw outside.utc_now
    due_at ← draw outside.utc_now
    let retry = retry_of source request created_by id created_at due_at policy
    transact (λ store. only_store (save_job retry store))
    done retry

  unfoldable pub retry_job :
      (job_id : String)
      → RetryCreateRequest
      → (created_by : String) → Option ResourcePolicySet
      → Action JobRecord
  unfolding retry_source
  retry_job job_id request created_by policies = do
    found ← query (get_job job_id)
    on_option found (fail (key_error job_id))
        (λ source. retry_source source request created_by policies)
