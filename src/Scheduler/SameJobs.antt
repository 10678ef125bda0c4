-- ===== src/Scheduler/SameJobs.antt =====
-- The scheduler's events, audit records, run openings and timestamps leave the jobs table alone.
use goblin_king.Base.{
  ℕ, String, ◌≡◌, refl, ◌∙◌, subst, Option, none, some, Result, ok, arith, Option-cases, inl, inr,
  is_some, bind-ok, raise_if-ok,
}
use goblin_king.Contracts.{RunRecord, EventRecord, Fields, HeartbeatOwner, is_finished}
use goblin_king.Table.{insert_row}
use goblin_king.Store.{Store, StoreError}
use goblin_king.Store.Events.{persist_event, event_key, sequenced}
use goblin_king.Store.Runs.{insert_run, insert_run_children, run_values, run_key, start_run}
use goblin_king.Scheduler.Action.{transact}
use goblin_king.Scheduler.Action.Keeps.{
  Preorder, Keeps, Keeps-done, Keeps-query, Keeps-draw, Keeps-bind, Keeps-then, Keeps-transact,
  Keeps-write_audit_logs, Keeps-write_heartbeats,
}
use goblin_king.Scheduler.Environment.{Outside}
use goblin_king.Scheduler.Events.{Emission, emit, event_time, audit, heartbeat, upsert_heartbeat}
use goblin_king.Scheduler.Attempts.{finish_attempt_timestamp}

-- The jobs table is as before.
unfoldable pub same_jobs : Preorder
same_jobs = record {
  R = λ store store'. store'.jobs ≡ store.jobs;
  reflexive = λ store. refl;
  transitive = λ a b c first second. second ∙ first;
}

persist_event-jobs :
    (event : EventRecord) (store store' : Store) (stored : EventRecord)
    → persist_event event store ≡ ok (store', stored)
    → store'.jobs ≡ store.jobs
unfolding persist_event
persist_event-jobs event store store' stored h =
    elim (Option-cases (insert_row event_key (sequenced store event) store.events)) [
      | inl taken ↦ ground arith
      | inr (events, added) ↦ ground arith
    ]

insert_run-jobs :
    (run : RunRecord) (store store' : Store)
    → insert_run run store ≡ ok store'
    → store'.jobs ≡ store.jobs
unfolding insert_run insert_run_children
insert_run-jobs run store store' h =
    elim (Option-cases (insert_row run_key (run_values run) store.runs)) [
      | inl taken ↦ ground arith
      | inr (runs, added) ↦ ground arith
    ]

start_run-jobs :
    (run : RunRecord) (store store' : Store) (made : RunRecord)
    → start_run run store ≡ ok (store', made)
    → store'.jobs ≡ store.jobs
unfolding start_run
start_run-jobs run store store' made h =
    let (_, h1) = raise_if-ok (is_finished run.status) _ _ (store', made) h in
    let (_, h2) = raise_if-ok (is_some run.finished_at) _ _ (store', made) h1 in
    let (_, h3) = raise_if-ok (is_some run.result) _ _ (store', made) h2 in
    let (_, h4) = raise_if-ok (is_some run.error) _ _ (store', made) h3 in
    let (inserted, is_inserted, h5) = bind-ok (insert_run run store) _ (store', made) h4 in
    let same : inserted ≡ store' = ground arith in
    subst (λ s. s.jobs ≡ store.jobs) same (insert_run-jobs run store inserted is_inserted)

transact-same_jobs :
    {A : Type 0} (f : Store → Result StoreError (Store × A))
    → ((store store' : Store) (a : A) → f store ≡ ok (store', a) → store'.jobs ≡ store.jobs)
    → Keeps same_jobs (transact f)
unfolding same_jobs
transact-same_jobs f same = Keeps-transact f same

module _ {N F : Type 0} (outside : Outside N F) where
  event_time-same_jobs : (after : Option ℕ) → Keeps same_jobs (event_time outside after)
  unfolding event_time
  event_time-same_jobs none = Keeps-draw outside.utc_now
  event_time-same_jobs (some after) =
      Keeps-bind (Keeps-draw outside.utc_now) (λ current. Keeps-done _)

  pub emit-same_jobs : (emission : Emission) → Keeps same_jobs (emit outside emission)
  unfolding emit
  emit-same_jobs emission = Keeps-bind (Keeps-draw outside.uuid4) (λ id.
      Keeps-bind (event_time-same_jobs emission.after)
        (λ created_at. transact-same_jobs (persist_event _) (persist_event-jobs _)))

  pub audit-same_jobs :
      (action outcome : String) (project_id : Option String) (resource_type resource_id : String)
      (detail : Fields)
      → Keeps same_jobs (audit outside action outcome project_id resource_type resource_id detail)
  unfolding audit
  audit-same_jobs action outcome project_id resource_type resource_id detail =
      Keeps-bind (Keeps-draw outside.uuid4)
        (λ id. Keeps-bind (Keeps-draw outside.utc_now) (λ created_at. Keeps-write_audit_logs _))

  pub finish_attempt_timestamp-same_jobs :
      (job_id : String) (started_at : ℕ)
      → Keeps same_jobs (finish_attempt_timestamp outside job_id started_at)
  unfolding finish_attempt_timestamp
  finish_attempt_timestamp-same_jobs job_id started_at =
      Keeps-bind (Keeps-query _)
        (λ newest. Keeps-bind (Keeps-draw outside.utc_now) (λ current. Keeps-done _))

  pub start_run-same_jobs : (run : RunRecord) → Keeps same_jobs (transact (start_run run))
  start_run-same_jobs run = transact-same_jobs (start_run run) (start_run-jobs run)

  pub heartbeat-same_jobs :
      (owner_id : String) (owner_type : HeartbeatOwner) (status : String) (payload : Fields)
      → Keeps same_jobs (heartbeat outside owner_id owner_type status payload)
  unfolding heartbeat upsert_heartbeat
  heartbeat-same_jobs owner_id owner_type status payload =
      Keeps-bind (Keeps-draw outside.utc_now)
        (λ last_seen_at. Keeps-then (Keeps-write_heartbeats _) (Keeps-done _))
