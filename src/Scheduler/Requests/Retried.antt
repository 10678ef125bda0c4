-- ===== src/Scheduler/Requests/Retried.antt =====
-- What a retry leaves in the store (retry_job of fanout.py).
use goblin_king.Base.{
  String, ◌==◌, eq_refl, ◌≡◌, refl, ◌∙◌, sym, ap, subst, true, false, Option, none, some, ok, arith,
  Option-cases, Bool-cases, inl, inr, if◌then◌else◌,
}
use goblin_king.Contracts.{Json, JobRecord, JobStatus, is_terminal}
use goblin_king.Policies.{ResourcePolicySet}
use goblin_king.Table.{insert_row, get_row}
use goblin_king.Table.Laws.{get_row-insert_row, insert_row-eq_some}
use goblin_king.Store.{Store}
use goblin_king.Store.Jobs.{job_key, save_job, get_job}
use goblin_king.Store.Jobs.Lookup.{job_row}
use goblin_king.Scheduler.Action.{
  World, key_error, not_terminal, policy_error, done, fail, query, only_store, on_option,
}
use goblin_king.Scheduler.Action.Returns.{
  Returns, bind-Returns, then-Returns, done-Returns, transact-Returns, query-Returns,
  returned-Returns, Keeps-Returns,
}
use goblin_king.Scheduler.Action.Keeps.{Keeps-draw}
use goblin_king.Scheduler.Environment.{Outside}
use goblin_king.Scheduler.SameJobs.{same_jobs}
use goblin_king.Scheduler.Requests.{
  FanoutItem, RetryCreateRequest, retry_of, retry_source, retry_job,
}

-- A new queued job beside its source, of the source's kind, project, batch and correlation.
pub record IsRetry (source retry : JobRecord) (store store' : Store) : Type 0 where
  pub ended : is_terminal source.status ≡ true
  pub queued : retry.status ≡ JobStatus.queued
  pub first : retry.attempt_count ≡ 0
  pub unleased : (retry.lease_owner ≡ none) × (retry.leased_until ≡ none)
  pub kind : retry.kind ≡ source.kind
  pub project : retry.project_id ≡ source.project_id
  pub batch : retry.fanout_id ≡ source.fanout_id
  pub correlation : retry.correlation_id ≡ source.correlation_id
  pub fresh : job_row retry.id store ≡ none
  pub saved : job_row retry.id store' ≡ some retry
  pub others : (k : String) → (retry.id == k) ≡ false → job_row k store' ≡ job_row k store

save_job-rows :
    (job : JobRecord) (store store' : Store) (u : Unit {0})
    → only_store (save_job job store) ≡ ok (store', u)
    → (job_row job.id store ≡ none)
      × ((k : String) → job_row k store' ≡ (if job.id == k then some job else job_row k store))
unfolding save_job
save_job-rows job store store' u h = elim (Option-cases (insert_row job_key job store.jobs)) [
  | inl taken ↦ absurd (ground arith)
  | inr (jobs, added) ↦
      let (free, _) = insert_row-eq_some job_key job store.jobs jobs added in
      (free, λ k. let seen = get_row-insert_row job_key k job store.jobs jobs added in ground arith)
]

ended_if :
    (source : JobRecord) (world world' : World) (u : Unit {0})
    → Returns
        (if is_terminal source.status then done (tt {0}) else fail (not_terminal source.status))
        world
        world'
        u
    → (is_terminal source.status ≡ true) × (world ≡ world')
unfolding done fail
ended_if source world world' u h = elim (Bool-cases (is_terminal source.status)) [
  | inl e ↦ (e, ground arith)
  | inr e ↦ absurd (ground arith)
]

module _ {N F : Type 0} (outside : Outside N F) (dump_item : FanoutItem → Json)
    (request : RetryCreateRequest) (created_by : String) (policies : Option ResourcePolicySet) where
  retry_source-IsRetry :
      (source : JobRecord) (world world' : World) (retry : JobRecord)
      → Returns
          (retry_source outside dump_item source request created_by policies)
          world
          world'
          retry
      → IsRetry source retry world.store world'.store
  unfolding retry_source same_jobs
  retry_source-IsRetry source world world' retry h =
      let (w1, _, tested, h1) = then-Returns _ _ world world' retry h in
      let (ended, same1) = ended_if source world w1 _ tested in
      let (w2, policy, read, h2) = bind-Returns _ _ w1 world' retry h1 in
      let (_, same2) = returned-Returns policy_error _ w1 w2 policy read in
      let (w3, id, drawn3, h3) = bind-Returns _ _ w2 world' retry h2 in
      let (w4, created_at, drawn4, h4) = bind-Returns _ _ w3 world' retry h3 in
      let (w5, due_at, drawn5, h5) = bind-Returns _ _ w4 world' retry h4 in
      let kept =
        Keeps-Returns {order = same_jobs} (Keeps-draw outside.utc_now) drawn5
        ∙ Keeps-Returns {order = same_jobs} (Keeps-draw outside.utc_now) drawn4
        ∙ Keeps-Returns {order = same_jobs} (Keeps-draw outside.uuid4) drawn3 in
      let (w6, _, stored, h6) = then-Returns _ _ w5 world' retry h5 in
      let made = retry_of outside dump_item source request created_by id created_at due_at policy in
      let (fresh, rows) =
        save_job-rows made w5.store w6.store _ (transact-Returns _ w5 w6 _ stored) in
      let (is_made, same6) = done-Returns made w6 world' retry h6 in
      let jobs : w5.store.jobs ≡ world.store.jobs =
        kept ∙ ap (λ w. w.store.jobs) (sym same2) ∙ ap (λ w. w.store.jobs) (sym same1) in
      let retried : IsRetry source made world.store w6.store = record {
        ended = ended;
        queued = refl;
        first = refl;
        unleased = (refl, refl);
        kind = refl;
        project = refl;
        batch = refl;
        correlation = refl;
        fresh = ap (λ rows. get_row job_key made.id rows) (sym jobs) ∙ fresh;
        saved = let at = rows made.id in ground (arith, eq_refl made.id);
        others = λ k apart.
            let at : job_row k w6.store ≡ job_row k w5.store = let seen = rows k in ground arith in
            at ∙ ap (λ rows. get_row job_key k rows) jobs;
      } in
      subst (λ r. IsRetry source r world.store world'.store) is_made
        (subst (λ w. IsRetry source made world.store w.store) same6 retried)

  found_source :
      (found : Option JobRecord) (job_id : String) (world world' : World) (retry : JobRecord)
      → Returns
          (on_option found
            (fail (key_error job_id))
            (λ source. retry_source outside dump_item source request created_by policies))
          world
          world'
          retry
      → (source : JobRecord) × (found ≡ some source) × IsRetry source retry world.store world'.store
  unfolding fail
  found_source none job_id world world' retry h = absurd (ground arith)
  found_source (some source) job_id world world' retry h =
      (source, refl, retry_source-IsRetry source world world' retry h)

  -- A retry that returns was asked for a job that has ended, and is a new queued job, under an id that
  -- was free, of the source's kind, project, batch and correlation; all other jobs are as before.
  pub retry_job-IsRetry :
      (job_id : String) (world world' : World) (retry : JobRecord)
      → Returns (retry_job outside dump_item job_id request created_by policies) world world' retry
      → (source : JobRecord) × (get_job job_id world.store ≡ some source)
        × IsRetry source retry world.store world'.store
  unfolding retry_job
  retry_job-IsRetry job_id world world' retry h =
      let (w1, found, asked, h1) = bind-Returns (query (get_job job_id)) _ world world' retry h in
      let (is_found, same) = query-Returns (get_job job_id) world w1 found asked in
      let (source, there, retried) = found_source found job_id w1 world' retry h1 in
      (
        source,
        is_found ∙ there,
        subst (λ w. IsRetry source retry w.store world'.store) (sym same) retried,
      )
