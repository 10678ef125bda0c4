-- ===== src/Tests/Fanout.antt =====
-- The read model of a fanout on a batch of three jobs.
use mathlib.Core.List.Perm
use goblin_king.Base.{◌≡◌, refl, List, [], ◌∷◌}
use goblin_king.Contracts.{JobRecord}
use goblin_king.Fanout.{FanoutStatus, derive_fanout_status, status_of, counts_of}
use goblin_king.Fanout.Outcome.{HasOutcome, derive_fanout_status-HasOutcome}
use goblin_king.Fanout.Totals.{IsCounted, counts_of-IsCounted}
use goblin_king.Fanout.Order.{derive_fanout_status-perm}
use goblin_king.Tests.Samples.{queued_job, running_job, done_job}

abbrev batch : List JobRecord
batch = done_job ∷ running_job ∷ queued_job ∷ []

-- One job is done and none failed, so the batch still runs.
derive_run : derive_fanout_status batch ≡ FanoutStatus.running
unfolding derive_fanout_status status_of
derive_run = refl

derive_fanout_status-HasOutcome_example : HasOutcome batch (derive_fanout_status batch)
derive_fanout_status-HasOutcome_example = derive_fanout_status-HasOutcome batch

counts_of-IsCounted_example : IsCounted batch (counts_of batch)
counts_of-IsCounted_example = counts_of-IsCounted batch

derive_fanout_status-perm_example :
    derive_fanout_status (running_job ∷ done_job ∷ [])
    ≡ derive_fanout_status (done_job ∷ running_job ∷ [])
derive_fanout_status-perm_example =
    derive_fanout_status-perm (running_job ∷ done_job ∷ []) (done_job ∷ running_job ∷ [])
      (Perm.swap done_job running_job [])
