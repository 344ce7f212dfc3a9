-- ===== src/Scheduler/Assignment.antt =====
-- The assignment of pending jobs in pkg/server/scheduler/scheduler.go: scheduleJob and
-- schedulePendingJobs.
use rffmpeg.Base.{ℕ, String, Bool, true, false, Option, none, some, List, [], ◌∷◌}
use rffmpeg.Protocol.{Result, job_not_owned, ok, err}
use rffmpeg.Db.{Database, Job}
use rffmpeg.Db.Jobs.{assign_job_to_worker, get_pending_jobs}
use rffmpeg.Db.Claims.{record_migration_target}
use rffmpeg.Db.Workers.{Load}
use rffmpeg.Scheduler.{Config}
use rffmpeg.Scheduler.Encoders.{GoLibrary}
use rffmpeg.Scheduler.Selection.{choose_worker}

-- After the assignment: another path may have taken the job first, which is no failure.
unfoldable pub after_assignment : String → Load → Database × Result (Unit {0}) → Database × Bool
unfolding record_migration_target
after_assignment id w (d, ok _) = (record_migration_target id w.worker.id w.worker.name d, true)
after_assignment id w (d, err job_not_owned) = (d, true)
after_assignment id w (d, err _) = (d, false)

unfoldable pub assign_chosen : ℕ → String → Option Load → Database → Database × Bool
unfolding after_assignment assign_job_to_worker
assign_chosen now id none d = (d, false)
assign_chosen now id (some w) d = after_assignment id w (assign_job_to_worker now id w.worker.id d)

-- What the other callers of the database do, at a time and for a job: before the scheduler reads the candidates
-- for the job, and between that read and the assignment.
pub record Writers : Type 0 where
  pub before_read : ℕ → Job → Database → Database
  pub before_assign : ℕ → Job → Database → Database

module _ (lib : GoLibrary) (writers : Writers) where
  -- The answer tells whether the job is scheduled.
  unfoldable pub schedule_job : Config → ℕ → Job → Database → Database × Bool
  unfolding choose_worker assign_chosen
  schedule_job config now j d =
      assign_chosen now j.id (choose_worker lib config now j d) (writers.before_assign now j d)

  -- A job with no eligible worker does not block those behind it.
  unfoldable pub schedule_each : Config → ℕ → List Job → Database → Database
  unfolding schedule_job
  schedule_each config now [] d = d
  schedule_each config now (j ∷ js) d =
      schedule_each config now js (schedule_job config now j (writers.before_read now j d)).0

  unfoldable pub schedule_pending_jobs : Config → ℕ → Database → Database
  unfolding schedule_each get_pending_jobs
  schedule_pending_jobs config now d = schedule_each config now (get_pending_jobs 100 d) d
