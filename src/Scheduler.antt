-- ===== src/Scheduler.antt =====
-- The scheduler of pkg/server/scheduler: its configuration and what it tells the job notifier.
pub mod Encoders
pub mod Selection
pub mod Assignment
pub mod Ticks
pub mod Loop
pub mod Best
pub mod Fit
pub mod Room
pub mod Moves
pub mod Retries
pub mod Families
pub mod Verdicts
use rffmpeg.Base.{ℕ, String, Bool, Option, List}
use rffmpeg.Db.{Database}

-- SchedulerConfig. A window that is not positive is none.
pub record Config : Type 0 where
  pub job_timeout : ℕ
  pub max_jobs_per_worker : ℕ
  pub no_worker_job_timeout : Option ℕ
  pub heartbeat_freshness : Option ℕ
  pub max_timeout_retries : ℕ
  pub stuck_job_timeout : Option ℕ

-- The calls of JobNotifier.
pub data Notice : Type 0 where
  broadcast_failed : String → String → Notice
  release_job_stream : String → Notice

-- The database with the calls of the notifier so far, oldest first.
pub record State : Type 0 where
  pub db : Database
  pub notices : List Notice
