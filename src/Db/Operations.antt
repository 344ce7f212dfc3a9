-- ===== src/Db/Operations.antt =====
-- The database as a state machine: every method of pkg/server/db that writes the table `jobs`, in any
-- order, each with the time at which it runs. Concurrent callers are an order of calls, since SQLite
-- serializes the statements and transactions.
use rffmpeg.Base.{
  ℕ, String, Bool, true, false, ◌≡◌, List, [], ◌∷◌, arith, All, Extends, if◌then◌else◌, Bool-cases,
  inl, inr,
}
use rffmpeg.Protocol.{JobStatus, FailureType, Result, is_terminal_status}
use rffmpeg.Db.{Database, is_open}
use rffmpeg.Db.Identity.{UuidLibrary}
use rffmpeg.Db.Statements.{Report}
use rffmpeg.Db.Jobs.{
  Submission, create_job_with_streaming, create_failed_job, update_job_terminal_status_with_owner,
  update_job_running_status_with_owner, assign_job_to_worker, cancel_job,
  update_job_output_with_owner, reschedule_job, fail_job, update_job_progress_with_owner,
}
use rffmpeg.Db.Claims.{assign_pending_jobs_to_worker}
use rffmpeg.Db.Sweeps.{Verdict, fail_starved_pending_jobs, fail_stuck_active_jobs, recover_state}
use rffmpeg.Db.Migrations.{record_job_timeout_migration, migrate_jobs_from_worker}
use rffmpeg.Db.Lifecycle.{IsConsistent}
use rffmpeg.Db.History.{Evolves, IsStep-refl, IsStep-trans}
use rffmpeg.Db.Steps.{
  Steps, create_job_with_streaming-Steps, create_failed_job-Steps, terminal-Steps, running-Steps,
  assign_job_to_worker-Steps, cancel_job-Steps, output-Steps, reschedule_job-Steps, fail_job-Steps,
  progress-Steps,
}
use rffmpeg.Db.Batches.{
  assign_pending-Steps, fail_starved-Steps, fail_stuck-Steps, recover_state-Steps,
  timeout_migration-Steps, migrate_jobs-Steps,
}

pub data Call : Type 0 where
  creates : String → Submission → Call
  creates_failed : String → Submission → FailureType → String → Call
  reports : String → String → JobStatus → Report → Bool → Call
  reports_progress : String → String → ℕ → ℕ → Call
  uploads : String → String → String → Call
  assigns : String → String → Call
  cancels reschedules : String → Call
  pulls : String → ℕ → Call
  fails : String → String → FailureType → Call
  sweeps_starved sweeps_stuck : ℕ → List Verdict → String → String → Call
  recovers : Call
  times_out : String → (String → String) → String → String → ℕ → Call
  migrates : String → (String → String) → String → String → ℕ → Call

-- The handler's choice: a terminal status finishes the job, any other report is a running one.
unfoldable pub report :
    ℕ → String → String → JobStatus → Report → Bool → Database → Database × Result (Unit {0})
unfolding update_job_terminal_status_with_owner update_job_running_status_with_owner
report now id worker status r cached d =
    if is_terminal_status status
    then update_job_terminal_status_with_owner now id worker status r cached d
    else update_job_running_status_with_owner now id worker r d

module _ (u : UuidLibrary) where
  unfoldable pub perform : ℕ → Call → Database → Database
  perform now (creates id s) d = (create_job_with_streaming id now s d).0
  perform now (creates_failed id s type msg) d = (create_failed_job id now s type msg d).0
  perform now (reports id worker status r cached) d = (report now id worker status r cached d).0
  perform now (reports_progress id worker progress eta) d =
      (update_job_progress_with_owner u now id worker progress eta d).0
  perform now (uploads id worker files) d = (update_job_output_with_owner now id worker files d).0
  perform now (assigns id worker) d = (assign_job_to_worker now id worker d).0
  perform now (cancels id) d = (cancel_job now id d).0
  perform now (reschedules id) d = (reschedule_job now id d).0
  perform now (pulls worker max_concurrent) d =
      (assign_pending_jobs_to_worker u now worker max_concurrent d).0
  perform now (fails id msg type) d = (fail_job now id msg type d).0
  perform now (sweeps_starved cutoff vs m n) d = (fail_starved_pending_jobs now cutoff vs m n d).0
  perform now (sweeps_stuck cutoff vs m n) d = (fail_stuck_active_jobs now cutoff vs m n d).0
  perform now recovers d = (recover_state now d).0
  perform now (times_out event_id row_id worker id n) d =
      (record_job_timeout_migration now event_id row_id worker id n d).0
  perform now (migrates event_id row_id worker reason n) d =
      (migrate_jobs_from_worker u now event_id row_id worker reason n d).0

  -- A history: calls with their times.
  unfoldable pub run : List (ℕ × Call) → Database → Database
  unfolding perform
  run [] d = d
  run ((now, c) ∷ cs) d = run cs (perform now c d)

terminal_over : (s : JobStatus) → is_terminal_status s ≡ true → is_open s ≡ false
unfolding is_terminal_status
terminal_over s h = ground arith

report-Steps :
    (now : ℕ) (id worker : String) (status : JobStatus) (r : Report) (cached : Bool) (d : Database)
    → Steps d (report now id worker status r cached d).0
unfolding report
report-Steps now id worker status r cached d = elim (Bool-cases (is_terminal_status status)) [
  | inl e ↦ rw (e, report) (terminal-Steps now id worker status r cached d (terminal_over status e))
  | inr e ↦ rw (e, report) (running-Steps now id worker r d)
]

module _ (u : UuidLibrary) where
  pub perform-Steps : (now : ℕ) (c : Call) (d : Database) → Steps d (perform u now c d)
  unfolding perform
  perform-Steps now (creates id s) d = create_job_with_streaming-Steps id now s d
  perform-Steps now (creates_failed id s type msg) d = create_failed_job-Steps id now s type msg d
  perform-Steps now (reports id worker status r cached) d =
      report-Steps now id worker status r cached d
  perform-Steps now (reports_progress id worker progress eta) d =
      progress-Steps u now id worker progress eta d
  perform-Steps now (uploads id worker files) d = output-Steps now id worker files d
  perform-Steps now (assigns id worker) d = assign_job_to_worker-Steps now id worker d
  perform-Steps now (cancels id) d = cancel_job-Steps now id d
  perform-Steps now (reschedules id) d = reschedule_job-Steps now id d
  perform-Steps now (pulls worker n) d = assign_pending-Steps u now worker n d
  perform-Steps now (fails id msg type) d = fail_job-Steps now id msg type d
  perform-Steps now (sweeps_starved cutoff vs m n) d = fail_starved-Steps now cutoff vs m n d
  perform-Steps now (sweeps_stuck cutoff vs m n) d = fail_stuck-Steps now cutoff vs m n d
  perform-Steps now recovers d = recover_state-Steps now d
  perform-Steps now (times_out event_id row_id worker id n) d =
      timeout_migration-Steps now event_id row_id worker id n d
  perform-Steps now (migrates event_id row_id worker reason n) d =
      migrate_jobs-Steps u now event_id row_id worker reason n d

  run-Steps : (cs : List (ℕ × Call)) (d : Database) → Steps d (run u cs d)
  unfolding run
  run-Steps [] d = IsStep-refl d.jobs
  run-Steps ((now, c) ∷ cs) d =
      IsStep-trans d.jobs (perform u now c d).jobs _ (perform-Steps now c d)
        (run-Steps cs (perform u now c d))

  -- Through any history of calls every row stays consistent: a pending job has no owner, no claim and
  -- no start, an active job has an owner and a claim, a running one a start, exactly the jobs that are
  -- over have a finish time, only a completed job is marked as cached, and the retry flag is the one
  -- of the failure type. This holds where the rows are consistent at the start.
  pub run-IsConsistent :
      (cs : List (ℕ × Call)) (d : Database)
      → All IsConsistent d.jobs
      → All IsConsistent (run u cs d).jobs
  run-IsConsistent cs d = (run-Steps cs d).consistent

  -- Through any history of calls each row stays in its place with its identifier and all of
  -- its submission (arguments, inputs, output name, timeout, hardware choice, streaming and direct paths), its
  -- progress does not fall, and a row whose job is over is not changed at all; new rows
  -- stand behind the old ones.
  pub run-Evolves : (cs : List (ℕ × Call)) (d : Database) → Extends Evolves d.jobs (run u cs d).jobs
  run-Evolves cs d = (run-Steps cs d).evolves
