-- ===== src/Db/Statements.antt =====
-- The WHERE and SET clauses of the statements on the table `jobs` (pkg/server/db/jobs.go,
-- migrations.go, db.go), each a test or a function of one row.
use rffmpeg.Base.{
  ℕ, String, Bool, true, false, ◌&&◌, ◌||◌, not, Option, none, some, List, ◌==◌, leb, ltb,
}
use rffmpeg.Base.Tables.{exists_where}
use rffmpeg.Protocol.{
  JobStatus, FailureType, pending, queued, running, failed, cancelled, exec_timeout, worker_crash,
  blank, is_retryable,
}
use rffmpeg.Db.{
  Job, Worker, ExitCode, negative, is_active, is_pending, is_running, is_open, is_offline, holds,
  is_null, coalesce, or_else,
}

-- CASE WHEN ? IN ('TIMEOUT', 'WORKER_CRASH') THEN 1 ELSE 0 END.
unfoldable pub retryable_case : FailureType → Bool
retryable_case exec_timeout = true
retryable_case worker_crash = true
retryable_case _ = false

-- NULLIF(?, '').
abbrev pub null_if_blank : FailureType → Option FailureType
null_if_blank blank = none
null_if_blank f = some f

-- WHERE id = ? AND worker_id = ? AND status IN (running, queued).
unfoldable pub owned_active : String → String → Job → Bool
owned_active id worker j = (j.id == id) && (holds j.worker_id worker && is_active j.status)

-- A report of a worker: the arguments of the terminal and of the running update.
pub record Report : Type 0 where
  pub exit_code : Option ExitCode
  pub error : Option String
  pub failure_type : Option FailureType
  pub failure_details : Option String

unfoldable pub set_terminal : ℕ → String → Option String → JobStatus → Report → Bool → Job → Job
unfolding retryable_case
set_terminal now worker name status r cached j = record j {
  status = status;
  updated_at = now;
  exit_code = r.exit_code;
  error = r.error;
  failure_type = coalesce r.failure_type j.failure_type;
  retryable = retryable_case (coalesce r.failure_type j.failure_type);
  failure_details = coalesce r.failure_details j.failure_details;
  finished_at = some now;
  cached = cached;
  assigned_worker = or_else j.assigned_worker (some worker);
  worker_name = or_else j.worker_name name;
}

unfoldable pub set_running : ℕ → Report → Job → Job
unfolding retryable_case
set_running now r j = record j {
  status = running;
  updated_at = now;
  exit_code = r.exit_code;
  error = r.error;
  failure_type = coalesce r.failure_type j.failure_type;
  retryable = retryable_case (coalesce r.failure_type j.failure_type);
  failure_details = coalesce r.failure_details j.failure_details;
  started_at = or_else j.started_at (some now);
}

-- ... AND progress_percent <= ?.
unfoldable pub not_ahead : String → String → ℕ → Job → Bool
unfolding owned_active
not_ahead id worker progress j = owned_active id worker j && leb j.progress_percent progress

unfoldable pub set_progress : ℕ → ℕ → ℕ → Job → Job
set_progress now progress eta j = record j {
  progress_percent = progress;
  eta_seconds = eta;
  updated_at = now;
}

unfoldable pub set_output : ℕ → String → Job → Job
set_output now files j = record j { output_files = files; updated_at = now }

-- pendingUnassigned: status = pending AND worker_id IS NULL.
unfoldable pub pending_unassigned : Job → Bool
pending_unassigned j = is_pending j.status && is_null j.worker_id

unfoldable pub assignable : String → Job → Bool
unfolding pending_unassigned
assignable id j = (j.id == id) && pending_unassigned j

unfoldable pub set_assigned : ℕ → String → Option String → Job → Job
set_assigned now worker name j = record j {
  worker_id = some worker;
  assigned_worker = some worker;
  worker_name = name;
  status = queued;
  updated_at = now;
  claimed_at = some now;
}

unfoldable pub open_job : String → Job → Bool
open_job id j = (j.id == id) && is_open j.status

unfoldable pub set_cancelled : ℕ → Job → Job
set_cancelled now j = record j { status = cancelled; updated_at = now; finished_at = some now }

unfoldable pub set_failed : ℕ → String → FailureType → Job → Job
unfolding retryable_case
set_failed now msg type j = record j {
  status = failed;
  worker_id = none;
  started_at = none;
  exit_code = some (negative 0);
  error = some msg;
  failure_type = coalesce (null_if_blank type) j.failure_type;
  retryable = retryable_case (coalesce (null_if_blank type) j.failure_type);
  finished_at = some now;
  updated_at = now;
}

unfoldable pub running_job : String → Job → Bool
running_job id j = (j.id == id) && is_running j.status

-- The SET clause of RescheduleJob, RecordJobTimeoutMigration and RecoverState.
unfoldable pub set_requeued : ℕ → Job → Job
set_requeued now j = record j {
  status = pending;
  worker_id = none;
  started_at = none;
  claimed_at = none;
  updated_at = now;
  created_at = now;
}

-- The SET clause of resetJobToPendingExec, which clears the failure columns too.
unfoldable pub set_reset : ℕ → Job → Job
unfolding set_requeued
set_reset now j = record (set_requeued now j) {
  failure_type = blank;
  retryable = false;
  failure_details = "";
  exit_code = none;
  error = none;
}

unfoldable pub starved : ℕ → Job → Bool
unfolding pending_unassigned
starved cutoff j = pending_unassigned j && ltb j.created_at cutoff

unfoldable pub set_starved : ℕ → String → FailureType → Job → Job
set_starved now msg type j = record j {
  status = failed;
  worker_id = none;
  exit_code = some (negative 0);
  error = some msg;
  failure_type = type;
  retryable = is_retryable type;
  finished_at = some now;
  updated_at = now;
}

unfoldable pub set_stuck : ℕ → String → FailureType → Job → Job
unfolding set_starved
set_stuck now msg type j = record (set_starved now msg type j) {
  started_at = none;
  claimed_at = none;
}

-- The SET clause of MigrateJobsFromWorker for a job past its retry budget.
unfoldable pub set_crashed : ℕ → String → Job → Job
set_crashed now msg j = record j {
  status = failed;
  worker_id = none;
  started_at = none;
  claimed_at = none;
  exit_code = some (negative 0);
  error = some msg;
  failure_type = worker_crash;
  retryable = true;
  finished_at = some now;
  updated_at = now;
}

-- EXISTS (SELECT 1 FROM workers w WHERE w.id = j.worker_id AND ...).
owner_exists : (Worker → Bool) → List Worker → Job → Bool
owner_exists p ws j = exists_where (λ w. holds j.worker_id w.id && p w) ws

unfoldable pub missing_worker : List Worker → Job → Bool
unfolding owner_exists
missing_worker ws j = is_null j.worker_id || not (owner_exists (λ w. true) ws j)

unfoldable pub offline_worker : List Worker → Job → Bool
unfolding owner_exists
offline_worker ws j = owner_exists (λ w. is_offline w.status) ws j

unfoldable pub live_worker : List Worker → Job → Bool
unfolding owner_exists
live_worker ws j = owner_exists (λ w. not (is_offline w.status)) ws j
