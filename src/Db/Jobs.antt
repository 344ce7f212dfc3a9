-- ===== src/Db/Jobs.antt =====
-- pkg/server/db/jobs.go: the methods that create, report, assign, cancel, requeue and fail one job.
-- `now` is time.Now, and the identifier that uuid.New gives is an argument.
use rffmpeg.Base.{
  ℕ, String, Bool, true, false, ◌&&◌, ◌||◌, not, Option, none, some, List, [], ◌∷◌, ◌++◌, ◌==◌, ltb,
  eqb, if◌then◌else◌, take,
}
use rffmpeg.Base.Tables.{select, count_where, exists_where, find_where, update_where, order_by}
use rffmpeg.Protocol.{
  JobStatus, FailureType, DbError, Result, pending, failed, blank, is_retryable, job_not_owned,
  job_not_found, sql_error, cannot_cancel, job_terminal, ok, err,
}
use rffmpeg.Db.{
  Database, Job, negative, is_active, is_pending, is_running, is_completed, select_name,
  notify_terminal,
}
use rffmpeg.Db.Identity.{UuidLibrary, normalize_worker_id}
use rffmpeg.Db.Statements.{
  Report, owned_active, set_terminal, set_running, not_ahead, set_progress, set_output, assignable,
  set_assigned, open_job, set_cancelled, set_failed, running_job, set_requeued,
}

-- One UPDATE on the table `jobs`, with the rows it affects.
abbrev pub update_jobs : (Job → Bool) → (Job → Job) → Database → Database
update_jobs g s d = record d { jobs = update_where g s d.jobs }

abbrev pub rows_affected : (Job → Bool) → Database → ℕ
rows_affected g d = count_where g d.jobs

pub record Submission : Type 0 where
  pub input_files : String
  pub args : String
  pub output_filename : String
  pub auto_hw : Bool
  pub streaming_output : Bool
  pub budget : Option ℕ
  pub direct_paths : String

abbrev found : Option Job → Result Job
found none = err job_not_found
found (some j) = ok j

unfoldable pub get_job : String → Database → Result Job
get_job id d = found (find_where (λ j. j.id == id) d.jobs)

unfoldable pub job_exists : String → Database → Bool
job_exists id d = exists_where (λ j. j.id == id) d.jobs

unfoldable pub new_job : String → ℕ → Submission → Job
new_job id now s = record {
  id = id;
  status = pending;
  input_files = s.input_files;
  args = s.args;
  output_filename = s.output_filename;
  streaming_output = s.streaming_output;
  output_files = "[]";
  worker_id = none;
  assigned_worker = none;
  worker_name = none;
  exit_code = none;
  error = none;
  failure_type = blank;
  failure_details = "";
  retryable = false;
  auto_hw = s.auto_hw;
  cached = false;
  budget = s.budget;
  direct_paths = s.direct_paths;
  progress_percent = 0;
  eta_seconds = 0;
  created_at = now;
  updated_at = now;
  claimed_at = none;
  started_at = none;
  finished_at = none;
}

unfoldable pub new_failed_job : String → ℕ → Submission → FailureType → String → Job
unfolding new_job
new_failed_job id now s type msg = record (new_job id now s) {
  status = failed;
  exit_code = some (negative 0);
  error = some msg;
  failure_type = type;
  retryable = is_retryable type;
  finished_at = some now;
}

-- INSERT INTO jobs: a second row with one identifier breaks the primary key.
insert_job : Job → Database → Option Database
unfolding job_exists
insert_job j d = if job_exists j.id d then none else some (record d { jobs = d.jobs ++ j ∷ [] })

abbrev created : String → Database → Option Database → Database × Result Job
unfolding get_job
created id d none = (d, err sql_error)
created id d (some d') = (d', get_job id d')

unfoldable pub create_job_with_streaming :
    String → ℕ → Submission → Database → Database × Result Job
unfolding insert_job new_job get_job
create_job_with_streaming id now s d = created id d (insert_job (new_job id now s) d)

abbrev notified_creation : String → Database → Option Database → Database × Result Job
unfolding get_job
notified_creation id d none = (d, err sql_error)
notified_creation id d (some d') = (notify_terminal id d', get_job id d')

unfoldable pub create_failed_job :
    String → ℕ → Submission → FailureType → String → Database → Database × Result Job
unfolding insert_job new_failed_job get_job
create_failed_job id now s type msg d =
    notified_creation id d (insert_job (new_failed_job id now s type msg) d)

-- `cached` is coerced to false unless the target status is completed.
unfoldable pub update_job_terminal_status_with_owner :
    ℕ → String → String → JobStatus → Report → Bool → Database → Database × Result (Unit {0})
unfolding set_terminal owned_active
update_job_terminal_status_with_owner now id worker status r cached d =
    let name = select_name worker d.workers in
    let g = owned_active id worker in
    let d' =
      update_jobs g (set_terminal now worker name status r (is_completed status && cached)) d in
    if eqb (rows_affected g d) 0 then (d', err job_not_owned) else (notify_terminal id d', ok tt)

unfoldable pub update_job_running_status_with_owner :
    ℕ → String → String → Report → Database → Database × Result (Unit {0})
unfolding set_running owned_active
update_job_running_status_with_owner now id worker r d =
    let g = owned_active id worker in
    (
      update_jobs g (set_running now r) d,
      if eqb (rows_affected g d) 0 then err job_not_owned else ok tt,
    )

unfoldable pub assign_job_to_worker : ℕ → String → String → Database → Database × Result (Unit {0})
unfolding set_assigned assignable
assign_job_to_worker now id worker d =
    let g = assignable id in
    (
      update_jobs g (set_assigned now worker (select_name worker d.workers)) d,
      if eqb (rows_affected g d) 0 then err job_not_owned else ok tt,
    )

abbrev why_not : (JobStatus → DbError) → Result Job → DbError
why_not e (ok j) = e j.status
why_not e (err _) = job_not_found

unfoldable pub cancel_job : ℕ → String → Database → Database × Result (Unit {0})
unfolding set_cancelled open_job get_job
cancel_job now id d =
    let d' = update_jobs (open_job id) (set_cancelled now) d in
    if eqb (rows_affected (open_job id) d) 0
    then (d', err (why_not cannot_cancel (get_job id d')))
    else (notify_terminal id d', ok tt)

unfoldable pub update_job_output_with_owner :
    ℕ → String → String → String → Database → Database × Result (Unit {0})
unfolding set_output owned_active get_job
update_job_output_with_owner now id worker files d =
    let g = owned_active id worker in
    let d' = update_jobs g (set_output now files) d in
    (
      d',
      if eqb (rows_affected g d) 0
          then err (why_not (λ _. job_not_owned) (get_job id d'))
          else ok tt,
    )

unfoldable pub reschedule_job : ℕ → String → Database → Database × Result (Unit {0})
unfolding set_requeued running_job get_job
reschedule_job now id d =
    let d' = update_jobs (running_job id) (set_requeued now) d in
    (
      d',
      if eqb (rows_affected (running_job id) d) 0
          then err (why_not job_terminal (get_job id d'))
          else ok tt,
    )

unfoldable pub fail_job :
    ℕ → String → String → FailureType → Database → Database × Result (Unit {0})
unfolding set_failed open_job get_job
fail_job now id msg type d =
    let d' = update_jobs (open_job id) (set_failed now msg type) d in
    if eqb (rows_affected (open_job id) d) 0
    then (d', err (why_not job_terminal (get_job id d')))
    else (notify_terminal id d', ok tt)

module _ (u : UuidLibrary) where
  -- The owner's identifier is compared in its normal form.
  reports_for : String → Option String → Bool
  unfolding normalize_worker_id
  reports_for worker none = false
  reports_for worker (some owner) = normalize_worker_id u owner == normalize_worker_id u worker

  abbrev rejected_progress : String → Result Job → Result Bool
  unfolding reports_for
  rejected_progress worker (err _) = err job_not_found
  rejected_progress worker (ok j) =
      if not (reports_for worker j.worker_id) || not (is_active j.status)
      then err job_not_owned
      else ok false

  -- The answer tells whether the report was written.
  unfoldable pub update_job_progress_with_owner :
      ℕ → String → String → ℕ → ℕ → Database → Database × Result Bool
  unfolding set_progress not_ahead get_job rejected_progress
  update_job_progress_with_owner now id worker progress eta d =
      let g = not_ahead id worker progress in
      let d' = update_jobs g (set_progress now progress eta) d in
      (d', if ltb 0 (rows_affected g d) then ok true else rejected_progress worker (get_job id d'))

unfoldable pub get_pending_jobs : ℕ → Database → List Job
get_pending_jobs limit d =
    take limit (order_by (λ j. j.created_at) (select (λ j. is_pending j.status) d.jobs))

abbrev before : ℕ → Option ℕ → Bool
before cutoff none = false
before cutoff (some t) = ltb t cutoff

-- The cutoff is now - timeout.
unfoldable pub get_timed_out_jobs : ℕ → Database → List Job
get_timed_out_jobs cutoff d = select (λ j. is_running j.status && before cutoff j.started_at) d.jobs
