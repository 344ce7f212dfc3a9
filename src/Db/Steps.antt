-- ===== src/Db/Steps.antt =====
-- Each method of pkg/server/db on one job is a step of the table `jobs`: it keeps the rows consistent and the
-- key, and lets rows evolve.
use rffmpeg.Base.{
  ℕ, String, Bool, true, false, ◌&&◌, ◌≡◌, arith, Bool-cases, inl, inr, if◌then◌else◌,
}
use rffmpeg.Protocol.{JobStatus, FailureType}
use rffmpeg.Db.{Database, Job, is_active, is_open, is_completed, select_name}
use rffmpeg.Db.Identity.{UuidLibrary}
use rffmpeg.Db.Statements.{
  Report, owned_active, set_terminal, open_job, set_cancelled, set_failed, running_job,
  set_requeued,
}
use rffmpeg.Db.Jobs.{
  Submission, update_jobs, new_job, new_failed_job, job_exists, create_job_with_streaming,
  create_failed_job, update_job_terminal_status_with_owner, update_job_running_status_with_owner,
  assign_job_to_worker, cancel_job, update_job_output_with_owner, reschedule_job, fail_job,
  update_job_progress_with_owner,
}
use rffmpeg.Db.Lifecycle.{
  new_job-IsConsistent, new_failed_job-IsConsistent, set_terminal-IsConsistent,
  set_running-IsConsistent, set_progress-IsConsistent, set_output-IsConsistent,
  set_assigned-IsConsistent, set_cancelled-IsConsistent, set_failed-IsConsistent,
  set_requeued-IsConsistent,
}
use rffmpeg.Db.History.{
  IsStep, IsStep-refl, update-IsStep, insert-IsStep, set_terminal-Evolves, set_running-Evolves,
  set_progress-Evolves, set_output-Evolves, set_assigned-Evolves, set_cancelled-Evolves,
  set_failed-Evolves, set_requeued-Evolves,
}

-- A step of the whole database, seen on the table of the jobs.
abbrev pub Steps : Database → Database → Type 0
Steps d d' = IsStep d.jobs d'.jobs

-- Both branches of a test are steps.
pub either {ℓ} :
    {A : Type ℓ} (d : Database) (test : Bool) (x y : Database × A)
    → Steps d x.0
    → Steps d y.0
    → Steps d (if test then x else y).0
either d true x y h k = h
either d false x y h k = k

pub create_job_with_streaming-Steps :
    (id : String) (now : ℕ) (s : Submission) (d : Database)
    → Steps d (create_job_with_streaming id now s d).0
unfolding create_job_with_streaming job_exists
create_job_with_streaming-Steps id now s d =
    elim (Bool-cases (job_exists (new_job id now s).id d)) [
      | inl e ↦ rw (e, create_job_with_streaming) (IsStep-refl d.jobs)
      | inr e ↦
          rw (e, create_job_with_streaming)
            (insert-IsStep (new_job id now s) d.jobs (new_job-IsConsistent id now s) e)
    ]

pub create_failed_job-Steps :
    (id : String) (now : ℕ) (s : Submission) (type : FailureType) (msg : String) (d : Database)
    → Steps d (create_failed_job id now s type msg d).0
unfolding create_failed_job job_exists
create_failed_job-Steps id now s type msg d =
    elim (Bool-cases (job_exists (new_failed_job id now s type msg).id d)) [
      | inl e ↦ rw (e, create_failed_job) (IsStep-refl d.jobs)
      | inr e ↦
          rw (e, create_failed_job)
            (insert-IsStep (new_failed_job id now s type msg) d.jobs
              (new_failed_job-IsConsistent id now s type msg) e)
    ]

pub terminal-Steps :
    (now : ℕ) (id worker : String) (status : JobStatus) (r : Report) (cached : Bool) (d : Database)
    → is_open status ≡ false
    → Steps d (update_job_terminal_status_with_owner now id worker status r cached d).0
unfolding update_job_terminal_status_with_owner
terminal-Steps now id worker status r cached d over = either d _ _ _ written written
  where
    written : Steps d (
        update_jobs
          (owned_active id worker)
          (set_terminal now worker
            (select_name worker d.workers)
            status
            r
            (is_completed status && cached))
          d)
    written =
        update-IsStep _ _ (λ j. set_terminal-IsConsistent id worker now _ status r cached j over)
          (λ j. set_terminal-Evolves id worker now _ status r _ j) d.jobs

pub running-Steps :
    (now : ℕ) (id worker : String) (r : Report) (d : Database)
    → Steps d (update_job_running_status_with_owner now id worker r d).0
unfolding update_job_running_status_with_owner
running-Steps now id worker r d =
    update-IsStep _ _ (set_running-IsConsistent id worker now r)
      (set_running-Evolves id worker now r) d.jobs

pub assign_job_to_worker-Steps :
    (now : ℕ) (id worker : String) (d : Database) → Steps d (assign_job_to_worker now id worker d).0
unfolding assign_job_to_worker
assign_job_to_worker-Steps now id worker d =
    update-IsStep _ _ (set_assigned-IsConsistent id worker now _)
      (set_assigned-Evolves id worker now _) d.jobs

pub cancel_job-Steps : (now : ℕ) (id : String) (d : Database) → Steps d (cancel_job now id d).0
unfolding cancel_job
cancel_job-Steps now id d = either d _ _ _ written written
  where
    written : Steps d (update_jobs (open_job id) (set_cancelled now) d)
    written =
        update-IsStep _ _ (set_cancelled-IsConsistent id now) (set_cancelled-Evolves id now) d.jobs

pub output-Steps :
    (now : ℕ) (id worker files : String) (d : Database)
    → Steps d (update_job_output_with_owner now id worker files d).0
unfolding update_job_output_with_owner
output-Steps now id worker files d =
    update-IsStep _ _ (λ j _. set_output-IsConsistent now files j)
      (set_output-Evolves id worker now files) d.jobs

-- A running job is an active one.
running_active : (id : String) (j : Job) → running_job id j ≡ true → is_active j.status ≡ true
unfolding running_job
running_active id j h = ground arith

pub requeued :
    (now : ℕ) (id : String) (d : Database)
    → Steps d (update_jobs (running_job id) (set_requeued now) d)
requeued now id d =
    update-IsStep _ _ (λ j h. set_requeued-IsConsistent now j (running_active id j h))
      (λ j h. set_requeued-Evolves now j (running_active id j h)) d.jobs

pub reschedule_job-Steps :
    (now : ℕ) (id : String) (d : Database) → Steps d (reschedule_job now id d).0
unfolding reschedule_job
reschedule_job-Steps now id d = requeued now id d

pub fail_job-Steps :
    (now : ℕ) (id msg : String) (type : FailureType) (d : Database)
    → Steps d (fail_job now id msg type d).0
unfolding fail_job
fail_job-Steps now id msg type d = either d _ _ _ written written
  where
    written : Steps d (update_jobs (open_job id) (set_failed now msg type) d)
    written =
        update-IsStep _ _ (set_failed-IsConsistent id now msg type)
          (set_failed-Evolves id now msg type) d.jobs

pub progress-Steps :
    (u : UuidLibrary) (now : ℕ) (id worker : String) (progress eta : ℕ) (d : Database)
    → Steps d (update_job_progress_with_owner u now id worker progress eta d).0
unfolding update_job_progress_with_owner
progress-Steps u now id worker progress eta d =
    update-IsStep _ _ (λ j _. set_progress-IsConsistent now progress eta j)
      (set_progress-Evolves id worker now progress eta) d.jobs
