-- ===== src/Db/Lifecycle.antt =====
-- What holds of every row of the table `jobs`, and that each statement of pkg/server/db keeps it.
use rffmpeg.Base.{ℕ, String, Bool, true, false, ◌&&◌, ◌≡◌, refl, Option, none, arith}
use rffmpeg.Protocol.{JobStatus, FailureType, is_retryable}
use rffmpeg.Db.{Job, is_active, is_pending, is_running, is_completed, is_open, coalesce}
use rffmpeg.Base.{is_some, not}
use rffmpeg.Db.Statements.{
  Report, retryable_case, owned_active, set_terminal, set_running, set_progress, set_output,
  assignable, set_assigned, open_job, set_cancelled, set_failed, null_if_blank, set_requeued,
  set_reset, starved, set_starved, set_stuck, set_crashed,
}
use rffmpeg.Db.Jobs.{Submission, new_job, new_failed_job}

-- A pending job has no owner and no clock running; an active one has an owner and a claim; a running
-- one has a start; a finish time stands exactly on the jobs that are over; only a completed job is
-- served from the cache; the retry flag is the one of the failure type.
pub record IsConsistent (j : Job) : Type 0 where
  pub pending_unowned : is_pending j.status ≡ true → j.worker_id ≡ none
  pub pending_unclaimed : is_pending j.status ≡ true → j.claimed_at ≡ none
  pub pending_unstarted : is_pending j.status ≡ true → j.started_at ≡ none
  pub active_owned : is_active j.status ≡ true → is_some j.worker_id ≡ true
  pub active_claimed : is_active j.status ≡ true → is_some j.claimed_at ≡ true
  pub running_started : is_running j.status ≡ true → is_some j.started_at ≡ true
  pub finished_over : is_some j.finished_at ≡ not (is_open j.status)
  pub cached_completed : j.cached ≡ true → is_completed j.status ≡ true
  pub retryable_typed : j.retryable ≡ is_retryable j.failure_type

-- The list of failure types in the SQL text is the one of FailureType.Retryable.
pub retryable_case-is_retryable : (f : FailureType) → retryable_case f ≡ is_retryable f
unfolding retryable_case is_retryable
retryable_case-is_retryable FailureType.exec_timeout = refl
retryable_case-is_retryable _ = refl

pub new_job-IsConsistent :
    (id : String) (now : ℕ) (s : Submission) → IsConsistent (new_job id now s)
unfolding new_job is_retryable
new_job-IsConsistent id now s = ground arith

pub new_failed_job-IsConsistent :
    (id : String) (now : ℕ) (s : Submission) (type : FailureType) (msg : String)
    → IsConsistent (new_failed_job id now s type msg)
unfolding new_failed_job
new_failed_job-IsConsistent id now s type msg = ground arith

pub owned_active-is_active :
    (id worker : String) (j : Job) → owned_active id worker j ≡ true → is_active j.status ≡ true
unfolding owned_active
owned_active-is_active id worker j h = ground arith

-- The flag that an update computes in SQL from the type given or kept.
kept_type :
    (r : Option FailureType) (f : FailureType)
    → retryable_case (coalesce r f) ≡ is_retryable (coalesce r f)
kept_type r f = retryable_case-is_retryable (coalesce r f)

pub set_terminal-IsConsistent :
    (id worker : String) (now : ℕ) (name : Option String) (status : JobStatus) (r : Report)
    (cached : Bool) (j : Job)
    → is_open status ≡ false
    → owned_active id worker j ≡ true
    → IsConsistent j
    → IsConsistent (set_terminal now worker name status r (is_completed status && cached) j)
unfolding set_terminal owned_active
set_terminal-IsConsistent id worker now name status r cached j over act c =
    ground (arith, kept_type r.failure_type j.failure_type)

pub set_running-IsConsistent :
    (id worker : String) (now : ℕ) (r : Report) (j : Job)
    → owned_active id worker j ≡ true
    → IsConsistent j
    → IsConsistent (set_running now r j)
unfolding set_running owned_active
set_running-IsConsistent id worker now r j act c =
    ground (arith, kept_type r.failure_type j.failure_type)

pub set_progress-IsConsistent :
    (now progress eta : ℕ) (j : Job)
    → IsConsistent j
    → IsConsistent (set_progress now progress eta j)
unfolding set_progress
set_progress-IsConsistent now progress eta j c = ground arith

pub set_output-IsConsistent :
    (now : ℕ) (files : String) (j : Job) → IsConsistent j → IsConsistent (set_output now files j)
unfolding set_output
set_output-IsConsistent now files j c = ground arith

pub set_assigned-IsConsistent :
    (id worker : String) (now : ℕ) (name : Option String) (j : Job)
    → assignable id j ≡ true
    → IsConsistent j
    → IsConsistent (set_assigned now worker name j)
unfolding set_assigned assignable
set_assigned-IsConsistent id worker now name j free c = ground arith

pub set_cancelled-IsConsistent :
    (id : String) (now : ℕ) (j : Job)
    → open_job id j ≡ true
    → IsConsistent j
    → IsConsistent (set_cancelled now j)
unfolding set_cancelled open_job
set_cancelled-IsConsistent id now j o c = ground arith

pub set_failed-IsConsistent :
    (id : String) (now : ℕ) (msg : String) (type : FailureType) (j : Job)
    → open_job id j ≡ true
    → IsConsistent j
    → IsConsistent (set_failed now msg type j)
unfolding set_failed open_job
set_failed-IsConsistent id now msg type j o c =
    ground (arith, kept_type (null_if_blank type) j.failure_type)

pub set_requeued-IsConsistent :
    (now : ℕ) (j : Job)
    → is_active j.status ≡ true
    → IsConsistent j
    → IsConsistent (set_requeued now j)
unfolding set_requeued
set_requeued-IsConsistent now j act c = ground arith

pub set_reset-IsConsistent :
    (id worker : String) (now : ℕ) (j : Job)
    → owned_active id worker j ≡ true
    → IsConsistent j
    → IsConsistent (set_reset now j)
unfolding set_reset owned_active is_retryable
set_reset-IsConsistent id worker now j act c = ground arith

pub set_starved-IsConsistent :
    (cutoff now : ℕ) (msg : String) (type : FailureType) (j : Job)
    → starved cutoff j ≡ true
    → IsConsistent j
    → IsConsistent (set_starved now msg type j)
unfolding set_starved starved
set_starved-IsConsistent cutoff now msg type j s c = ground arith

pub set_stuck-IsConsistent :
    (now : ℕ) (msg : String) (type : FailureType) (j : Job)
    → is_active j.status ≡ true
    → IsConsistent j
    → IsConsistent (set_stuck now msg type j)
unfolding set_stuck
set_stuck-IsConsistent now msg type j act c = ground arith

pub set_crashed-IsConsistent :
    (id worker : String) (now : ℕ) (msg : String) (j : Job)
    → owned_active id worker j ≡ true
    → IsConsistent j
    → IsConsistent (set_crashed now msg j)
unfolding set_crashed owned_active is_retryable
set_crashed-IsConsistent id worker now msg j act c = ground arith
