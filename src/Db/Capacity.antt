-- ===== src/Db/Capacity.antt =====
-- The bounds of the pull of a worker (AssignPendingJobsToWorker of pkg/server/db/jobs.go).
use rffmpeg.Base.{
  ℕ, ◌+◌, ◌-◌, ◌≤◌, max, String, true, ◌≡◌, ◌≢◌, refl, sym, ◌∙◌, Option, List, [], ◌∷◌, ◌==◌, arith,
  All, Bool-cases, inl, inr, length, length-take-le, eq_iff, eq_refl, All-append, eqb, and_left,
}
use rffmpeg.Base.Tables.{
  update_where, select, count_where, count-update-le, count-update_same, count_mono, All-order_by,
  select-passes,
}
use rffmpeg.Db.{Database, Job, select_name}
use rffmpeg.Db.Identity.{UuidLibrary, normalize_worker_id}
use rffmpeg.Db.Statements.{assignable, set_assigned, pending_unassigned}
use rffmpeg.Db.Jobs.{rows_affected}
use rffmpeg.Db.Claims.{
  active_on, delivered_to, claim, claim_jobs, claimed_row, candidates,
  assign_pending_jobs_to_worker, get_worker_active_job_count, by_creation,
}
use rffmpeg.Db.History.{IsKeyed}
use rffmpeg.Db.Batches.{claim-Steps, record_targets-jobs, mark_busy-jobs}

assignable_id : (id : String) (i : Job) → assignable id i ≡ true → (i.id == id) ≡ true
unfolding assignable
assignable_id id i h = and_left (i.id == id) (pending_unassigned i) h

-- One assignment makes at most one more job active, for any worker.
pub assigned-active-le :
    (now : ℕ) (worker : String) (name : Option String) (w id : String) (js : List Job)
    → IsKeyed js
    → count_where (active_on w) (update_where (assignable id) (set_assigned now worker name) js)
      ≤ count_where (active_on w) js + 1
assigned-active-le now worker name w id js k = omega (
  arith,
  count-update-le (active_on w) (assignable id) (set_assigned now worker name) js,
  count_mono (assignable id) (λ (i : Job). i.id == id) (λ i h. assignable_id id i h) js,
  k id,
)

claim-active-le :
    (now : ℕ) (worker w : String) (j : Job) (d : Database)
    → IsKeyed d.jobs
    → count_where (active_on w) (claim now worker j d).jobs ≤ count_where (active_on w) d.jobs + 1
unfolding claim
claim-active-le now worker w j d k =
    assigned-active-le now worker (select_name worker d.workers) w j.id d.jobs k

claim_jobs-active-le :
    (now : ℕ) (worker name w : String) (js : List Job) (d : Database)
    → IsKeyed d.jobs
    → count_where (active_on w) (claim_jobs now worker name js d).0.jobs
      ≤ count_where (active_on w) d.jobs + length js
unfolding claim_jobs
claim_jobs-active-le now worker name w [] d k = omega arith
claim_jobs-active-le now worker name w (j ∷ js) d k = omega (
  arith,
  claim-active-le now worker w j d k,
  claim_jobs-active-le now worker name w js (claim now worker j d)
      ((claim-Steps now worker j d).keyed k),
)

-- A claim for one worker touches no job of another.
claim_other :
    (now : ℕ) (worker w id : String) (name : Option String) (j : Job)
    → w ≢ worker
    → assignable id j ≡ true
    → active_on w (set_assigned now worker name j) ≡ active_on w j
unfolding active_on set_assigned assignable
claim_other now worker w id name j h a = elim (Bool-cases (worker == w)) [
  | inl e ↦ absurd (h (sym ((eq_iff worker w).0 e)))
  | inr e ↦ ground arith
]

pub assigned-active_other :
    (now : ℕ) (worker : String) (name : Option String) (w id : String) (js : List Job)
    → w ≢ worker
    → count_where (active_on w) (update_where (assignable id) (set_assigned now worker name) js)
      ≡ count_where (active_on w) js
assigned-active_other now worker name w id js h =
    count-update_same (active_on w) (assignable id) _ (λ i a. claim_other now worker w id _ i h a)
      js

claim_jobs-active_other :
    (now : ℕ) (worker name w : String)
    → w ≢ worker
    → (js : List Job) (d : Database)
    → count_where (active_on w) (claim_jobs now worker name js d).0.jobs
      ≡ count_where (active_on w) d.jobs
unfolding claim_jobs claim
claim_jobs-active_other now worker name w h [] d = refl
claim_jobs-active_other now worker name w h (j ∷ js) d =
    claim_jobs-active_other now worker name w h js (claim now worker j d)
    ∙ assigned-active_other now worker _ w j.id d.jobs h

claimed-delivered :
    (now : ℕ) (worker name : String) (j : Job)
    → delivered_to worker (claimed_row now worker name j) ≡ true
unfolding delivered_to claimed_row
claimed-delivered now worker name j = rw (eq_refl worker)

claim_jobs-delivered :
    (now : ℕ) (worker name : String) (js : List Job) (d : Database)
    → All (λ j. delivered_to worker j ≡ true) (claim_jobs now worker name js d).1
unfolding claim_jobs
claim_jobs-delivered now worker name [] d = tt
claim_jobs-delivered now worker name (j ∷ js) d =
    elim (Bool-cases (eqb (rows_affected (assignable j.id) d) 0)) [
      | inl e ↦ rw e (claim_jobs-delivered now worker name js (claim now worker j d))
      | inr e ↦ rw e (
        claimed-delivered now worker name j,
        claim_jobs-delivered now worker name js (claim now worker j d),
      )
    ]

candidates-length :
    (worker : String) (n : ℕ) (d : Database)
    → length (candidates worker n d) ≤ n - count_where (active_on worker) d.jobs
unfolding candidates
candidates-length worker n d = length-take-le _ _

module _ (u : UuidLibrary) where
  -- A pull never takes a worker past its limit: after it the worker has at most the larger of the
  -- limit and the active jobs it had before. This holds where no identifier stands in two rows.
  pub active-pull-le :
      (now : ℕ) (id : String) (n : ℕ) (d : Database)
      → IsKeyed d.jobs
      → get_worker_active_job_count u id (assign_pending_jobs_to_worker u now id n d).0
        ≤ max n (get_worker_active_job_count u id d)
  unfolding get_worker_active_job_count assign_pending_jobs_to_worker
  active-pull-le now id n d k =
      let w = normalize_worker_id u id in
      rw (record_targets-jobs, mark_busy-jobs)
        (omega
          (arith, claim_jobs-active-le now w _ w (candidates w n d) d k, candidates-length w n d))

  -- A pull by one worker leaves the number of active jobs of every other worker as it was.
  pub active-pull_other :
      (now : ℕ) (id other : String) (n : ℕ) (d : Database)
      → normalize_worker_id u other ≢ normalize_worker_id u id
      → get_worker_active_job_count u other (assign_pending_jobs_to_worker u now id n d).0
        ≡ get_worker_active_job_count u other d
  unfolding get_worker_active_job_count assign_pending_jobs_to_worker
  active-pull_other now id other n d h =
      let w = normalize_worker_id u id in
      rw (record_targets-jobs, mark_busy-jobs)
        (claim_jobs-active_other now w _ (normalize_worker_id u other) h (candidates w n d) d)

  -- Every job that a pull hands to the worker is pending or queued with this worker as its owner.
  pub pull-delivered :
      (now : ℕ) (id : String) (n : ℕ) (d : Database)
      → All
          (λ j. delivered_to (normalize_worker_id u id) j ≡ true)
          (assign_pending_jobs_to_worker u now id n d).1
  unfolding assign_pending_jobs_to_worker
  pull-delivered now id n d =
      let w = normalize_worker_id u id in
      All-append (λ j. delivered_to w j ≡ true) (by_creation (select (delivered_to w) d.jobs)) _
        (All-order_by (λ j. delivered_to w j ≡ true) _ _ (select-passes (delivered_to w) d.jobs))
        (claim_jobs-delivered now w _ (candidates w n d) d)
