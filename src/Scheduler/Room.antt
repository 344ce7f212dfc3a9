-- ===== src/Scheduler/Room.antt =====
-- The scheduler's assignments and the limits of the workers (scheduleJob and schedulePendingJobs of
-- pkg/server/scheduler/scheduler.go).
use rffmpeg.Base.{
  ℕ, ◌≤◌, ◌<◌, max, String, Bool, false, ◌≡◌, ◌≢◌, refl, sym, subst, Option, none, some, List, [],
  ◌∷◌, ◌==◌, arith, All, Bool-cases, inl, inr, eq_iff,
}
use rffmpeg.Base.Tables.{count_where, update_where}
use rffmpeg.Db.{Database, Job, Worker, select_name}
use rffmpeg.Db.Jobs.{assign_job_to_worker, get_pending_jobs}
use rffmpeg.Db.Statements.{assignable, set_assigned}
use rffmpeg.Db.Claims.{active_on}
use rffmpeg.Db.Workers.{Load}
use rffmpeg.Db.History.{IsKeyed}
use rffmpeg.Db.Steps.{Steps}
use rffmpeg.Db.Capacity.{assigned-active-le, assigned-active_other}
use rffmpeg.Scheduler.{Config}
use rffmpeg.Scheduler.Encoders.{GoLibrary, extract_encoder_from_args}
use rffmpeg.Scheduler.Selection.{max_jobs, choose_worker}
use rffmpeg.Scheduler.Assignment.{
  Writers, assign_chosen, schedule_job, schedule_each, schedule_pending_jobs,
}
use rffmpeg.Scheduler.Best.{OnSome}
use rffmpeg.Scheduler.Fit.{Fits, serves, choose_worker-Fits}
use rffmpeg.Scheduler.Moves.{AreSteps, after_assignment-jobs, schedule_job-Steps}

-- The worker, if it has this identifier, has at most this limit.
abbrev pub IsLimited : Config → String → ℕ → Worker → Type 0
IsLimited config x n w = w.id ≡ x → max_jobs config.max_jobs_per_worker w ≤ n

assign_chosen-workers :
    (now : ℕ) (id : String) (chosen : Option Load) (d : Database)
    → (assign_chosen now id chosen d).0.workers ≡ d.workers
unfolding assign_chosen assign_job_to_worker
assign_chosen-workers now id none d = refl
assign_chosen-workers now id (some l) d =
    let r = assign_job_to_worker now id l.worker.id d in (after_assignment-jobs id l r.0 r.1).1

-- One assignment to a worker that fitted when it was read, and has no more active jobs since.
assigned-max-le :
    (config : Config) (now : ℕ) (serving : Worker → Bool) (x id : String) (n : ℕ) (l : Load)
    (d d' : Database)
    → Fits (IsLimited config x n) serving config now d l
    → IsKeyed d'.jobs
    → count_where (active_on x) d'.jobs ≤ count_where (active_on x) d.jobs
    → count_where (active_on x) (
        update_where
          (assignable id)
          (set_assigned now l.worker.id (select_name l.worker.id d'.workers))
          d'.jobs)
      ≤ max n (count_where (active_on x) d.jobs)
assigned-max-le config now serving x id n l d d' fits k le = elim (Bool-cases (l.worker.id == x)) [
  | inl e ↦ within ((eq_iff l.worker.id x).0 e)
  | inr e ↦ omega (
    arith,
    assigned-active_other now l.worker.id (select_name l.worker.id d'.workers) x id d'.jobs
        (apart e),
  )
]
  where
    apart : (l.worker.id == x) ≡ false → x ≢ l.worker.id
    apart e h = ground (arith, e, (eq_iff l.worker.id x).1 (sym h))

    within :
        l.worker.id ≡ x
        → count_where (active_on x) (
            update_where
              (assignable id)
              (set_assigned now l.worker.id (select_name l.worker.id d'.workers))
              d'.jobs)
          ≤ max n (count_where (active_on x) d.jobs)
    within h = omega (
      arith,
      assigned-active-le now l.worker.id (select_name l.worker.id d'.workers) x id d'.jobs k,
      subst (λ y. count_where (active_on y) d.jobs < max_jobs config.max_jobs_per_worker l.worker) h
          fits.room,
      fits.registered h,
    )

assign_chosen-max-le :
    (config : Config) (now : ℕ) (serving : Worker → Bool) (x id : String) (n : ℕ)
    (chosen : Option Load) (d d' : Database)
    → OnSome (Fits (IsLimited config x n) serving config now d) chosen
    → IsKeyed d'.jobs
    → count_where (active_on x) d'.jobs ≤ count_where (active_on x) d.jobs
    → count_where (active_on x) (assign_chosen now id chosen d').0.jobs
      ≤ max n (count_where (active_on x) d.jobs)
unfolding assign_chosen assign_job_to_worker
assign_chosen-max-le config now serving x id n none d d' fits k le = omega arith
assign_chosen-max-le config now serving x id n (some l) d d' fits k le =
    let r = assign_job_to_worker now id l.worker.id d' in
    subst (λ js. count_where (active_on x) js ≤ max n (count_where (active_on x) d.jobs))
      (sym (after_assignment-jobs id l r.0 r.1).0)
      (assigned-max-le config now serving x id n l d d' fits k le)

-- Other callers give this worker no job, keep to its limit, and use the methods of the database only.
pub record Spares (config : Config) (x : String) (n : ℕ) (f : Database → Database) : Type 0 where
  pub steps : (d : Database) → Steps d (f d)
  pub no_more :
      (d : Database) → count_where (active_on x) (f d).jobs ≤ count_where (active_on x) d.jobs
  pub limited :
      (d : Database)
      → All (IsLimited config x n) d.workers
      → All (IsLimited config x n) (f d).workers

pub record AreSparing (config : Config) (x : String) (n : ℕ) (writers : Writers) : Type 0 where
  pub before_read_spares : (now : ℕ) (j : Job) → Spares config x n (writers.before_read now j)
  pub before_assign_spares : (now : ℕ) (j : Job) → Spares config x n (writers.before_assign now j)

module _ (lib : GoLibrary) (writers : Writers) (config : Config) (now : ℕ) (x : String) (n : ℕ)
    (sparing : AreSparing config x n writers) where
  -- The state at the assignment and the state at the read.
  schedule_job-max-le :
      (j : Job) (d : Database)
      → All (IsLimited config x n) d.workers
      → IsKeyed d.jobs
      → count_where (active_on x) (schedule_job lib writers config now j d).0.jobs
        ≤ max n (count_where (active_on x) d.jobs)
  unfolding schedule_job
  schedule_job-max-le j d all k =
      let s = sparing.before_assign_spares now j in
      let d' = writers.before_assign now j d in
      omega (
        arith,
        assign_chosen-max-le config now (serves lib (extract_encoder_from_args lib j.args)) x j.id n
            (choose_worker lib config now j d) d d'
            (choose_worker-Fits lib (IsLimited config x n) config now d all j) ((s.steps d).keyed k)
            (s.no_more d),
        s.no_more d,
      )

  schedule_job-IsLimited :
      (j : Job) (d : Database)
      → All (IsLimited config x n) d.workers
      → All (IsLimited config x n) (schedule_job lib writers config now j d).0.workers
  unfolding schedule_job
  schedule_job-IsLimited j d all =
      let s = sparing.before_assign_spares now j in
      let d' = writers.before_assign now j d in
      subst (All (IsLimited config x n))
        (sym (assign_chosen-workers now j.id (choose_worker lib config now j d) d'))
        (s.limited d all)

  are_steps : AreSteps writers
  are_steps = record {
    before_read_steps = λ at j d. (sparing.before_read_spares at j).steps d;
    before_assign_steps = λ at j d. (sparing.before_assign_spares at j).steps d;
  }

  schedule_each-max-le :
      (js : List Job) (d : Database)
      → All (IsLimited config x n) d.workers
      → IsKeyed d.jobs
      → count_where (active_on x) (schedule_each lib writers config now js d).jobs
        ≤ max n (count_where (active_on x) d.jobs)
  unfolding schedule_each
  schedule_each-max-le [] d all k = omega arith
  schedule_each-max-le (j ∷ js) d all k =
      let s = sparing.before_read_spares now j in
      let d' = writers.before_read now j d in
      let all' = s.limited d all in
      let keyed = (s.steps d).keyed k in
      omega (
        arith,
        s.no_more d,
        schedule_job-max-le j d' all' keyed,
        schedule_each-max-le js (schedule_job lib writers config now j d').0
            (schedule_job-IsLimited j d' all')
            ((schedule_job-Steps lib writers are_steps config now j d').keyed keyed),
      )

  -- A scheduling run never takes a worker past its limit: where the rows of this worker have at most
  -- this limit and no identifier stands in two rows of the job table, the worker has afterwards at
  -- most the larger of the limit and the active jobs it had before. Other callers may act before each read of
  -- the candidates and between it and the assignment, as long as they give this worker no job and leave its
  -- limit; a pull of the worker in between is not one of these.
  pub schedule-max-le :
      (d : Database)
      → All (IsLimited config x n) d.workers
      → IsKeyed d.jobs
      → count_where (active_on x) (schedule_pending_jobs lib writers config now d).jobs
        ≤ max n (count_where (active_on x) d.jobs)
  unfolding schedule_pending_jobs
  schedule-max-le d all k = schedule_each-max-le (get_pending_jobs 100 d) d all k
