-- ===== src/Scheduler/Moves.antt =====
-- The scheduler's actions seen on the table of the jobs: each is a step of the database's state machine
-- (pkg/server/scheduler/scheduler.go).
use rffmpeg.Base.{
  All, Extends, ℕ, ◌+◌, ◌-◌, String, ◌≡◌, refl, sym, subst, Option, none, some, List, [], ◌∷◌, leb,
  Bool-cases, inl, inr,
}
use rffmpeg.Protocol.{
  Result, ok, err, job_not_owned, job_not_found, worker_not_found, sql_error, cannot_cancel,
  job_terminal, exec_timeout,
}
use rffmpeg.Db.{Database, Job, Worker}
use rffmpeg.Db.Jobs.{assign_job_to_worker, fail_job, get_timed_out_jobs, get_pending_jobs}
use rffmpeg.Db.Claims.{record_migration_target}
use rffmpeg.Db.Workers.{Load, get_live_schedulable_workers}
use rffmpeg.Db.Sweeps.{
  Verdict, get_stuck_active_jobs, get_starved_pending_jobs, earliest_pending_created_at,
}
use rffmpeg.Db.Migrations.{get_job_timeout_retry_count}
use rffmpeg.Db.Lifecycle.{IsConsistent}
use rffmpeg.Db.History.{Evolves, IsStep, IsStep-refl, IsStep-trans}
use rffmpeg.Db.Steps.{Steps, assign_job_to_worker-Steps, fail_job-Steps}
use rffmpeg.Db.Batches.{timeout_migration-Steps, fail_starved-Steps, fail_stuck-Steps}
use rffmpeg.Scheduler.{Config, State}
use rffmpeg.Scheduler.Encoders.{GoLibrary}
use rffmpeg.Scheduler.Selection.{choose_worker, window}
use rffmpeg.Scheduler.Assignment.{
  Writers, after_assignment, assign_chosen, schedule_job, schedule_each, schedule_pending_jobs,
}
use rffmpeg.Scheduler.Loop.{
  Wake, schedule_ticker, resched, timeout_ticker, starvation_wake, starvation_expiry_margin,
  judge_due, arm_starvation_wake, schedule, wake, run_loop,
}
use rffmpeg.Scheduler.Ticks.{
  Host, notify, after_failure, starve_judged, check_timeout, check_each, check_timeouts, announce,
  announce_all, sweep_within, sweep_stuck_jobs, starve_after, starve_unless_live,
  check_no_worker_starvation, owner_or_empty, stuck_crash_msg, crash_starvation_err_msg,
}

-- The assignment's aftermath changes neither jobs nor workers.
pub after_assignment-jobs :
    (id : String) (w : Load) (d : Database) (r : Result (Unit {0}))
    → ((after_assignment id w (d, r)).0.jobs ≡ d.jobs)
      × ((after_assignment id w (d, r)).0.workers ≡ d.workers)
unfolding after_assignment record_migration_target
after_assignment-jobs id w d (ok _) = (refl, refl)
after_assignment-jobs id w d (err job_not_owned) = (refl, refl)
after_assignment-jobs id w d (err job_not_found) = (refl, refl)
after_assignment-jobs id w d (err worker_not_found) = (refl, refl)
after_assignment-jobs id w d (err sql_error) = (refl, refl)
after_assignment-jobs id w d (err (cannot_cancel s)) = (refl, refl)
after_assignment-jobs id w d (err (job_terminal s)) = (refl, refl)

assign_chosen-Steps :
    (now : ℕ) (id : String) (chosen : Option Load) (d : Database)
    → Steps d (assign_chosen now id chosen d).0
unfolding assign_chosen
assign_chosen-Steps now id none d = IsStep-refl d.jobs
assign_chosen-Steps now id (some w) d =
    let r = assign_job_to_worker now id w.worker.id d in
    subst (IsStep d.jobs) (sym (after_assignment-jobs id w r.0 r.1).0)
      (assign_job_to_worker-Steps now id w.worker.id d)

-- Other callers use the methods of the database only.
pub record AreSteps (writers : Writers) : Type 0 where
  pub before_read_steps : (now : ℕ) (j : Job) (d : Database) → Steps d (writers.before_read now j d)
  pub before_assign_steps :
      (now : ℕ) (j : Job) (d : Database) → Steps d (writers.before_assign now j d)

module _ (lib : GoLibrary) (writers : Writers) (steps : AreSteps writers) (config : Config)
    (now : ℕ) where
  pub schedule_job-Steps :
      (j : Job) (d : Database) → Steps d (schedule_job lib writers config now j d).0
  unfolding schedule_job
  schedule_job-Steps j d =
      let d' = writers.before_assign now j d in
      IsStep-trans d.jobs d'.jobs _ (steps.before_assign_steps now j d)
        (assign_chosen-Steps now j.id (choose_worker lib config now j d) d')

  schedule_each-Steps :
      (js : List Job) (d : Database) → Steps d (schedule_each lib writers config now js d)
  unfolding schedule_each
  schedule_each-Steps [] d = IsStep-refl d.jobs
  schedule_each-Steps (j ∷ js) d =
      let d' = writers.before_read now j d in
      let scheduled = (schedule_job lib writers config now j d').0 in
      IsStep-trans d.jobs d'.jobs _ (steps.before_read_steps now j d) (
        IsStep-trans d'.jobs scheduled.jobs _ (schedule_job-Steps j d')
          (schedule_each-Steps js scheduled))

  schedule_pending_jobs-Steps :
      (d : Database) → Steps d (schedule_pending_jobs lib writers config now d)
  unfolding schedule_pending_jobs
  schedule_pending_jobs-Steps d = schedule_each-Steps (get_pending_jobs 100 d) d

after_failure-jobs :
    (id : String) (s : State) (d : Database) (r : Result (Unit {0}))
    → (after_failure id s (d, r)).db.jobs ≡ d.jobs
unfolding notify
after_failure-jobs id s d (ok _) = refl
after_failure-jobs id s d (err e) = refl

module _ (host : Host) (config : Config) (now : ℕ) where
  check_timeout-Steps : (j : Job) (s : State) → Steps s.db (check_timeout host config now j s).db
  unfolding check_timeout
  check_timeout-Steps j s =
      let msg = host.timeout_msg config.max_timeout_retries in
      elim (Bool-cases (leb config.max_timeout_retries (get_job_timeout_retry_count j.id s.db))) [
        | inl e ↦
            rw (e, check_timeout)
              (subst (IsStep s.db.jobs)
                (sym (after_failure-jobs j.id s _ (fail_job now j.id msg exec_timeout s.db).1))
                (fail_job-Steps now j.id msg exec_timeout s.db))
        | inr e ↦
            rw (e, check_timeout)
              (timeout_migration-Steps now (host.event_id j.id) host.row_id
                (owner_or_empty j.worker_id) j.id (get_job_timeout_retry_count j.id s.db + 1) s.db)
      ]

  check_each-Steps : (js : List Job) (s : State) → Steps s.db (check_each host config now js s).db
  unfolding check_each
  check_each-Steps [] s = IsStep-refl s.db.jobs
  check_each-Steps (j ∷ js) s =
      IsStep-trans s.db.jobs (check_timeout host config now j s).db.jobs _ (check_timeout-Steps j s)
        (check_each-Steps js (check_timeout host config now j s))

  check_timeouts-Steps : (s : State) → Steps s.db (check_timeouts host config now s).db
  unfolding check_timeouts
  check_timeouts-Steps s = check_each-Steps (get_timed_out_jobs (now - config.job_timeout) s.db) s

announce_all-jobs :
    (vs : List Verdict) (m n : String) (ids : List String) (s : State)
    → (announce_all vs m n ids s).db.jobs ≡ s.db.jobs
unfolding announce_all announce
announce_all-jobs vs m n [] s = refl
announce_all-jobs vs m n (id ∷ ids) s = announce_all-jobs vs m n ids (announce id _ s)

module _ (host : Host) (config : Config) (now : ℕ) where
  sweep_within-Steps :
      (limit : Option ℕ) (s : State) → Steps s.db (sweep_within host now limit s).db
  sweep_within-Steps none s = IsStep-refl s.db.jobs
  sweep_within-Steps (some limit) s =
      let stuck = get_stuck_active_jobs (now - limit) s.db in
      subst (IsStep s.db.jobs) (sym (announce_all-jobs stuck _ _ _ _))
        (fail_stuck-Steps now (now - limit) stuck (host.stuck_msg limit) stuck_crash_msg s.db)

  sweep_stuck_jobs-Steps : (s : State) → Steps s.db (sweep_stuck_jobs host now config s).db
  unfolding sweep_stuck_jobs
  sweep_stuck_jobs-Steps s = sweep_within-Steps config.stuck_job_timeout s

  starve_after-Steps : (limit : ℕ) (s : State) → Steps s.db (starve_after host now limit s).db
  starve_after-Steps limit s =
      let starved = get_starved_pending_jobs (now - limit) "heartbeat_timeout" s.db in
      subst (IsStep s.db.jobs) (sym (announce_all-jobs starved _ _ _ _)) (
        fail_starved-Steps now (now - limit) starved (host.no_worker_msg limit)
          crash_starvation_err_msg s.db)

  starve_judged-Steps :
      (limit : ℕ) (js : List Job) (ws : List Worker) (s : State)
      → Steps s.db (starve_judged host now limit js ws s).db
  starve_judged-Steps limit [] ws s = IsStep-refl s.db.jobs
  starve_judged-Steps limit (j ∷ js) [] s = starve_after-Steps limit s
  starve_judged-Steps limit (j ∷ js) (w ∷ ws) s = IsStep-refl s.db.jobs

  starve_unless_live-Steps :
      (limit : Option ℕ) (s : State) → Steps s.db (starve_unless_live host now config limit s).db
  starve_unless_live-Steps none s = IsStep-refl s.db.jobs
  starve_unless_live-Steps (some limit) s =
      starve_judged-Steps limit (get_pending_jobs 1 s.db)
        (get_live_schedulable_workers (window now config.heartbeat_freshness) s.db) s

  check_no_worker_starvation-Steps :
      (s : State) → Steps s.db (check_no_worker_starvation host now config s).db
  unfolding check_no_worker_starvation
  check_no_worker_starvation-Steps s = starve_unless_live-Steps config.no_worker_job_timeout s

module _ (host : Host) (config : Config) (now : ℕ) where
  judge_due-Steps :
      (limit created : Option ℕ) (ws : List Worker) (s : State)
      → Steps s.db (judge_due host config now limit created ws s).db
  judge_due-Steps none created ws s = IsStep-refl s.db.jobs
  judge_due-Steps (some limit) none ws s = IsStep-refl s.db.jobs
  judge_due-Steps (some limit) (some created) (w ∷ ws) s = IsStep-refl s.db.jobs
  judge_due-Steps (some limit) (some created) [] s =
      elim (Bool-cases (leb (created + (limit + starvation_expiry_margin)) now)) [
        | inl e ↦ rw e (check_no_worker_starvation-Steps host config now s)
        | inr e ↦ rw e (IsStep-refl s.db.jobs)
      ]

  arm-Steps : (s : State) → Steps s.db (arm_starvation_wake host config now s).db
  unfolding arm_starvation_wake
  arm-Steps s =
      judge_due-Steps config.no_worker_job_timeout (earliest_pending_created_at s.db)
        (get_live_schedulable_workers (window now config.heartbeat_freshness) s.db) s

  -- A step followed by arming the wake.
  armed-Steps :
      (s : State) (s' : State)
      → Steps s.db s'.db
      → Steps s.db (arm_starvation_wake host config now s').db
  armed-Steps s s' h = IsStep-trans s.db.jobs s'.db.jobs _ h (arm-Steps s')

module _ (lib : GoLibrary) (writers : Writers) (steps : AreSteps writers) (host : Host)
    (config : Config) where
  schedule-Steps : (now : ℕ) (s : State) → Steps s.db (schedule lib writers host config now s).db
  unfolding schedule
  schedule-Steps now s = schedule_pending_jobs-Steps lib writers steps config now s.db

  wake-Steps :
      (now : ℕ) (w : Wake) (s : State) → Steps s.db (wake lib writers host config now w s).db
  unfolding wake
  wake-Steps now schedule_ticker s = schedule-Steps now s
  wake-Steps now resched s = armed-Steps host config now s _ (schedule-Steps now s)
  wake-Steps now timeout_ticker s =
      let checked = check_timeouts host config now s in
      let swept = sweep_stuck_jobs host now config checked in
      armed-Steps host config now s (check_no_worker_starvation host now config swept) (
        IsStep-trans s.db.jobs checked.db.jobs _ (check_timeouts-Steps host config now s) (
          IsStep-trans checked.db.jobs swept.db.jobs _
            (sweep_stuck_jobs-Steps host config now checked)
            (check_no_worker_starvation-Steps host config now swept)))
  wake-Steps now starvation_wake s =
      armed-Steps host config now s (check_no_worker_starvation host now config s)
        (check_no_worker_starvation-Steps host config now s)

  run_loop-IsStep :
      (wakes : List (ℕ × Wake)) (s : State)
      → IsStep s.db.jobs (run_loop lib writers host config wakes s).db.jobs
  unfolding run_loop
  run_loop-IsStep [] s = IsStep-refl s.db.jobs
  run_loop-IsStep ((now, w) ∷ wakes) s =
      IsStep-trans s.db.jobs (wake lib writers host config now w s).db.jobs _ (wake-Steps now w s)
        (run_loop-IsStep wakes (wake lib writers host config now w s))

  -- Through any sequence of wake-ups of the scheduler's loop, at any times, the rows of the job table
  -- stay consistent where they are so at the start, whatever other callers do with the methods of the
  -- database before and within each assignment.
  pub run_loop-IsConsistent :
      (wakes : List (ℕ × Wake)) (s : State)
      → All IsConsistent s.db.jobs
      → All IsConsistent (run_loop lib writers host config wakes s).db.jobs
  run_loop-IsConsistent wakes s = (run_loop-IsStep wakes s).consistent

  -- Through any sequence of wake-ups of the scheduler's loop, at any times, each row keeps its place,
  -- its identifier and its submission, never loses progress, and stays as it is once its job is over, whatever
  -- other callers do with the methods of the database before and within each assignment.
  pub run_loop-Evolves :
      (wakes : List (ℕ × Wake)) (s : State)
      → Extends Evolves s.db.jobs (run_loop lib writers host config wakes s).db.jobs
  run_loop-Evolves wakes s = (run_loop-IsStep wakes s).evolves
