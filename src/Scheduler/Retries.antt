-- ===== src/Scheduler/Retries.antt =====
-- The budget of timeout retries in checkTimeouts of pkg/server/scheduler/scheduler.go.
use rffmpeg.Base.{
  ℕ, ◌+◌, ◌-◌, ◌≤◌, String, false, ◌≡◌, refl, subst, List, [], ◌∷◌, ◌==◌, arith, Bool-cases, inl,
  inr, eq_iff, leb, eqb, if◌then◌else◌,
}
use rffmpeg.Base.Tables.{count_where, exists_where, count-append}
use rffmpeg.Protocol.{FailureType, exec_timeout}
use rffmpeg.Db.{Database, Job}
use rffmpeg.Db.Statements.{open_job, running_job}
use rffmpeg.Db.Jobs.{fail_job, rows_affected, get_timed_out_jobs}
use rffmpeg.Db.Migrations.{
  is_timeout, get_job_timeout_retry_count, record_job_timeout_migration, insert_migration_event,
  insert_redistributions,
}
use rffmpeg.Scheduler.{Config, State}
use rffmpeg.Scheduler.Ticks.{
  Host, notify, after_failure, owner_or_empty, check_timeout, check_each, check_timeouts,
}

-- A failure writes no migration event.
fail_job-events :
    (now : ℕ) (id msg : String) (type : FailureType) (s : State)
    → (after_failure id s (fail_job now id msg type s.db)).db.migration_events
      ≡ s.db.migration_events
unfolding fail_job notify
fail_job-events now id msg type s = elim (Bool-cases (eqb (rows_affected (open_job id) s.db) 0)) [
  | inl e ↦ rw e refl
  | inr e ↦ rw e refl
]

-- A requeue writes at most one more event for a job, and only for its own.
requeue-count :
    (now : ℕ) (event_id : String) (row_id : String → String) (worker id : String) (n : ℕ)
    (d : Database) (x : String)
    → get_job_timeout_retry_count x
        (record_job_timeout_migration now event_id row_id worker id n d).0
      ≤ get_job_timeout_retry_count x d + (if id == x then 1 else 0)
unfolding record_job_timeout_migration get_job_timeout_retry_count insert_migration_event
    insert_redistributions count_where exists_where is_timeout
requeue-count now event_id row_id worker id n d x =
    elim (Bool-cases (eqb (rows_affected (running_job id) d) 0)) [
      | inl e ↦ rw e (omega arith)
      | inr e ↦ rw (e, count-append) (ground arith)
    ]

module _ (host : Host) (config : Config) (now : ℕ) where
  within :
      (j : Job) (s : State)
      → ((x : String) → get_job_timeout_retry_count x s.db ≤ config.max_timeout_retries)
      → leb config.max_timeout_retries (get_job_timeout_retry_count j.id s.db) ≡ false
      → (x : String)
      → get_job_timeout_retry_count x s.db + (if j.id == x then 1 else 0)
        ≤ config.max_timeout_retries
  within j s h e x = elim (Bool-cases (j.id == x)) [
    | inl q ↦ rw q (
        subst (λ y. get_job_timeout_retry_count y s.db + 1 ≤ config.max_timeout_retries)
          ((eq_iff j.id x).0 q) (ground (arith, e)))
    | inr q ↦ rw q (omega (arith, h x))
  ]

  check_timeout-budget :
      (j : Job) (s : State)
      → ((x : String) → get_job_timeout_retry_count x s.db ≤ config.max_timeout_retries)
      → (x : String)
      → get_job_timeout_retry_count x (check_timeout host config now j s).db
        ≤ config.max_timeout_retries
  unfolding check_timeout get_job_timeout_retry_count
  check_timeout-budget j s h x =
      let msg = host.timeout_msg config.max_timeout_retries in
      elim (Bool-cases (leb config.max_timeout_retries (get_job_timeout_retry_count j.id s.db))) [
        | inl e ↦ rw (e, check_timeout, fail_job-events now j.id msg exec_timeout s) (h x)
        | inr e ↦
            rw (e, check_timeout)
              (omega (
                arith,
                within j s h e x,
                requeue-count now (host.event_id j.id) host.row_id (owner_or_empty j.worker_id) j.id
                    (get_job_timeout_retry_count j.id s.db + 1) s.db x,
              ))
      ]

  check_each-budget :
      (js : List Job) (s : State)
      → ((x : String) → get_job_timeout_retry_count x s.db ≤ config.max_timeout_retries)
      → (x : String)
      → get_job_timeout_retry_count x (check_each host config now js s).db
        ≤ config.max_timeout_retries
  unfolding check_each
  check_each-budget [] s h x = h x
  check_each-budget (j ∷ js) s h x =
      check_each-budget js (check_timeout host config now j s) (check_timeout-budget j s h) x

  -- The timeout check never requeues a job more often than the configured number of retries: where no
  -- job has more timeout requeues than that before a check, none has after it.
  pub check_timeouts-budget :
      (s : State)
      → ((x : String) → get_job_timeout_retry_count x s.db ≤ config.max_timeout_retries)
      → (x : String)
      → get_job_timeout_retry_count x (check_timeouts host config now s).db
        ≤ config.max_timeout_retries
  unfolding check_timeouts
  check_timeouts-budget s h x =
      check_each-budget (get_timed_out_jobs (now - config.job_timeout) s.db) s h x
