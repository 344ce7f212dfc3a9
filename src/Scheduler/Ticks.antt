-- ===== src/Scheduler/Ticks.antt =====
-- The periodic checks of pkg/server/scheduler/scheduler.go: checkTimeouts, sweepStuckJobs and
-- checkNoWorkerStarvation. Formatting belongs to Go's fmt, identifiers to uuid.New: parameters here.
use rffmpeg.Base.{
  ℕ, ◌+◌, ◌-◌, String, Bool, false, Option, none, some, List, [], ◌∷◌, ◌++◌, ◌==◌, leb,
  if◌then◌else◌,
}
use rffmpeg.Base.Tables.{exists_where}
use rffmpeg.Protocol.{exec_timeout, Result, ok, err}
use rffmpeg.Db.{Database, Job, Worker, notify_terminal}
use rffmpeg.Db.Jobs.{fail_job, get_pending_jobs, get_timed_out_jobs}
use rffmpeg.Db.Sweeps.{
  Verdict, get_stuck_active_jobs, fail_stuck_active_jobs, get_starved_pending_jobs,
  fail_starved_pending_jobs,
}
use rffmpeg.Db.Migrations.{get_job_timeout_retry_count, record_job_timeout_migration}
use rffmpeg.Db.Workers.{get_live_schedulable_workers}
use rffmpeg.Scheduler.{Config, Notice, State, broadcast_failed, release_job_stream}
use rffmpeg.Scheduler.Selection.{window}

-- The texts that fmt.Sprintf gives for a number of retries and for a duration, and the identifiers of
-- the event and of the row that a requeue of a job writes.
pub record Host : Type 0 where
  pub timeout_msg : ℕ → String
  pub stuck_msg : ℕ → String
  pub no_worker_msg : ℕ → String
  pub event_id : String → String
  pub row_id : String → String

abbrev pub owner_or_empty : Option String → String
owner_or_empty none = ""
owner_or_empty (some w) = w

unfoldable pub notify : List Notice → State → State
notify ns s = record s { notices = s.notices ++ ns }

-- The stream is released once the job has failed.
abbrev pub after_failure : String → State → Database × Result (Unit {0}) → State
after_failure id s (d, ok _) = notify (release_job_stream id ∷ []) (record s { db = d })
after_failure id s (d, err e) = record s { db = d }

module _ (host : Host) (config : Config) (now : ℕ) where
  -- One timed-out job: failed once its retries are used up, else requeued.
  unfoldable pub check_timeout : Job → State → State
  unfolding get_job_timeout_retry_count fail_job record_job_timeout_migration notify
  check_timeout j s =
      let retries = get_job_timeout_retry_count j.id s.db in
      if leb config.max_timeout_retries retries
      then after_failure j.id s
          (fail_job now j.id (host.timeout_msg config.max_timeout_retries) exec_timeout s.db)
      else record s {
        db =
            (record_job_timeout_migration now (host.event_id j.id) host.row_id
              (owner_or_empty j.worker_id) j.id (retries + 1) s.db).0;
      }

  unfoldable pub check_each : List Job → State → State
  unfolding check_timeout
  check_each [] s = s
  check_each (j ∷ js) s = check_each js (check_timeout j s)

  unfoldable pub check_timeouts : State → State
  unfolding check_each get_timed_out_jobs
  check_timeouts s = check_each (get_timed_out_jobs (now - config.job_timeout) s.db) s

-- The map from identifier to classification: of equal identifiers the last one counts.
unfoldable pub crashed_of : List Verdict → String → Bool
crashed_of [] id = false
crashed_of (v ∷ vs) id =
    let later = crashed_of vs id in
    if exists_where (λ (w : Verdict). w.id == id) vs
    then later
    else if v.id == id
    then v.crashed
    else false

-- One verdict: the broadcast, the release of the stream, the terminal notification.
unfoldable pub announce : String → String → State → State
unfolding notify
announce id msg s =
    notify (broadcast_failed id msg ∷ release_job_stream id ∷ [])
      (record s { db = notify_terminal id s.db })

unfoldable pub announce_all : List Verdict → String → String → List String → State → State
unfolding crashed_of announce
announce_all vs msg crash_msg [] s = s
announce_all vs msg crash_msg (id ∷ ids) s =
    announce_all vs msg crash_msg ids (announce id (if crashed_of vs id then crash_msg else msg) s)

abbrev pub stuck_crash_msg : String
stuck_crash_msg =
    "worker went offline or disappeared before finishing the job and no surviving worker took over"

abbrev pub crash_starvation_err_msg : String
crash_starvation_err_msg =
    "worker crashed (heartbeat timeout) and no surviving worker to take over the job"

module _ (host : Host) (now : ℕ) where
  abbrev pub sweep_after : ℕ → State → State
  sweep_after limit s =
      let stuck = get_stuck_active_jobs (now - limit) s.db in
      let (d, failed) =
        fail_stuck_active_jobs now (now - limit) stuck (host.stuck_msg limit) stuck_crash_msg
          s.db in
      announce_all stuck (host.stuck_msg limit) stuck_crash_msg failed (record s { db = d })

  abbrev pub sweep_within : Option ℕ → State → State
  sweep_within none s = s
  sweep_within (some limit) s = sweep_after limit s

  unfoldable pub sweep_stuck_jobs : Config → State → State
  unfolding get_stuck_active_jobs fail_stuck_active_jobs announce_all
  sweep_stuck_jobs config s = sweep_within config.stuck_job_timeout s

  abbrev pub starve_after : ℕ → State → State
  starve_after limit s =
      let msg = host.no_worker_msg limit in
      let starved = get_starved_pending_jobs (now - limit) "heartbeat_timeout" s.db in
      let (d, failed) =
        fail_starved_pending_jobs now (now - limit) starved msg crash_starvation_err_msg s.db in
      announce_all starved msg crash_starvation_err_msg failed (record s { db = d })

  -- Only with a pending job and without a worker that is alive.
  abbrev pub starve_judged : ℕ → List Job → List Worker → State → State
  starve_judged limit [] ws s = s
  starve_judged limit (j ∷ js) (w ∷ ws) s = s
  starve_judged limit (j ∷ js) [] s = starve_after limit s

  abbrev pub starve_unless_live : Config → Option ℕ → State → State
  starve_unless_live config none s = s
  starve_unless_live config (some limit) s =
      starve_judged limit (get_pending_jobs 1 s.db)
        (get_live_schedulable_workers (window now config.heartbeat_freshness) s.db) s

  unfoldable pub check_no_worker_starvation : Config → State → State
  unfolding get_pending_jobs get_live_schedulable_workers get_starved_pending_jobs
      fail_starved_pending_jobs announce_all
  check_no_worker_starvation config s = starve_unless_live config config.no_worker_job_timeout s
