-- ===== src/Scheduler/Loop.antt =====
-- The main loop of pkg/server/scheduler/scheduler.go: run and armStarvationWake. The timer itself is not
-- part of the state: the wake may come at any time.
use rffmpeg.Base.{ℕ, ◌+◌, Option, none, some, List, [], ◌∷◌, leb, if◌then◌else◌}
use rffmpeg.Db.{Worker}
use rffmpeg.Db.Workers.{get_live_schedulable_workers}
use rffmpeg.Db.Sweeps.{earliest_pending_created_at}
use rffmpeg.Scheduler.{Config, State}
use rffmpeg.Scheduler.Encoders.{GoLibrary}
use rffmpeg.Scheduler.Selection.{window}
use rffmpeg.Scheduler.Assignment.{Writers, schedule_pending_jobs}
use rffmpeg.Scheduler.Ticks.{Host, check_timeouts, sweep_stuck_jobs, check_no_worker_starvation}

-- One second, in nanoseconds.
unfoldable pub starvation_expiry_margin : ℕ
starvation_expiry_margin = 1000000000

-- The branches of the loop's select.
pub data Wake : Type 0 where
  schedule_ticker resched timeout_ticker starvation_wake : Wake

module _ (host : Host) (config : Config) (now : ℕ) where
  -- A deadline that is due is judged at once; a later one only sets the timer.
  abbrev pub judge_due : Option ℕ → Option ℕ → List Worker → State → State
  judge_due none created ws s = s
  judge_due (some limit) none ws s = s
  judge_due (some limit) (some created) (w ∷ ws) s = s
  judge_due (some limit) (some created) [] s =
      if leb (created + (limit + starvation_expiry_margin)) now
      then check_no_worker_starvation host now config s
      else s

  unfoldable pub arm_starvation_wake : State → State
  unfolding starvation_expiry_margin earliest_pending_created_at get_live_schedulable_workers
      check_no_worker_starvation
  arm_starvation_wake s =
      judge_due config.no_worker_job_timeout (earliest_pending_created_at s.db)
        (get_live_schedulable_workers (window now config.heartbeat_freshness) s.db) s

module _ (lib : GoLibrary) (writers : Writers) (host : Host) (config : Config) where
  unfoldable pub schedule : ℕ → State → State
  unfolding schedule_pending_jobs
  schedule now s = record s { db = schedule_pending_jobs lib writers config now s.db }

  unfoldable pub wake : ℕ → Wake → State → State
  unfolding schedule check_timeouts sweep_stuck_jobs check_no_worker_starvation arm_starvation_wake
  wake now schedule_ticker s = schedule now s
  wake now resched s = arm_starvation_wake host config now (schedule now s)
  wake now timeout_ticker s = arm_starvation_wake host config now (
      check_no_worker_starvation host now config
        (sweep_stuck_jobs host now config (check_timeouts host config now s)))
  wake now starvation_wake s =
      arm_starvation_wake host config now (check_no_worker_starvation host now config s)

  -- The loop for a sequence of wakes with their times, after the first arming of the timer.
  unfoldable pub run_loop : List (ℕ × Wake) → State → State
  unfolding wake
  run_loop [] s = s
  run_loop ((now, w) ∷ wakes) s = run_loop wakes (wake now w s)
