-- ===== src/Tests/Scheduling.antt =====
-- The scheduler on the small cluster: selection, assignment, ticks.
use rffmpeg.Base.{
  ◌⊎◌, inl, inr, ◌≤◌, String, ◌≡◌, refl, List, [], ◌∷◌, none, some, true, false, arith, All,
  Extends, max, map, ◌++◌, ◌==◌,
}
use rffmpeg.Base.Tables.{exists_where, order_by, update_where, select, count_where, find_where}
use rffmpeg.Protocol.{offline, err, job_not_owned, completed}
use rffmpeg.Db.{Database, Worker}
use rffmpeg.Db.Identity.{normalize_worker_id}
use rffmpeg.Db.Claims.{active_on, record_migration_target, assign_pending_jobs_to_worker}
use rffmpeg.Db.Migrations.{migrate_jobs_from_worker, get_job_timeout_retry_count}
use rffmpeg.Db.Failover.{migrate_jobs-drained}
use rffmpeg.Db.Reports.{report-migrate_jobs}
use rffmpeg.Db.Operations.{report}
use rffmpeg.Db.Lifecycle.{IsConsistent}
use rffmpeg.Db.History.{Evolves, IsStep-refl}
use rffmpeg.Db.Steps.{cancel_job-Steps}
use rffmpeg.Db.Batches.{assign_pending-Steps}
use rffmpeg.Db.Jobs.{cancel_job}
use rffmpeg.Db.Sweeps.{get_stuck_active_jobs, fail_stuck_active_jobs}
use rffmpeg.Db.Workers.{Load, live_schedulable, sort_workers_by_job_count}
use rffmpeg.Db.Ranking.{IsRanked, sort-IsRanked}
use rffmpeg.Base.{Bool}
use rffmpeg.Scheduler.{Config, State}
use rffmpeg.Scheduler.Encoders.{
  GoLibrary, h264, get_codec_family, get_compatible_encoders, extract_encoder_from_args,
  encoder_family_mapping, lookup, inferred_family, scan_args, names_video, is_video_encoder,
  video_encoders,
}
use rffmpeg.Scheduler.Selection.{max_jobs, choose_worker}
use rffmpeg.Scheduler.Assignment.{Writers, schedule_pending_jobs}
use rffmpeg.Scheduler.Loop.{run_loop, schedule_ticker, timeout_ticker, starvation_wake}
use rffmpeg.Scheduler.Ticks.{
  Host, check_timeouts, sweep_stuck_jobs, check_no_worker_starvation, stuck_crash_msg,
}
use rffmpeg.Scheduler.Best.{OnSome}
use rffmpeg.Scheduler.Fit.{Fits, serves, choose_worker-Fits}
use rffmpeg.Scheduler.Room.{AreSparing, schedule-max-le}
use rffmpeg.Scheduler.Moves.{AreSteps, run_loop-IsConsistent, run_loop-Evolves}
use rffmpeg.Scheduler.Retries.{check_timeouts-budget}
use rffmpeg.Scheduler.Families.{compatible-family}
use rffmpeg.Scheduler.Verdicts.{starvation-live, sweep-notified}
use rffmpeg.Tests.Fixtures.{
  plain, success, cluster, worker_a, worker_b, waiting_job, cluster-IsConsistent, cluster-IsKeyed,
}

abbrev config : Config
config = record {
  job_timeout = 1000;
  max_jobs_per_worker = 1;
  no_worker_job_timeout = some 120;
  heartbeat_freshness = some 90;
  max_timeout_retries = 2;
  stuck_job_timeout = some 300;
}

abbrev host : Host
host = record {
  timeout_msg = λ n. "retries";
  stuck_msg = λ n. "stuck";
  no_worker_msg = λ n. "starved";
  event_id = λ id. "event";
  row_id = λ id. id;
}

abbrev lib : GoLibrary
lib = record { unmarshal = λ s. some ("-c:v" ∷ "libx264" ∷ []); to_lower = λ s. s }

abbrev started : State
started = record { db = cluster; notices = [] }

abbrev lost : Database
lost = record cluster { workers = record worker_a { status = offline } ∷ worker_b ∷ [] }

migrate_jobs-drained_example :
    exists_where
      (active_on "a")
      (migrate_jobs_from_worker plain 50 "e" (λ id. id) "a" "heartbeat_timeout" 3 lost).0.jobs
    ≡ false
unfolding find_where normalize_worker_id
migrate_jobs-drained_example =
    migrate_jobs-drained plain 50 "e" (λ id. id) "a" "heartbeat_timeout" 3
      (record worker_a { status = offline }) lost refl refl

report-migrate_jobs_example :
    report 60 "j1" "a" completed success true
      (migrate_jobs_from_worker plain 50 "e" (λ id. id) "a" "heartbeat_timeout" 3 lost).0
    ≡ (
      (migrate_jobs_from_worker plain 50 "e" (λ id. id) "a" "heartbeat_timeout" 3 lost).0,
      err job_not_owned,
    )
unfolding find_where normalize_worker_id
report-migrate_jobs_example =
    report-migrate_jobs plain 50 "e" (λ id. id) "a" "heartbeat_timeout" 3
      (record worker_a { status = offline }) lost refl refl 60 "j1" completed success true

abbrev loads : List Load
loads =
    record { worker = worker_a; active_jobs = 1; completed_jobs = 3 }
    ∷ record { worker = worker_b; active_jobs = 1; completed_jobs = 2 }
    ∷ []

abbrev IsKnown : Worker → Type 0
IsKnown w = ((w.id == "a") ≡ true) ⊎ ((w.id == "b") ≡ true)

choose_worker-Fits_example :
    OnSome
      (Fits IsKnown
        (serves lib (extract_encoder_from_args lib (waiting_job "j2").args))
        config
        120
        cluster)
      (choose_worker lib config 120 (waiting_job "j2") cluster)
choose_worker-Fits_example =
    choose_worker-Fits lib IsKnown config 120 cluster (inl refl, (inr refl, tt)) (waiting_job "j2")

-- Another server records the target of a migration before each assignment.
abbrev recording : Writers
recording = record {
  before_read = λ now j d. d;
  before_assign = λ now j d. record_migration_target j.id "b" "b" d;
}

recording-AreSparing : AreSparing config "a" 2 recording
unfolding record_migration_target
recording-AreSparing = record {
  before_read_spares = λ now j. record {
    steps = λ d. IsStep-refl d.jobs;
    no_more = λ d. omega arith;
    limited = λ d all. all;
  };
  before_assign_spares = λ now j. record {
    steps = λ d. IsStep-refl d.jobs;
    no_more = λ d. omega arith;
    limited = λ d all. all;
  };
}

schedule-max-le_example :
    count_where (active_on "a") (schedule_pending_jobs lib recording config 120 cluster).jobs
    ≤ max 2 (count_where (active_on "a") cluster.jobs)
unfolding max_jobs
schedule-max-le_example =
    schedule-max-le lib recording config 120 "a" 2 recording-AreSparing cluster
      (λ h. omega arith, (λ h. omega arith, tt)) cluster-IsKeyed

none_yet : (x : String) → get_job_timeout_retry_count x cluster ≤ 2
unfolding get_job_timeout_retry_count count_where
none_yet x = omega arith

check_timeouts-budget_example :
    get_job_timeout_retry_count "j1" (check_timeouts host config 2000 started).db ≤ 2
check_timeouts-budget_example = check_timeouts-budget host config 2000 started none_yet "j1"

-- Users cancel the jobs while the scheduler chooses their workers, and a worker pulls before.
abbrev racing : Writers
racing = record {
  before_read = λ now j d. (assign_pending_jobs_to_worker plain now "b" 1 d).0;
  before_assign = λ now j d. (cancel_job now j.id d).0;
}

racing-AreSteps : AreSteps racing
racing-AreSteps = record {
  before_read_steps = λ now j d. assign_pending-Steps plain now "b" 1 d;
  before_assign_steps = λ now j d. cancel_job-Steps now j.id d;
}

run_loop-IsConsistent_example :
    All IsConsistent
      (run_loop lib racing host config
        ((120, schedule_ticker) ∷ (2000, timeout_ticker) ∷ (2001, starvation_wake) ∷ [])
        started).db.jobs
run_loop-IsConsistent_example =
    run_loop-IsConsistent lib racing racing-AreSteps host config
      ((120, schedule_ticker) ∷ (2000, timeout_ticker) ∷ (2001, starvation_wake) ∷ []) started
      cluster-IsConsistent

run_loop-Evolves_example :
    Extends Evolves cluster.jobs
      (run_loop lib racing host config
        ((120, schedule_ticker) ∷ (2000, timeout_ticker) ∷ (2001, starvation_wake) ∷ [])
        started).db.jobs
run_loop-Evolves_example =
    run_loop-Evolves lib racing racing-AreSteps host config
      ((120, schedule_ticker) ∷ (2000, timeout_ticker) ∷ (2001, starvation_wake) ∷ []) started

live_now : exists_where (live_schedulable (some 30)) cluster.workers ≡ true
unfolding exists_where live_schedulable
live_now = refl

starvation-live_example : check_no_worker_starvation host 120 config started ≡ started
starvation-live_example = starvation-live host config 120 started live_now

sweep-notified_example :
    (sweep_stuck_jobs host 2000 config started).db.notified
    ≡ []
      ++ (fail_stuck_active_jobs 2000 1700
          (get_stuck_active_jobs 1700 cluster)
          "stuck"
          stuck_crash_msg
          cluster).1
sweep-notified_example = sweep-notified host config 2000 300 started refl

libx264-family : get_codec_family lib "libx264" ≡ some h264
unfolding get_codec_family encoder_family_mapping lookup
libx264-family = refl

compatible-family_example :
    All (λ e. get_codec_family lib e ≡ some h264) (get_compatible_encoders lib "libx264")
compatible-family_example = compatible-family lib "libx264" h264 libx264-family

-- The second job goes to the idle worker with the encoder that has room; then none has.
schedules_one :
    map (λ j. j.assigned_worker) (schedule_pending_jobs lib recording config 120 cluster).jobs
    ≡ some "a" ∷ some "a" ∷ none ∷ []
unfolding schedule_pending_jobs order_by select count_where update_where exists_where
schedules_one = refl

infers_family : get_codec_family lib "my_h264_hw" ≡ some h264
unfolding get_codec_family encoder_family_mapping lookup inferred_family
infers_family = refl

scans_args : scan_args ("-c:a" ∷ "aac" ∷ "-vcodec" ∷ "libx265" ∷ "out.mp4" ∷ []) ≡ "libx265"
unfolding scan_args names_video is_video_encoder video_encoders exists_where
scans_args = refl

sort-IsRanked_example :
    IsRanked (sort_workers_by_job_count loads)
    × ((p : Load → Bool) → count_where p (sort_workers_by_job_count loads) ≡ count_where p loads)
sort-IsRanked_example = sort-IsRanked loads
