-- ===== src/Scheduler/Selection.antt =====
-- The choice of a worker in pkg/server/scheduler/scheduler.go: selectBestWorker, tryEncoderFallback, and
-- the part of scheduleJob before the assignment.
use rffmpeg.Base.{
  ℕ, ◌-◌, String, Bool, ◌||◌, ◌&&◌, Option, none, some, List, [], ◌∷◌, ◌==◌, ltb, eqb,
  if◌then◌else◌,
}
use rffmpeg.Db.{Database, Job, Worker}
use rffmpeg.Db.Workers.{
  Load, get_idle_workers_with_job_count, get_idle_workers_by_encoder_with_job_count,
}
use rffmpeg.Scheduler.{Config}
use rffmpeg.Scheduler.Encoders.{GoLibrary, get_compatible_encoders, extract_encoder_from_args}

-- The worker's own limit, or the configured one where it has none.
unfoldable pub max_jobs : ℕ → Worker → ℕ
max_jobs default w = if eqb w.max_concurrent 0 then default else w.max_concurrent

-- Fewer active jobs, or as many with fewer completed ones.
unfoldable pub beats : Load → Load → Bool
beats w best =
    ltb w.active_jobs best.active_jobs
    || (eqb w.active_jobs best.active_jobs && ltb w.completed_jobs best.completed_jobs)

unfoldable pub has_capacity : ℕ → Load → Bool
unfolding max_jobs
has_capacity default w = ltb w.active_jobs (max_jobs default w.worker)

abbrev pub better : Load → Option Load → Option Load
better w none = some w
better w (some best) = some (if beats w best then w else best)

-- The loop, with the best row so far: none stands for bestActive == -1.
unfoldable pub scan_workers : ℕ → Option Load → List Load → Option Load
unfolding has_capacity
scan_workers default best [] = best
scan_workers default best (w ∷ ws) =
    scan_workers default (if has_capacity default w then better w best else best) ws

unfoldable pub select_best_worker : ℕ → List Load → Option Load
unfolding scan_workers
select_best_worker default ws = scan_workers default none ws

abbrev pub window : ℕ → Option ℕ → Option ℕ
window now none = none
window now (some freshness) = some (now - freshness)

-- The first encoder of the list with a worker that can take a job; the requested one was tried before.
unfoldable pub try_encoders : Config → ℕ → String → Database → List String → Option (Load × String)
unfolding select_best_worker get_idle_workers_by_encoder_with_job_count
try_encoders config now requested d [] = none
try_encoders config now requested d (e ∷ es) =
    let later = try_encoders config now requested d es in
    if e == requested
    then later
    else (elim (select_best_worker config.max_jobs_per_worker
        (get_idle_workers_by_encoder_with_job_count e (window now config.heartbeat_freshness) d)) [
          | none ↦ later
          | some w ↦ some (w, e)
        ])

abbrev pub chosen_worker : Option (Load × String) → Option Load
chosen_worker none = none
chosen_worker (some (w, e)) = some w

module _ (lib : GoLibrary) where
  unfoldable pub try_encoder_fallback : Config → ℕ → String → Database → Option (Load × String)
  unfolding get_compatible_encoders try_encoders
  try_encoder_fallback config now requested d =
      try_encoders config now requested d (get_compatible_encoders lib requested)

  -- The fallback is tried only where no idle worker has the encoder.
  abbrev pub pick_capable : Config → ℕ → String → Database → List Load → Option Load
  unfolding select_best_worker try_encoder_fallback
  pick_capable config now requested d [] =
      chosen_worker (try_encoder_fallback config now requested d)
  pick_capable config now requested d (w ∷ ws) =
      select_best_worker config.max_jobs_per_worker (w ∷ ws)

  -- A job that asks for no encoder takes any idle worker; another one only a capable one.
  unfoldable pub choose_worker : Config → ℕ → Job → Database → Option Load
  unfolding extract_encoder_from_args select_best_worker get_idle_workers_with_job_count
      get_idle_workers_by_encoder_with_job_count try_encoder_fallback
  choose_worker config now j d =
      let requested = extract_encoder_from_args lib j.args in
      let cutoff = window now config.heartbeat_freshness in
      if requested == ""
      then select_best_worker config.max_jobs_per_worker (get_idle_workers_with_job_count cutoff d)
      else pick_capable config now requested d
          (get_idle_workers_by_encoder_with_job_count requested cutoff d)
