-- ===== src/Db/Workers.antt =====
-- pkg/server/db/workers.go: registration, heartbeats, derived status, removal, eviction marks, and the
-- candidate sets of the scheduler. A cutoff is now minus the timeout; `none` stands for a timeout that
-- is not positive.
use rffmpeg.Base.{
  ℕ, zero, suc, String, Bool, true, false, ◌&&◌, ◌||◌, not, Option, none, some, List, [], ◌∷◌, ◌++◌,
  ◌==◌, ltb, eqb, if◌then◌else◌, length, map, reverse,
}
use rffmpeg.Base.Tables.{select, count_where, exists_where, find_where, update_where, order_by}
use rffmpeg.Protocol.{WorkerStatus, Result, idle, busy, worker_not_found, ok, err}
use rffmpeg.Db.{Database, Job, Worker, recovered, is_completed, is_offline, is_idle, holds}
use rffmpeg.Db.Identity.{UuidLibrary, normalize_worker_id}
use rffmpeg.Db.Claims.{active_on}

abbrev pub update_workers : (Worker → Bool) → (Worker → Worker) → Database → Database
update_workers g s d = record d { workers = update_where g s d.workers }

-- nil where the UPDATE changed a row, else ErrWorkerNotFound.
abbrev pub found_worker : (Worker → Bool) → Database → Result (Unit {0})
found_worker g d = if eqb (count_where g d.workers) 0 then err worker_not_found else ok tt

-- What a registration brings.
pub record Registration : Type 0 where
  pub name : String
  pub encoders : List String
  pub details : String
  pub max_concurrent : ℕ

unfoldable pub set_registered : ℕ → Registration → Worker → Worker
set_registered now r w = record w {
  name = r.name;
  status = idle;
  encoders = r.encoders;
  details = r.details;
  max_concurrent = r.max_concurrent;
  last_heartbeat = now;
}

unfoldable pub new_worker : ℕ → String → Registration → Worker
new_worker now id r = record {
  id = id;
  name = r.name;
  status = idle;
  encoders = r.encoders;
  details = r.details;
  max_concurrent = r.max_concurrent;
  evicted = false;
  evicted_at = none;
  last_heartbeat = now;
  created_at = now;
}

abbrev expired : Option ℕ → Worker → Bool
expired none w = false
expired (some cutoff) w = ltb w.last_heartbeat cutoff

-- Residue of the same logical worker: same name, another identifier, offline or with an expired
-- heartbeat.
unfoldable pub residue : String → String → Option ℕ → Worker → Bool
residue id name cutoff w =
    not (name == "")
    && ((w.name == name) && (not (w.id == id) && (is_offline w.status || expired cutoff w)))

module _ (u : UuidLibrary) where
  abbrev pub registered_id : String → String → String
  registered_id fresh id =
      let canonical = normalize_worker_id u id in if canonical == "" then fresh else canonical

  unfoldable pub create_or_update_worker :
      ℕ → String → String → Registration → Option ℕ → Database → Database
  unfolding set_registered new_worker residue normalize_worker_id
  create_or_update_worker now fresh id r cutoff d =
      let key = registered_id fresh id in
      if eqb (count_where (λ w. w.id == key) d.workers) 0
      then record d {
        workers =
            select (λ w. not (residue key r.name cutoff w)) d.workers ++ new_worker now key r ∷ [];
      }
      else update_workers (λ w. w.id == key) (set_registered now r) d

  unfoldable pub get_worker : String → Database → Option Worker
  unfolding normalize_worker_id
  get_worker id d = find_where (λ w. w.id == normalize_worker_id u id) d.workers

  online_worker : String → Worker → Bool
  unfolding normalize_worker_id
  online_worker id w = (w.id == normalize_worker_id u id) && not (is_offline w.status)

  unfoldable pub update_worker_heartbeat : ℕ → String → Database → Database × Result (Unit {0})
  unfolding online_worker
  update_worker_heartbeat now id d = (
    update_workers (online_worker id) (λ w. record w { last_heartbeat = now }) d,
    found_worker (online_worker id) d,
  )

  unfoldable pub update_worker_status :
      ℕ → String → WorkerStatus → Database → Database × Result (Unit {0})
  unfolding normalize_worker_id
  update_worker_status now id status d =
      let g = λ (w : Worker). w.id == normalize_worker_id u id in
      (
        update_workers g (λ w. record w { status = status; last_heartbeat = now }) d,
        found_worker g d,
      )

  unfoldable pub mark_worker_evicted : ℕ → String → Database → Database × Result (Unit {0})
  unfolding normalize_worker_id
  mark_worker_evicted now id d =
      let g = λ (w : Worker). w.id == normalize_worker_id u id in
      (
        update_workers g (λ w. record w { evicted = true; evicted_at = some now }) d,
        found_worker g d,
      )

  abbrev already_clear : String → Database → Result Bool
  already_clear id d =
      if eqb (count_where (λ w. w.id == id) d.workers) 0 then err worker_not_found else ok false

  -- Only a set mark is cleared, together with its audit row.
  unfoldable pub clear_worker_eviction : ℕ → String → String → Database → Database × Result Bool
  unfolding normalize_worker_id
  clear_worker_eviction now id reason d =
      let key = normalize_worker_id u id in
      let g = λ (w : Worker). (w.id == key) && w.evicted in
      if eqb (count_where g d.workers) 0 then (d, already_clear key d) else (
        record d {
          workers = update_where g (λ w. record w { evicted = false; evicted_at = none }) d.workers;
          eviction_events =
              d.eviction_events
              ++ record {
                timestamp = now;
                worker_id = key;
                event_type = recovered;
                reason = reason;
              }
                ∷ [];
        },
        ok true,
      )

  -- Back to busy or idle after a failed migration, if still offline.
  unfoldable pub restore_worker_status_after_failed_migration : String → Database → Database
  unfolding normalize_worker_id active_on
  restore_worker_status_after_failed_migration id d =
      update_workers (λ w. (w.id == normalize_worker_id u id) && is_offline w.status)
        (λ w. record w { status = if exists_where (active_on w.id) d.jobs then busy else idle }) d

-- Not idle, not offline, and without an active job.
unfoldable pub idle_due : String → List Job → Worker → Bool
unfolding active_on
idle_due id jobs w =
    (w.id == id)
    && (not (is_idle w.status)
        && (not (is_offline w.status) && not (exists_where (active_on w.id) jobs)))

unfoldable pub set_worker_idle_if_no_active_jobs :
    ℕ → String → Database → Database × Result (Unit {0})
unfolding idle_due
set_worker_idle_if_no_active_jobs now id d =
    let g = idle_due id d.jobs in
    (update_workers g (λ w. record w { status = idle; last_heartbeat = now }) d, found_worker g d)

-- Offline past the threshold and not marked as evicted.
unfoldable pub removable : ℕ → Worker → Bool
removable cutoff w = is_offline w.status && (ltb w.last_heartbeat cutoff && not w.evicted)

unfoldable pub remove_offline_workers : ℕ → Database → Database × List String
unfolding removable
remove_offline_workers cutoff d = (
  record d { workers = select (λ w. not (removable cutoff w)) d.workers },
  map (λ w. w.id) (select (removable cutoff) d.workers),
)

unfoldable pub remove_stale_workers : ℕ → Database → Database
remove_stale_workers cutoff d = record d {
  workers = select (λ w. not (ltb w.last_heartbeat cutoff && not w.evicted)) d.workers;
}

-- heartbeatFreshnessSQL: no clause where freshness is not positive.
abbrev pub fresh : Option ℕ → Worker → Bool
fresh none w = true
fresh (some cutoff) w = ltb cutoff w.last_heartbeat

abbrev pub newest_first : List Worker → List Worker
newest_first ws = reverse (order_by (λ w. w.last_heartbeat) ws)

unfoldable pub idle_candidate : Option ℕ → Worker → Bool
idle_candidate cutoff w = is_idle w.status && (not w.evicted && fresh cutoff w)

unfoldable pub get_idle_workers : Option ℕ → Database → List Worker
unfolding idle_candidate
get_idle_workers cutoff d = newest_first (select (idle_candidate cutoff) d.workers)

unfoldable pub has_encoder : String → Worker → Bool
has_encoder encoder w = exists_where (λ e. e == encoder) w.encoders

unfoldable pub get_idle_workers_by_encoder : String → Option ℕ → Database → List Worker
unfolding idle_candidate has_encoder
get_idle_workers_by_encoder encoder cutoff d =
    newest_first (select (λ w. idle_candidate cutoff w && has_encoder encoder w) d.workers)

unfoldable pub live_schedulable : Option ℕ → Worker → Bool
live_schedulable cutoff w = not (is_offline w.status) && (not w.evicted && fresh cutoff w)

unfoldable pub get_live_schedulable_workers : Option ℕ → Database → List Worker
unfolding live_schedulable
get_live_schedulable_workers cutoff d = newest_first (select (live_schedulable cutoff) d.workers)

-- WorkerWithJobCount.
pub record Load : Type 0 where
  pub worker : Worker
  pub active_jobs : ℕ
  pub completed_jobs : ℕ

unfoldable pub fill_worker_job_counts : Database → List Worker → List Load
unfolding active_on
fill_worker_job_counts d ws =
    map
      (λ w. record {
        worker = w;
        active_jobs = count_where (active_on w.id) d.jobs;
        completed_jobs = count_where (λ j. holds j.worker_id w.id && is_completed j.status) d.jobs;
      })
      ws

-- One pass of the inner loop: the least row so far stays at the front, and a lesser one takes its
-- place by a swap.
unfoldable pub less_loaded : Load → Load → Bool
less_loaded a b =
    ltb a.active_jobs b.active_jobs
    || (eqb a.active_jobs b.active_jobs && ltb a.completed_jobs b.completed_jobs)

unfoldable pub swap_least : Load → List Load → Load × List Load
unfolding less_loaded
swap_least least [] = (least, [])
swap_least least (x ∷ xs) =
    let (least', rest) = swap_least (if less_loaded x least then x else least) xs in
    (least', (if less_loaded x least then least else x) ∷ rest)

-- The outer loop, a round for each row.
unfoldable pub sort_rounds : ℕ → List Load → List Load
unfolding swap_least
sort_rounds rounds [] = []
sort_rounds zero (x ∷ xs) = x ∷ xs
sort_rounds (suc rounds) (x ∷ xs) =
    let (least, rest) = swap_least x xs in least ∷ sort_rounds rounds rest

unfoldable pub sort_workers_by_job_count : List Load → List Load
unfolding sort_rounds
sort_workers_by_job_count xs = sort_rounds (length xs) xs

unfoldable pub get_idle_workers_with_job_count : Option ℕ → Database → List Load
unfolding fill_worker_job_counts get_idle_workers
get_idle_workers_with_job_count cutoff d = fill_worker_job_counts d (get_idle_workers cutoff d)

unfoldable pub get_idle_workers_by_encoder_with_job_count : String → Option ℕ → Database → List Load
unfolding fill_worker_job_counts get_idle_workers_by_encoder sort_workers_by_job_count
get_idle_workers_by_encoder_with_job_count encoder cutoff d =
    sort_workers_by_job_count
      (fill_worker_job_counts d (get_idle_workers_by_encoder encoder cutoff d))
