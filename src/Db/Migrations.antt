-- ===== src/Db/Migrations.antt =====
-- The failover of pkg/server/db/migrations.go and the timeout requeue of jobs.go: jobs that go back to
-- pending together with their audit rows, in one transaction. `event_id` is the identifier that
-- uuid.New gives to the event, `row_id` gives the one of each job's redistribution row.
use rffmpeg.Base.{
  ℕ, ◌+◌, max, String, Bool, true, false, ◌&&◌, not, Option, none, some, List, [], ◌∷◌, ◌++◌, ◌==◌,
  ltb, eqb, leb, if◌then◌else◌, length, map,
}
use rffmpeg.Base.Tables.{select, count_where, exists_where, find_where, update_where}
use rffmpeg.Protocol.{offline}
use rffmpeg.Db.{Database, Worker, MigrationEvent, is_offline, select_name, notify_terminal}
use rffmpeg.Db.Identity.{UuidLibrary, normalize_worker_id}
use rffmpeg.Db.Statements.{running_job, set_requeued, owned_active, set_reset, set_crashed}
use rffmpeg.Db.Jobs.{update_jobs, rows_affected}
use rffmpeg.Db.Claims.{active_on, by_creation}

-- A job with the number of its migrations.
pub record JobRetry : Type 0 where
  pub id : String
  pub count : ℕ

-- One row of json_each for each time that the event lists the job.
unfoldable pub occurrences : String → List MigrationEvent → ℕ
occurrences id [] = 0
occurrences id (e ∷ es) = count_where (λ i. i == id) e.job_ids + occurrences id es

unfoldable pub is_timeout : MigrationEvent → Bool
is_timeout e = e.reason == "job_timeout"

-- Migrations for the failure of a worker, the requeues for a timeout left out.
unfoldable pub get_job_retry_count : String → Database → ℕ
unfolding occurrences is_timeout
get_job_retry_count id d = occurrences id (select (λ e. not (is_timeout e)) d.migration_events)

unfoldable pub get_job_timeout_retry_count : String → Database → ℕ
unfolding is_timeout
get_job_timeout_retry_count id d =
    count_where (λ e. is_timeout e && exists_where (λ i. i == id) e.job_ids) d.migration_events

unfoldable pub insert_migration_event :
    String → ℕ → String → Option String → String → ℕ → List String → Database → Database
insert_migration_event event_id at worker name reason retry_count ids d = record d {
  migration_events =
      d.migration_events
      ++ record {
        id = event_id;
        timestamp = at;
        worker_id = worker;
        worker_name = name;
        reason = reason;
        retry_count = retry_count;
        job_ids = ids;
        jobs_migrated = length ids;
      }
        ∷ [];
}

-- The order of Go's map is the order of the list.
unfoldable pub insert_redistributions :
    (String → String) → String → List JobRetry → ℕ → Database → Database
insert_redistributions row_id event_id rs at d = record d {
  job_redistributions =
      d.job_redistributions
      ++ map
          (λ r. record {
            id = row_id r.id;
            migration_event_id = event_id;
            job_id = r.id;
            retry_count = r.count;
            target_worker_id = none;
            target_worker_name = none;
            created_at = at;
          })
          rs;
}

-- A reset that matches no row rolls back: nothing is written.
unfoldable pub record_job_timeout_migration :
    ℕ → String → (String → String) → String → String → ℕ → Database → Database × Bool
unfolding set_requeued running_job insert_migration_event insert_redistributions
record_job_timeout_migration now event_id row_id worker id retry_count d =
    let d' = update_jobs (running_job id) (set_requeued now) d in
    if eqb (rows_affected (running_job id) d) 0 then (d, false) else (
      insert_redistributions row_id event_id (record { id = id; count = retry_count } ∷ []) now (
          insert_migration_event event_id now worker (select_name worker d.workers) "job_timeout"
            retry_count (id ∷ []) d'),
      true,
    )

pub record WorkerMigrationResult : Type 0 where
  pub event_id : String
  pub worker_name : String
  pub migrated : List String
  pub failed : List String

-- The rows of the active jobs, oldest first, each with its count.
unfoldable pub active_retries : String → Database → List JobRetry
unfolding active_on get_job_retry_count
active_retries worker d =
    map (λ j. record { id = j.id; count = get_job_retry_count j.id d })
      (by_creation (select (active_on worker) d.jobs))

-- One call of resetJobToPendingExec, with the rows it affects.
unfoldable pub reset_job : ℕ → String → String → Database → Database
unfolding owned_active set_reset
reset_job now worker id d = update_jobs (owned_active id worker) (set_reset now) d

-- The jobs reset, each with its count after this migration.
unfoldable pub reset_jobs : ℕ → String → List JobRetry → Database → Database × List JobRetry
unfolding reset_job owned_active
reset_jobs now worker [] d = (d, [])
reset_jobs now worker (r ∷ rs) d =
    let (d', rest) = reset_jobs now worker rs (reset_job now worker r.id d) in
    (
      d',
      if eqb (rows_affected (owned_active r.id worker) d) 0
          then rest
          else record { id = r.id; count = r.count + 1 } ∷ rest,
    )

max_count : List JobRetry → ℕ
max_count [] = 0
max_count (r ∷ rs) = max r.count (max_count rs)

abbrev pub retry_ids : List JobRetry → List String
retry_ids = map (λ r. r.id)

unfoldable pub audit :
    ℕ
    → String
    → (String → String)
    → String
    → Option String
    → String
    → List JobRetry
    → Database
    → Database
unfolding insert_migration_event insert_redistributions max_count
audit now event_id row_id worker name reason [] d = d
audit now event_id row_id worker name reason (r ∷ rs) d =
    insert_redistributions row_id event_id (r ∷ rs) now (
      insert_migration_event event_id now worker name reason (max_count (r ∷ rs))
        (retry_ids (r ∷ rs)) d)

abbrev pub max_retry_msg : String
max_retry_msg = "max retry count exceeded after repeated worker failures"

unfoldable pub crash_job : ℕ → String → String → Database → Database
unfolding owned_active set_crashed
crash_job now worker id d = update_jobs (owned_active id worker) (set_crashed now max_retry_msg) d

-- The jobs past the budget.
unfoldable pub crash_jobs : ℕ → String → List JobRetry → Database → Database × List String
unfolding crash_job owned_active
crash_jobs now worker [] d = (d, [])
crash_jobs now worker (r ∷ rs) d =
    let (d', rest) = crash_jobs now worker rs (crash_job now worker r.id d) in
    (d', if eqb (rows_affected (owned_active r.id worker) d) 0 then rest else r.id ∷ rest)

unfoldable pub notify_all : List String → Database → Database
notify_all [] d = d
notify_all (id ∷ ids) d = notify_all ids (notify_terminal id d)

abbrev event_of : String → List JobRetry → String
event_of event_id [] = ""
event_of event_id (_ ∷ _) = event_id

-- The two classes of the worker's active jobs: within the retry budget and past it.
unfoldable pub within_budget : ℕ → String → Database → List JobRetry
unfolding active_retries
within_budget max_retry worker d =
    select (λ r. not (leb max_retry r.count)) (active_retries worker d)

unfoldable pub past_budget : ℕ → String → Database → List JobRetry
unfolding active_retries
past_budget max_retry worker d = select (λ r. leb max_retry r.count) (active_retries worker d)

-- The transaction for a worker that is offline, and the notifications after it.
unfoldable pub migrate :
    ℕ
    → String
    → (String → String)
    → Worker
    → String
    → ℕ
    → Database
    → Database × WorkerMigrationResult
unfolding within_budget past_budget reset_jobs audit crash_jobs notify_all
migrate now event_id row_id w reason max_retry d =
    let (d₁, migrated) = reset_jobs now w.id (within_budget max_retry w.id d) d in
    let d₂ = audit now event_id row_id w.id (some w.name) reason migrated d₁ in
    let (d₃, failed) = crash_jobs now w.id (past_budget max_retry w.id d) d₂ in
    (
      notify_all failed d₃,
      record {
        event_id = event_of event_id migrated;
        worker_name = w.name;
        migrated = retry_ids migrated;
        failed = failed;
      },
    )

abbrev pub nothing_migrated : String → WorkerMigrationResult
nothing_migrated name = record { event_id = ""; worker_name = name; migrated = []; failed = [] }

abbrev pub migrate_if_offline :
    ℕ
    → String
    → (String → String)
    → String
    → ℕ
    → Option Worker
    → Database
    → Database × WorkerMigrationResult
unfolding migrate
migrate_if_offline now event_id row_id reason max_retry none d = (d, nothing_migrated "")
migrate_if_offline now event_id row_id reason max_retry (some w) d =
    if is_offline w.status
    then migrate now event_id row_id w reason max_retry d
    else (d, nothing_migrated w.name)

module _ (u : UuidLibrary) where
  unfoldable pub migrate_jobs_from_worker :
      ℕ
      → String
      → (String → String)
      → String
      → String
      → ℕ
      → Database
      → Database × WorkerMigrationResult
  unfolding migrate normalize_worker_id
  migrate_jobs_from_worker now event_id row_id id reason max_retry d =
      migrate_if_offline now event_id row_id reason max_retry
        (find_where (λ w. w.id == normalize_worker_id u id) d.workers) d

unfoldable pub heartbeat_stale : ℕ → Worker → Bool
heartbeat_stale cutoff w = not (is_offline w.status) && ltb w.last_heartbeat cutoff

-- The cutoff is now - heartbeatTimeout; the answer lists exactly the workers that this call flipped.
unfoldable pub mark_offline_workers_with_migration : ℕ → Database → Database × List String
unfolding heartbeat_stale
mark_offline_workers_with_migration cutoff d = (
  record d {
    workers = update_where (heartbeat_stale cutoff) (λ w. record w { status = offline }) d.workers;
  },
  map (λ w. w.id) (select (heartbeat_stale cutoff) d.workers),
)
