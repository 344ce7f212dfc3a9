-- ===== src/Db/Sweeps.antt =====
-- The sweeps of pkg/server/db/jobs.go over the whole table: starved pending jobs, stuck active jobs,
-- and the recovery of the state after a restart. A cutoff is the time that the statement compares with.
use rffmpeg.Base.{
  ℕ, zero, suc, String, Bool, true, false, ◌&&◌, ◌||◌, not, Option, none, some, List, [], ◌∷◌, ◌++◌,
  ◌==◌, ltb, leb, if◌then◌else◌, take, drop, length, map,
}
use rffmpeg.Base.Tables.{select, count_where, exists_where, update_where, order_by}
use rffmpeg.Protocol.{FailureType, worker_crash, no_worker_available, infra, offline}
use rffmpeg.Db.{Database, Job, Worker, MigrationEvent, is_active, is_queued}
use rffmpeg.Db.Statements.{
  pending_unassigned, starved, set_starved, set_stuck, set_requeued, missing_worker, offline_worker,
  live_worker,
}
use rffmpeg.Db.Claims.{by_creation}

-- StarvedJob and StuckJob: the identifier with the classification.
pub record Verdict : Type 0 where
  pub id : String
  pub crashed : Bool

unfoldable pub contains : List String → String → Bool
contains ids id = exists_where (λ i. i == id) ids

-- created_at of the oldest pending job with no owner.
first_created : List Job → Option ℕ
first_created [] = none
first_created (j ∷ js) = some j.created_at

unfoldable pub earliest_pending_created_at : Database → Option ℕ
unfolding first_created pending_unassigned
earliest_pending_created_at d = first_created (by_creation (select pending_unassigned d.jobs))

-- ORDER BY timestamp DESC, rowid DESC LIMIT 1: of equal times the later row.
last_event : List MigrationEvent → Option MigrationEvent
last_event [] = none
last_event (e ∷ es) = elim (last_event es) [
  | none ↦ some e
  | some best ↦ some (if leb e.timestamp best.timestamp then best else e)
]

abbrev reason_or_empty : Option MigrationEvent → String
reason_or_empty none = ""
reason_or_empty (some e) = e.reason

unfoldable pub last_reason : String → List MigrationEvent → String
unfolding last_event contains
last_reason id es = reason_or_empty (last_event (select (λ e. contains e.job_ids id) es))

unfoldable pub get_starved_pending_jobs : ℕ → String → Database → List Verdict
unfolding starved last_reason
get_starved_pending_jobs cutoff crash_reason d =
    map (λ j. record { id = j.id; crashed = last_reason j.id d.migration_events == crash_reason })
      (select (starved cutoff) d.jobs)

-- The loop over the identifiers in chunks, each one UPDATE ... WHERE id IN (...) ... RETURNING id.
-- The fuel is the number of identifiers, since each round takes off at least one.
unfoldable pub update_chunks :
    ℕ → ℕ → (Job → Bool) → (Job → Job) → List String → List Job → List Job × List String
unfolding contains
update_chunks fuel size g s [] jobs = (jobs, [])
update_chunks zero size g s (i ∷ is) jobs = (jobs, [])
update_chunks (suc fuel) size g s (i ∷ is) jobs =
    let chunk = take size (i ∷ is) in
    let hit = λ (j : Job). contains chunk j.id && g j in
    let (jobs', later) =
      update_chunks fuel size g s (drop size (i ∷ is)) (update_where hit s jobs) in
    (jobs', map (λ j. j.id) (select hit jobs) ++ later)

unfoldable pub starved_update_chunk_size : ℕ
starved_update_chunk_size = 500

unfoldable pub fail_starved_jobs_chunked :
    ℕ → List String → String → FailureType → ℕ → List Job → List Job × List String
unfolding update_chunks starved_update_chunk_size starved set_starved
fail_starved_jobs_chunked now ids msg type cutoff jobs =
    update_chunks (length ids) starved_update_chunk_size (starved cutoff) (set_starved now msg type)
      ids jobs

abbrev pub ids_of : (Verdict → Bool) → List Verdict → List String
ids_of p vs = map (λ v. v.id) (select p vs)

abbrev pub crash_ids : List Verdict → List String
crash_ids = ids_of (λ v. v.crashed)

abbrev pub other_ids : List Verdict → List String
other_ids = ids_of (λ v. not v.crashed)

-- Both passes are one transaction. The caller notifies.
unfoldable pub fail_starved_pending_jobs :
    ℕ → ℕ → List Verdict → String → String → Database → Database × List String
unfolding fail_starved_jobs_chunked
fail_starved_pending_jobs now cutoff vs no_worker_msg crash_msg d =
    let (jobs', crashed) =
      fail_starved_jobs_chunked now (crash_ids vs) crash_msg worker_crash cutoff d.jobs in
    let (jobs'', others) =
      fail_starved_jobs_chunked now (other_ids vs) no_worker_msg no_worker_available cutoff jobs' in
    (record d { jobs = jobs'' }, crashed ++ others)

-- Active, untouched since the cutoff, and queued or without a worker's record.
unfoldable pub stuck : ℕ → List Worker → Job → Bool
unfolding missing_worker
stuck cutoff ws j =
    is_active j.status && (ltb j.updated_at cutoff && (is_queued j.status || missing_worker ws j))

unfoldable pub get_stuck_active_jobs : ℕ → Database → List Verdict
unfolding stuck missing_worker offline_worker
get_stuck_active_jobs cutoff d =
    map
      (λ j. record {
        id = j.id;
        crashed = missing_worker d.workers j || offline_worker d.workers j;
      })
      (order_by (λ j. j.updated_at) (select (stuck cutoff d.workers) d.jobs))

-- The guard that an UPDATE of the sweep checks again.
unfoldable pub still_stuck : ℕ → Bool → List Worker → Job → Bool
unfolding missing_worker offline_worker live_worker
still_stuck cutoff true ws j =
    is_active j.status
    && (ltb j.updated_at cutoff
        && (missing_worker ws j || (is_queued j.status && offline_worker ws j)))
still_stuck cutoff false ws j =
    is_active j.status && (ltb j.updated_at cutoff && (is_queued j.status && live_worker ws j))

unfoldable pub fail_stuck_jobs_chunked :
    ℕ
    → ℕ
    → List String
    → String
    → FailureType
    → Bool
    → List Worker
    → List Job
    → List Job × List String
unfolding update_chunks starved_update_chunk_size still_stuck set_stuck
fail_stuck_jobs_chunked now cutoff ids msg type crashed ws jobs =
    update_chunks (length ids) starved_update_chunk_size (still_stuck cutoff crashed ws)
      (set_stuck now msg type) ids jobs

unfoldable pub fail_stuck_active_jobs :
    ℕ → ℕ → List Verdict → String → String → Database → Database × List String
unfolding fail_stuck_jobs_chunked
fail_stuck_active_jobs now cutoff vs infra_msg crash_msg d =
    let (jobs', crashed) =
      fail_stuck_jobs_chunked now cutoff (crash_ids vs) crash_msg worker_crash true d.workers
        d.jobs in
    let (jobs'', others) =
      fail_stuck_jobs_chunked now cutoff (other_ids vs) infra_msg infra false d.workers jobs' in
    (record d { jobs = jobs'' }, crashed ++ others)

-- The numbers of jobs requeued and of workers marked offline.
unfoldable pub recover_state : ℕ → Database → Database × (ℕ × ℕ)
unfolding set_requeued
recover_state now d = (
  record d {
    jobs = update_where (λ j. is_active j.status) (set_requeued now) d.jobs;
    workers = map (λ (w : Worker). record w { status = offline }) d.workers;
  },
  (count_where (λ j. is_active j.status) d.jobs, length d.workers),
)
