-- ===== src/Db/Claims.antt =====
-- AssignPendingJobsToWorker of pkg/server/db/jobs.go, by which a worker pulls its jobs, with
-- GetJobsForWorker and RecordMigrationTarget (migrations.go). The transaction is one step: SQLite
-- serializes its writers.
use Prim.Native.Nat.{Ordering}
use Prim.Native.String.{compare as compare_text}
use rffmpeg.Base.{
  ℕ, String, Bool, true, false, ◌&&◌, ◌||◌, ◌-◌, Option, none, some, List, [], ◌∷◌, ◌++◌, ◌==◌, ltb,
  eqb, if◌then◌else◌, take,
}
use rffmpeg.Base.Tables.{select, count_where, update_where, order_by}
use rffmpeg.Protocol.{queued, busy}
use rffmpeg.Db.{
  Database, Job, JobRedistribution, is_active, is_pending, is_queued, is_idle, holds, is_null,
  select_name,
}
use rffmpeg.Db.Identity.{UuidLibrary, normalize_worker_id}
use rffmpeg.Db.Statements.{pending_unassigned, assignable, set_assigned}
use rffmpeg.Db.Jobs.{update_jobs, rows_affected}

-- WHERE worker_id = ? AND status IN (pending, queued).
unfoldable pub delivered_to : String → Job → Bool
delivered_to worker j = holds j.worker_id worker && (is_pending j.status || is_queued j.status)

-- WHERE worker_id = ? AND status IN (running, queued).
unfoldable pub active_on : String → Job → Bool
active_on worker j = holds j.worker_id worker && is_active j.status

abbrev pub by_creation : List Job → List Job
by_creation = order_by (λ j. j.created_at)

module _ (u : UuidLibrary) where
  unfoldable pub get_jobs_for_worker : String → ℕ → Database → List Job
  unfolding delivered_to normalize_worker_id
  get_jobs_for_worker id limit d =
      take limit (by_creation (select (delivered_to (normalize_worker_id u id)) d.jobs))

  unfoldable pub get_worker_active_job_count : String → Database → ℕ
  unfolding active_on normalize_worker_id
  get_worker_active_job_count id d = count_where (active_on (normalize_worker_id u id)) d.jobs

-- ORDER BY created_at DESC, id DESC: is `a` behind `b`?
older : JobRedistribution → JobRedistribution → Bool
older a b =
    ltb a.created_at b.created_at
    || (eqb a.created_at b.created_at
        && elim (compare_text a.id b.id) [ Ordering.lt ↦ true | _ ↦ false ])

newest : List JobRedistribution → Option JobRedistribution
unfolding older
newest [] = none
newest (r ∷ rs) = elim (newest rs) [
  | none ↦ some r
  | some best ↦ some (if older r best then best else r)
]

abbrev text_or_null : String → Option String
text_or_null s = if s == "" then none else some s

abbrev is_row : Option JobRedistribution → JobRedistribution → Bool
is_row none r = false
is_row (some best) r = r.id == best.id

-- The newest placeholder of the job with no target is given its target.
unfoldable pub record_migration_target : String → String → String → Database → Database
unfolding newest
record_migration_target id worker name d =
    let open_rows =
      select (λ r. (r.job_id == id) && is_null r.target_worker_id) d.job_redistributions in
    record d {
      job_redistributions =
          update_where (is_row (newest open_rows))
            (λ r. record r {
              target_worker_id = some worker;
              target_worker_name = text_or_null name;
            })
            d.job_redistributions;
    }

unfoldable pub record_targets : String → String → List Job → Database → Database
unfolding record_migration_target
record_targets worker name [] d = d
record_targets worker name (j ∷ js) d =
    record_targets worker name js (record_migration_target j.id worker name d)

-- The row as it is returned to the worker.
unfoldable pub claimed_row : ℕ → String → String → Job → Job
claimed_row now worker name j = record j {
  worker_id = some worker;
  assigned_worker = some worker;
  worker_name = text_or_null name;
  status = queued;
  claimed_at = some now;
}

-- One UPDATE of the claiming loop.
unfoldable pub claim : ℕ → String → Job → Database → Database
unfolding assignable set_assigned
claim now worker j d =
    update_jobs (assignable j.id) (set_assigned now worker (select_name worker d.workers)) d

-- The loop over the candidates: a row that the UPDATE no longer matches is left out.
unfoldable pub claim_jobs : ℕ → String → String → List Job → Database → Database × List Job
unfolding claim claimed_row assignable
claim_jobs now worker name [] d = (d, [])
claim_jobs now worker name (j ∷ js) d =
    let (d', rest) = claim_jobs now worker name js (claim now worker j d) in
    (
      d',
      if eqb (rows_affected (assignable j.id) d) 0
          then rest
          else claimed_row now worker name j ∷ rest,
    )

abbrev name_or_empty : Option String → String
name_or_empty none = ""
name_or_empty (some n) = n

-- UPDATE workers SET status = busy WHERE id = ? AND status = idle, if any job was claimed.
unfoldable pub mark_busy : String → List Job → Database → Database
mark_busy worker [] d = d
mark_busy worker (_ ∷ _) d = record d {
  workers =
      update_where (λ w. (w.id == worker) && is_idle w.status) (λ w. record w { status = busy })
        d.workers;
}

-- The pending jobs with no owner, oldest first, as many as the worker has room for.
unfoldable pub candidates : String → ℕ → Database → List Job
unfolding active_on pending_unassigned
candidates worker max_concurrent d =
    take (max_concurrent - count_where (active_on worker) d.jobs)
      (by_creation (select pending_unassigned d.jobs))

-- The body for a normalized identifier. Where there is no room, there are no candidates and
-- nothing is claimed, which is the early return.
unfoldable pub pull : ℕ → String → ℕ → Database → Database × List Job
unfolding candidates claim_jobs mark_busy record_targets delivered_to
pull now worker max_concurrent d =
    let name = name_or_empty (select_name worker d.workers) in
    let waiting = by_creation (select (delivered_to worker) d.jobs) in
    let (d', claimed) = claim_jobs now worker name (candidates worker max_concurrent d) d in
    (record_targets worker name claimed (mark_busy worker claimed d'), waiting ++ claimed)

module _ (u : UuidLibrary) where
  unfoldable pub assign_pending_jobs_to_worker : ℕ → String → ℕ → Database → Database × List Job
  unfolding pull normalize_worker_id
  assign_pending_jobs_to_worker now id max_concurrent d =
      pull now (normalize_worker_id u id) max_concurrent d
