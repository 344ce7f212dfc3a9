-- ===== src/Db/Reports.antt =====
-- Reports that come from a worker which no longer owns the job (pkg/server/db/jobs.go and migrations.go,
-- with the dispatch of pkg/server/handlers/jobs.go).
use rffmpeg.Base.{ℕ, String, Bool, true, false, ◌≡◌, ap, some, ◌==◌, arith, Bool-cases, inl, inr}
use rffmpeg.Base.Tables.{exists_where, find_where, update-none, exists-count, count_mono}
use rffmpeg.Protocol.{JobStatus, err, job_not_owned, is_terminal_status}
use rffmpeg.Db.{Database, Job, Worker, is_offline}
use rffmpeg.Db.Identity.{UuidLibrary, normalize_worker_id}
use rffmpeg.Db.Statements.{Report, owned_active}
use rffmpeg.Db.Jobs.{
  update_jobs, rows_affected, update_job_terminal_status_with_owner,
  update_job_running_status_with_owner,
}
use rffmpeg.Db.Claims.{active_on}
use rffmpeg.Db.Migrations.{migrate_jobs_from_worker}
use rffmpeg.Db.Operations.{report}
use rffmpeg.Db.Failover.{migrate_jobs-drained}

-- An UPDATE that matches no row leaves the database as it is.
update_jobs-none :
    (g : Job → Bool) (s : Job → Job) (d : Database) → rows_affected g d ≡ 0 → update_jobs g s d ≡ d
update_jobs-none g s d h = ap (λ js. record d { jobs = js }) (update-none g s d.jobs h)

report_unowned :
    (now : ℕ) (id worker : String) (status : JobStatus) (r : Report) (cached : Bool) (d : Database)
    → rows_affected (owned_active id worker) d ≡ 0
    → report now id worker status r cached d ≡ (d, err job_not_owned)
unfolding report update_job_terminal_status_with_owner update_job_running_status_with_owner
report_unowned now id worker status r cached d h = elim (Bool-cases (is_terminal_status status)) [
  | inl e ↦ rw (e, h) (ap (λ x. (x, err job_not_owned)) (update_jobs-none _ _ d h))
  | inr e ↦ rw (e, h) (ap (λ x. (x, err job_not_owned)) (update_jobs-none _ _ d h))
]

owned-active :
    (id worker : String) (j : Job) → owned_active id worker j ≡ true → active_on worker j ≡ true
unfolding owned_active active_on
owned-active id worker j h = ground arith

none-owned :
    (id worker : String) (d : Database)
    → exists_where (active_on worker) d.jobs ≡ false
    → rows_affected (owned_active id worker) d ≡ 0
none-owned id worker d h = omega (
  arith,
  exists-count (active_on worker) d.jobs h,
  count_mono (owned_active id worker) (active_on worker) (owned-active id worker) d.jobs,
)

module _ (u : UuidLibrary) where
  -- After the jobs of an offline worker have been migrated, a report of that worker for any job, with
  -- a terminal status or not, is refused with ErrJobNotOwned and changes nothing in the database.
  pub report-migrate_jobs :
      (now : ℕ) (event_id : String) (row_id : String → String) (id reason : String) (n : ℕ)
      (w : Worker) (d : Database)
      → find_where (λ v. v.id == normalize_worker_id u id) d.workers ≡ some w
      → is_offline w.status ≡ true
      → (later : ℕ) (job : String) (status : JobStatus) (r : Report) (cached : Bool)
      → report later job w.id status r cached
          (migrate_jobs_from_worker u now event_id row_id id reason n d).0
        ≡ ((migrate_jobs_from_worker u now event_id row_id id reason n d).0, err job_not_owned)
  report-migrate_jobs now event_id row_id id reason n w d found gone later job status r cached =
      let d' = (migrate_jobs_from_worker u now event_id row_id id reason n d).0 in
      report_unowned later job w.id status r cached d' (
        none-owned job w.id d'
          (migrate_jobs-drained u now event_id row_id id reason n w d found gone))
