-- ===== src/Db/Failover.antt =====
-- What a migration leaves behind (MigrateJobsFromWorker of pkg/server/db/migrations.go).
use rffmpeg.Base.{
  ℕ, String, Bool, true, false, ◌&&◌, ◌||◌, ◌≡◌, refl, sym, ◌∙◌, ap, ap₂, Option, some, List, [],
  ◌∷◌, ◌++◌, ◌==◌, arith, if◌then◌else◌, Bool-cases, inl, inr, eq_iff, eq_refl, not, leb,
}
use rffmpeg.Base.Tables.{
  select, exists_where, update_where, find_where, exists-order_by, exists-select-split,
  exists_congr, exists-map, exists-append,
}
use rffmpeg.Db.{Database, Job, Worker, is_offline}
use rffmpeg.Db.Identity.{UuidLibrary, normalize_worker_id}
use rffmpeg.Db.Statements.{owned_active, set_reset, set_crashed}
use rffmpeg.Db.Claims.{active_on, by_creation}
use rffmpeg.Db.Sweeps.{contains}
use rffmpeg.Db.Migrations.{
  JobRetry, retry_ids, active_retries, within_budget, past_budget, reset_job, reset_jobs, crash_job,
  crash_jobs, audit, migrate, max_retry_msg, migrate_jobs_from_worker,
}
use rffmpeg.Db.Batches.{notify_all-jobs}

-- An active job of the worker that is not on the list.
abbrev uncovered : String → List String → Job → Bool
uncovered worker ids j = active_on worker j && not (contains ids j.id)

-- `==` of two texts does not depend on their order.
==-comm : (a b : String) → (a == b) ≡ (b == a)
==-comm a b = elim (Bool-cases (a == b)) [
  | inl e ↦ rw (e, (eq_iff b a).1 (sym ((eq_iff a b).0 e)))
  | inr e ↦ ground (arith, eq_iff a b, eq_iff b a)
]

-- If one UPDATE takes the rows of one identifier off the worker, the list may lose that identifier.
module _ (worker : String) (s : Job → Job) (off : (j : Job) → active_on worker (s j) ≡ false) where
  uncovered_row :
      (id : String) (ids : List String) (j : Job)
      → uncovered worker (id ∷ ids) j ≡ false
      → uncovered worker ids (if owned_active id worker j then s j else j) ≡ false
  unfolding owned_active active_on contains exists_where
  uncovered_row id ids j h = ground (arith, off j, ==-comm id j.id)

  pub uncovered-update :
      (id : String) (ids : List String) (js : List Job)
      → exists_where (uncovered worker (id ∷ ids)) js ≡ false
      → exists_where (uncovered worker ids) (update_where (owned_active id worker) s js) ≡ false
  unfolding exists_where update_where
  uncovered-update id ids [] h = refl
  uncovered-update id ids (j ∷ js) h =
      ground (arith, uncovered_row id ids j, uncovered-update id ids js)

set_reset_off : (worker : String) (now : ℕ) (j : Job) → active_on worker (set_reset now j) ≡ false
unfolding active_on set_reset
set_reset_off worker now j = refl

set_crashed_off :
    (worker : String) (now : ℕ) (msg : String) (j : Job)
    → active_on worker (set_crashed now msg j) ≡ false
unfolding active_on set_crashed
set_crashed_off worker now msg j = refl

reset_jobs-uncovered :
    (now : ℕ) (worker : String) (rs : List JobRetry) (ids : List String) (d : Database)
    → exists_where (uncovered worker (retry_ids rs ++ ids)) d.jobs ≡ false
    → exists_where (uncovered worker ids) (reset_jobs now worker rs d).0.jobs ≡ false
unfolding reset_jobs reset_job
reset_jobs-uncovered now worker [] ids d h = h
reset_jobs-uncovered now worker (r ∷ rs) ids d h =
    reset_jobs-uncovered now worker rs ids (reset_job now worker r.id d) (
      uncovered-update worker (set_reset now) (set_reset_off worker now) r.id (retry_ids rs ++ ids)
        d.jobs h)

crash_jobs-uncovered :
    (now : ℕ) (worker : String) (rs : List JobRetry) (d : Database)
    → exists_where (uncovered worker (retry_ids rs)) d.jobs ≡ false
    → exists_where (uncovered worker []) (crash_jobs now worker rs d).0.jobs ≡ false
unfolding crash_jobs crash_job
crash_jobs-uncovered now worker [] d h = h
crash_jobs-uncovered now worker (r ∷ rs) d h =
    crash_jobs-uncovered now worker rs (crash_job now worker r.id d) (
      uncovered-update worker (set_crashed now max_retry_msg)
        (set_crashed_off worker now max_retry_msg) r.id (retry_ids rs) d.jobs h)

-- The rows read cover the active jobs: each row's own identifier is among those selected.
covered_self :
    (p : Job → Bool) (xs zs : List Job)
    → ((x : String)
        → exists_where (λ j. j.id == x) (select p xs) ≡ true
        → exists_where (λ j. j.id == x) zs ≡ true)
    → exists_where (λ j. p j && not (exists_where (λ k. k.id == j.id) zs)) xs ≡ false
unfolding exists_where select
covered_self p [] zs h = refl
covered_self p (x ∷ xs) zs h =
    ground (arith, h x.id, eq_refl x.id, covered_self p xs zs (λ i e. h i (ground (arith, e))))

contains-retries :
    (n : ℕ) (worker : String) (d : Database) (x : String)
    → contains (retry_ids (within_budget n worker d) ++ retry_ids (past_budget n worker d)) x
      ≡ exists_where (λ j. j.id == x) (select (active_on worker) d.jobs)
unfolding contains within_budget past_budget active_retries
contains-retries n worker d x =
    exists-append _ (retry_ids (within_budget n worker d)) _
    ∙ ap₂ ◌||◌ (exists-map _ _ (within_budget n worker d)) (exists-map _ _ (past_budget n worker d))
    ∙ exists-select-split (λ (r : JobRetry). r.id == x) (λ r. leb n r.count)
        (active_retries worker d)
    ∙ exists-map _ _ (by_creation (select (active_on worker) d.jobs))
    ∙ exists-order_by (λ (j : Job). j.id == x) _ _

retries_cover :
    (n : ℕ) (worker : String) (d : Database)
    → exists_where
        (uncovered worker
          (retry_ids (within_budget n worker d) ++ retry_ids (past_budget n worker d)))
        d.jobs
      ≡ false
retries_cover n worker d =
    exists_congr _ _ (λ j. ap (λ b. active_on worker j && not b) (contains-retries n worker d j.id))
      d.jobs
    ∙ covered_self (active_on worker) d.jobs _ (λ x e. e)

audit-jobs :
    (now : ℕ) (event_id : String) (row_id : String → String) (worker : String)
    (name : Option String) (reason : String) (rs : List JobRetry) (d : Database)
    → (audit now event_id row_id worker name reason rs d).jobs ≡ d.jobs
unfolding audit
audit-jobs now event_id row_id worker name reason [] d = refl
audit-jobs now event_id row_id worker name reason (r ∷ rs) d = refl

-- The three passes together leave no active job.
passes-uncovered :
    (now : ℕ) (event_id : String) (row_id : String → String) (w : Worker) (reason : String)
    (rs fs : List JobRetry) (d : Database)
    → exists_where (uncovered w.id (retry_ids rs ++ retry_ids fs)) d.jobs ≡ false
    → exists_where
        (uncovered w.id [])
        (crash_jobs now w.id fs (
          audit now event_id row_id w.id
            (some w.name)
            reason
            (reset_jobs now w.id rs d).1
            (reset_jobs now w.id rs d).0)).0.jobs
      ≡ false
passes-uncovered now event_id row_id w reason rs fs d h =
    let reset = reset_jobs now w.id rs d in
    crash_jobs-uncovered now w.id fs
      (audit now event_id row_id w.id (some w.name) reason reset.1 reset.0)
      (ap (exists_where (uncovered w.id (retry_ids fs)))
          (audit-jobs now event_id row_id w.id (some w.name) reason reset.1 reset.0)
        ∙ reset_jobs-uncovered now w.id rs (retry_ids fs) d h)

uncovered_none : (worker : String) (j : Job) → active_on worker j ≡ uncovered worker [] j
unfolding contains exists_where
uncovered_none worker j = ground arith

migrate-drained :
    (now : ℕ) (event_id : String) (row_id : String → String) (w : Worker) (reason : String) (n : ℕ)
    (d : Database)
    → exists_where (active_on w.id) (migrate now event_id row_id w reason n d).0.jobs ≡ false
unfolding migrate
migrate-drained now event_id row_id w reason n d = rw notify_all-jobs (
    exists_congr _ _ (uncovered_none w.id) _
    ∙ passes-uncovered now event_id row_id w reason (within_budget n w.id d) (past_budget n w.id d)
        d (retries_cover n w.id d))

module _ (u : UuidLibrary) where
  -- After MigrateJobsFromWorker has found the worker offline, no job of it is queued or running: each
  -- went back to pending or failed.
  pub migrate_jobs-drained :
      (now : ℕ) (event_id : String) (row_id : String → String) (id reason : String) (n : ℕ)
      (w : Worker) (d : Database)
      → find_where (λ v. v.id == normalize_worker_id u id) d.workers ≡ some w
      → is_offline w.status ≡ true
      → exists_where
          (active_on w.id)
          (migrate_jobs_from_worker u now event_id row_id id reason n d).0.jobs
        ≡ false
  unfolding migrate_jobs_from_worker
  migrate_jobs-drained now event_id row_id id reason n w d found gone =
      rw (found, gone) (migrate-drained now event_id row_id w reason n d)
