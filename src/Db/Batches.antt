-- ===== src/Db/Batches.antt =====
-- The methods of pkg/server/db that change many jobs are steps of the table `jobs`: the pull of a
-- worker, the sweeps, the recovery and the failover.
use rffmpeg.Base.{
  ℕ, suc, zero, String, Bool, true, false, ◌≡◌, refl, Option, none, some, List, [], ◌∷◌, ◌==◌, take,
  drop, length, and_left, and_right,
}
use rffmpeg.Base.Tables.{find_where}
use rffmpeg.Protocol.{FailureType}
use rffmpeg.Db.{Database, Job, Worker, is_active, is_offline}
use rffmpeg.Db.Identity.{UuidLibrary, normalize_worker_id}
use rffmpeg.Db.Claims.{
  claim, claim_jobs, record_targets, record_migration_target, mark_busy, candidates,
  assign_pending_jobs_to_worker,
}
use rffmpeg.Db.Sweeps.{
  starved_update_chunk_size, Verdict, contains, update_chunks, fail_starved_jobs_chunked,
  fail_starved_pending_jobs, still_stuck, fail_stuck_jobs_chunked, fail_stuck_active_jobs,
  recover_state, crash_ids, other_ids,
}
use rffmpeg.Db.Migrations.{
  JobRetry, record_job_timeout_migration, reset_job, reset_jobs, crash_job, crash_jobs, audit,
  migrate, migrate_jobs_from_worker, migrate_if_offline, notify_all, within_budget, past_budget,
}
use rffmpeg.Db.Lifecycle.{
  IsConsistent, set_assigned-IsConsistent, set_requeued-IsConsistent, set_reset-IsConsistent,
  set_starved-IsConsistent, set_stuck-IsConsistent, set_crashed-IsConsistent,
}
use rffmpeg.Db.History.{
  Evolves, IsStep, IsStep-refl, IsStep-trans, update-IsStep, set_assigned-Evolves,
  set_requeued-Evolves, set_reset-Evolves, set_starved-Evolves, set_stuck-Evolves,
  set_crashed-Evolves,
}
use rffmpeg.Db.Steps.{Steps, either, requeued}

pub claim-Steps :
    (now : ℕ) (worker : String) (j : Job) (d : Database) → Steps d (claim now worker j d)
unfolding claim
claim-Steps now worker j d =
    update-IsStep _ _ (set_assigned-IsConsistent j.id worker now _)
      (set_assigned-Evolves j.id worker now _) d.jobs

claim_jobs-Steps :
    (now : ℕ) (worker name : String) (js : List Job) (d : Database)
    → Steps d (claim_jobs now worker name js d).0
unfolding claim_jobs
claim_jobs-Steps now worker name [] d = IsStep-refl d.jobs
claim_jobs-Steps now worker name (j ∷ js) d =
    IsStep-trans d.jobs (claim now worker j d).jobs _ (claim-Steps now worker j d)
      (claim_jobs-Steps now worker name js (claim now worker j d))

-- The target column and the workers are no columns of `jobs`.
pub record_targets-jobs :
    (worker name : String) (js : List Job) (d : Database)
    → (record_targets worker name js d).jobs ≡ d.jobs
unfolding record_targets
record_targets-jobs worker name [] d = refl
record_targets-jobs worker name (j ∷ js) d =
    record_targets-jobs worker name js (record_migration_target j.id worker name d)

pub mark_busy-jobs :
    (worker : String) (js : List Job) (d : Database) → (mark_busy worker js d).jobs ≡ d.jobs
unfolding mark_busy
mark_busy-jobs worker [] d = refl
mark_busy-jobs worker (j ∷ js) d = refl

pub assign_pending-Steps :
    (u : UuidLibrary) (now : ℕ) (id : String) (max_concurrent : ℕ) (d : Database)
    → Steps d (assign_pending_jobs_to_worker u now id max_concurrent d).0
unfolding assign_pending_jobs_to_worker
assign_pending-Steps u now id max_concurrent d =
    rw (record_targets-jobs, mark_busy-jobs)
      (claim_jobs-Steps now (normalize_worker_id u id) _
        (candidates (normalize_worker_id u id) max_concurrent d) d)

update_chunks-IsStep :
    (fuel size : ℕ) (g : Job → Bool) (s : Job → Job)
    → ((j : Job) → g j ≡ true → IsConsistent j → IsConsistent (s j))
    → ((j : Job) → g j ≡ true → Evolves j (s j))
    → (ids : List String) (js : List Job) → IsStep js (update_chunks fuel size g s ids js).0
unfolding update_chunks
update_chunks-IsStep zero size g s c e [] js = IsStep-refl js
update_chunks-IsStep (suc fuel) size g s c e [] js = IsStep-refl js
update_chunks-IsStep zero size g s c e (i ∷ is) js = IsStep-refl js
update_chunks-IsStep (suc fuel) size g s c e (i ∷ is) js =
    IsStep-trans js _ _
      (update-IsStep _ s (λ j h. c j (and_right (contains (take size (i ∷ is)) j.id) (g j) h))
        (λ j h. e j (and_right (contains (take size (i ∷ is)) j.id) (g j) h)) js)
      (update_chunks-IsStep fuel size g s c e (drop size (i ∷ is)) _)

starved_pass :
    (now cutoff : ℕ) (ids : List String) (msg : String) (type : FailureType) (js : List Job)
    → IsStep js (fail_starved_jobs_chunked now ids msg type cutoff js).0
unfolding fail_starved_jobs_chunked
starved_pass now cutoff ids msg type js =
    update_chunks-IsStep (length ids) starved_update_chunk_size _ _
      (set_starved-IsConsistent cutoff now msg type) (set_starved-Evolves cutoff now msg type) ids
      js

pub fail_starved-Steps :
    (now cutoff : ℕ) (vs : List Verdict) (m n : String) (d : Database)
    → Steps d (fail_starved_pending_jobs now cutoff vs m n d).0
unfolding fail_starved_pending_jobs
fail_starved-Steps now cutoff vs m n d =
    IsStep-trans d.jobs _ _
      (starved_pass now cutoff (crash_ids vs) n FailureType.worker_crash d.jobs)
      (starved_pass now cutoff (other_ids vs) m FailureType.no_worker_available _)

still_stuck_active :
    (cutoff : ℕ) (crashed : Bool) (ws : List Worker) (j : Job)
    → still_stuck cutoff crashed ws j ≡ true
    → is_active j.status ≡ true
unfolding still_stuck
still_stuck_active cutoff true ws j h = and_left _ _ h
still_stuck_active cutoff false ws j h = and_left _ _ h

stuck_pass :
    (now cutoff : ℕ) (ids : List String) (msg : String) (type : FailureType) (crashed : Bool)
    (ws : List Worker) (js : List Job)
    → IsStep js (fail_stuck_jobs_chunked now cutoff ids msg type crashed ws js).0
unfolding fail_stuck_jobs_chunked
stuck_pass now cutoff ids msg type crashed ws js =
    update_chunks-IsStep (length ids) starved_update_chunk_size _ _
      (λ j h. set_stuck-IsConsistent now msg type j (still_stuck_active cutoff crashed ws j h))
      (λ j h. set_stuck-Evolves now msg type j (still_stuck_active cutoff crashed ws j h)) ids js

pub fail_stuck-Steps :
    (now cutoff : ℕ) (vs : List Verdict) (m n : String) (d : Database)
    → Steps d (fail_stuck_active_jobs now cutoff vs m n d).0
unfolding fail_stuck_active_jobs
fail_stuck-Steps now cutoff vs m n d =
    IsStep-trans d.jobs _ _
      (stuck_pass now cutoff (crash_ids vs) n FailureType.worker_crash true d.workers d.jobs)
      (stuck_pass now cutoff (other_ids vs) m FailureType.infra false d.workers _)

pub recover_state-Steps : (now : ℕ) (d : Database) → Steps d (recover_state now d).0
unfolding recover_state
recover_state-Steps now d =
    update-IsStep _ _ (set_requeued-IsConsistent now) (set_requeued-Evolves now) d.jobs

pub timeout_migration-Steps :
    (now : ℕ) (event_id : String) (row_id : String → String) (worker id : String) (n : ℕ)
    (d : Database)
    → Steps d (record_job_timeout_migration now event_id row_id worker id n d).0
unfolding record_job_timeout_migration
timeout_migration-Steps now event_id row_id worker id n d =
    either d _ _ _ (IsStep-refl d.jobs) (requeued now id d)

reset_jobs-Steps :
    (now : ℕ) (worker : String) (rs : List JobRetry) (d : Database)
    → Steps d (reset_jobs now worker rs d).0
unfolding reset_jobs
reset_jobs-Steps now worker [] d = IsStep-refl d.jobs
reset_jobs-Steps now worker (r ∷ rs) d =
    IsStep-trans d.jobs (reset_job now worker r.id d).jobs _
      (update-IsStep _ _ (set_reset-IsConsistent r.id worker now)
        (set_reset-Evolves r.id worker now) d.jobs)
      (reset_jobs-Steps now worker rs (reset_job now worker r.id d))

crash_jobs-Steps :
    (now : ℕ) (worker : String) (rs : List JobRetry) (d : Database)
    → Steps d (crash_jobs now worker rs d).0
unfolding crash_jobs
crash_jobs-Steps now worker [] d = IsStep-refl d.jobs
crash_jobs-Steps now worker (r ∷ rs) d =
    IsStep-trans d.jobs (crash_job now worker r.id d).jobs _
      (update-IsStep _ _ (set_crashed-IsConsistent r.id worker now _)
        (set_crashed-Evolves r.id worker now _) d.jobs)
      (crash_jobs-Steps now worker rs (crash_job now worker r.id d))

audit-Steps :
    (now : ℕ) (event_id : String) (row_id : String → String) (worker : String)
    (name : Option String) (reason : String) (rs : List JobRetry) (d : Database)
    → Steps d (audit now event_id row_id worker name reason rs d)
unfolding audit
audit-Steps now event_id row_id worker name reason [] d = IsStep-refl d.jobs
audit-Steps now event_id row_id worker name reason (r ∷ rs) d = IsStep-refl d.jobs

pub notify_all-jobs : (ids : List String) (d : Database) → (notify_all ids d).jobs ≡ d.jobs
unfolding notify_all
notify_all-jobs [] d = refl
notify_all-jobs (id ∷ ids) d = notify_all-jobs ids _

-- The three passes of a migration: the resets, their audit rows, the failures.
passes-Steps :
    (now : ℕ) (event_id : String) (row_id : String → String) (w : Worker) (reason : String)
    (rs fs : List JobRetry) (d : Database)
    → Steps d
        (crash_jobs now w.id fs (
          audit now event_id row_id w.id
            (some w.name)
            reason
            (reset_jobs now w.id rs d).1
            (reset_jobs now w.id rs d).0)).0
passes-Steps now event_id row_id w reason rs fs d =
    let (d₁, migrated) = reset_jobs now w.id rs d in
    let d₂ = audit now event_id row_id w.id (some w.name) reason migrated d₁ in
    IsStep-trans d.jobs d₁.jobs (crash_jobs now w.id fs d₂).0.jobs (reset_jobs-Steps now w.id rs d)
      (IsStep-trans d₁.jobs d₂.jobs _
        (audit-Steps now event_id row_id w.id (some w.name) reason migrated d₁)
        (crash_jobs-Steps now w.id fs d₂))

migrate-Steps :
    (now : ℕ) (event_id : String) (row_id : String → String) (w : Worker) (reason : String) (n : ℕ)
    (d : Database)
    → Steps d (migrate now event_id row_id w reason n d).0
unfolding migrate
migrate-Steps now event_id row_id w reason n d =
    rw notify_all-jobs
      (passes-Steps now event_id row_id w reason (within_budget n w.id d) (past_budget n w.id d) d)

pub migrate_jobs-Steps :
    (u : UuidLibrary) (now : ℕ) (event_id : String) (row_id : String → String) (id reason : String)
    (n : ℕ) (d : Database)
    → Steps d (migrate_jobs_from_worker u now event_id row_id id reason n d).0
unfolding migrate_jobs_from_worker
migrate_jobs-Steps u now event_id row_id id reason n d =
    go (find_where (λ w. w.id == normalize_worker_id u id) d.workers)
  where
    go : (w : Option Worker) → Steps d (migrate_if_offline now event_id row_id reason n w d).0
    go none = IsStep-refl d.jobs
    go (some w) =
        either d (is_offline w.status) _ _ (migrate-Steps now event_id row_id w reason n d)
          (IsStep-refl d.jobs)
