-- ===== src/Db/Candidates.antt =====
-- The rows that the candidate queries of pkg/server/db/workers.go answer with.
use rffmpeg.Base.{
  ℕ, String, Bool, true, ◌&&◌, ◌≡◌, refl, Option, List, All, All-reverse, All-map, All-weaken,
  reverse,
}
use rffmpeg.Base.Tables.{count_where, select, order_by, All-select_pass, All-order_by}
use rffmpeg.Db.{Database, Worker}
use rffmpeg.Db.Claims.{active_on}
use rffmpeg.Db.Workers.{
  Load, idle_candidate, has_encoder, get_idle_workers, get_idle_workers_by_encoder,
  fill_worker_job_counts, get_idle_workers_with_job_count,
  get_idle_workers_by_encoder_with_job_count,
}
use rffmpeg.Db.Ranking.{sort-All}

-- A registered worker that passes a test, with its true number of active jobs.
pub record IsRow (P : Worker → Type 0) (test : Worker → Bool) (d : Database) (l : Load)
    : Type 0 where
  pub registered : P l.worker
  pub passes : test l.worker ≡ true
  pub counted : l.active_jobs ≡ count_where (active_on l.worker.id) d.jobs

module _ (P : Worker → Type 0) (d : Database) (all : All P d.workers) where
  rows :
      (test : Worker → Bool) (ws : List Worker)
      → All (λ w. P w × (test w ≡ true)) ws
      → All (IsRow P test d) (fill_worker_job_counts d ws)
  unfolding fill_worker_job_counts
  rows test ws a =
      All-map (IsRow P test d) _ ws
        (All-weaken _ _ (λ w h. record { registered = h.0; passes = h.1; counted = refl }) ws a)

  selected :
      (test : Worker → Bool)
      → All
          (λ w. P w × (test w ≡ true))
          (reverse (order_by (λ w. w.last_heartbeat) (select test d.workers)))
  selected test =
      All-reverse (λ w. P w × (test w ≡ true)) _
        (All-order_by (λ w. P w × (test w ≡ true)) _ _ (All-select_pass P test d.workers all))

  pub idle-rows :
      (cutoff : Option ℕ)
      → All (IsRow P (idle_candidate cutoff) d) (get_idle_workers_with_job_count cutoff d)
  unfolding get_idle_workers_with_job_count get_idle_workers
  idle-rows cutoff = rows _ _ (selected (idle_candidate cutoff))

  pub encoder-rows :
      (encoder : String) (cutoff : Option ℕ)
      → All
          (IsRow P (λ w. idle_candidate cutoff w && has_encoder encoder w) d)
          (get_idle_workers_by_encoder_with_job_count encoder cutoff d)
  unfolding get_idle_workers_by_encoder_with_job_count get_idle_workers_by_encoder
  encoder-rows encoder cutoff =
      sort-All _ _ (rows _ _ (selected (λ w. idle_candidate cutoff w && has_encoder encoder w)))
