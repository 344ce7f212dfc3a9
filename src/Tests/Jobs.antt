-- ===== src/Tests/Jobs.antt =====
-- The life of a job: submission, pull, reports, failover.
use rffmpeg.Base.{
  ℕ, ◌≤◌, String, ◌≡◌, ◌≢◌, refl, eq_iff, List, [], ◌∷◌, true, false, arith, All, Extends, map, max,
}
use rffmpeg.Base.Tables.{exists_where, order_by, update_where, select, count_where}
use rffmpeg.Protocol.{is_terminal_status, JobStatus, pending, running, completed}
use rffmpeg.Db.{Database}
use rffmpeg.Db.Identity.{normalize_worker_id}
use rffmpeg.Db.Claims.{assign_pending_jobs_to_worker, get_worker_active_job_count, delivered_to}
use rffmpeg.Db.Lifecycle.{IsConsistent}
use rffmpeg.Db.History.{Evolves}
use rffmpeg.Db.Sweeps.{recover_state}
use rffmpeg.Db.Jobs.{create_job_with_streaming}
use rffmpeg.Db.Operations.{
  report, Call, creates, reports, pulls, recovers, run, run-IsConsistent, run-Evolves,
}
use rffmpeg.Db.Capacity.{active-pull-le, pull-delivered}
use rffmpeg.Tests.Fixtures.{
  cluster-IsConsistent, cluster-IsKeyed, plain, transcode, success, cluster,
}

abbrev history : List (ℕ × Call)
history =
    (30, creates "j4" transcode)
    ∷ (31, pulls "a" 2)
    ∷ (32, reports "j1" "a" completed success true)
    ∷ (33, reports "j1" "a" running success false)
    ∷ (34, recovers)
    ∷ []

abbrev statuses : Database → List JobStatus
statuses d = map (λ j. j.status) d.jobs

-- The pull fills the second place; the finished job stays finished; the recovery requeues the other.
history_ends : statuses (run plain history cluster) ≡ completed ∷ pending ∷ pending ∷ pending ∷ []
unfolding run recover_state update_where report is_terminal_status count_where
    assign_pending_jobs_to_worker create_job_with_streaming exists_where order_by select
history_ends = refl

run-IsConsistent_example : All IsConsistent (run plain history cluster).jobs
run-IsConsistent_example = run-IsConsistent plain history cluster cluster-IsConsistent

run-Evolves_example : Extends Evolves cluster.jobs (run plain history cluster).jobs
run-Evolves_example = run-Evolves plain history cluster

b_ne_a : ◌≢◌ {A = String} "b" "a"
b_ne_a = ground (arith, eq_iff "b" "a")

-- The worker runs one job and may run two: it gets one more.
active-pull-le_example :
    get_worker_active_job_count plain "a" (assign_pending_jobs_to_worker plain 31 "a" 2 cluster).0
    ≤ max 2 (get_worker_active_job_count plain "a" cluster)
active-pull-le_example = active-pull-le plain 31 "a" 2 cluster cluster-IsKeyed

pull-delivered_example :
    All
      (λ j. delivered_to (normalize_worker_id plain "a") j ≡ true)
      (assign_pending_jobs_to_worker plain 31 "a" 2 cluster).1
pull-delivered_example = pull-delivered plain 31 "a" 2 cluster

pull_takes_one :
    map (λ j. j.id) (assign_pending_jobs_to_worker plain 31 "a" 2 cluster).1 ≡ "j2" ∷ []
unfolding assign_pending_jobs_to_worker order_by select count_where
pull_takes_one = refl
