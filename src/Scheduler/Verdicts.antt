-- ===== src/Scheduler/Verdicts.antt =====
-- What the sweeps of pkg/server/scheduler/scheduler.go tell the outside, and when they judge.
use rffmpeg.Base.{
  ℕ, ◌-◌, String, Bool, true, ◌||◌, ◌≡◌, refl, sym, ◌∙◌, Option, none, some, List, [], ◌∷◌, ◌++◌,
  arith, reverse_aux, append-nil, append_assoc, if◌then◌else◌,
}
use rffmpeg.Base.Tables.{exists_where, select, order_by, exists-order_by}
use rffmpeg.Db.{Database, Job, Worker}
use rffmpeg.Db.Workers.{get_live_schedulable_workers, live_schedulable}
use rffmpeg.Db.Sweeps.{Verdict, get_stuck_active_jobs, fail_stuck_active_jobs}
use rffmpeg.Scheduler.{Config, State}
use rffmpeg.Scheduler.Selection.{window}
use rffmpeg.Scheduler.Ticks.{
  Host, notify, announce, announce_all, crashed_of, stuck_crash_msg, sweep_stuck_jobs,
  starve_judged, starve_unless_live, check_no_worker_starvation,
}

module _ {ℓ} {A : Type ℓ} (p : A → Bool) where
  exists-reverse_aux :
      (xs ys : List A)
      → exists_where p (reverse_aux xs ys) ≡ (exists_where p xs || exists_where p ys)
  unfolding exists_where
  exists-reverse_aux [] ys = refl
  exists-reverse_aux (x ∷ xs) ys = ground (arith, exists-reverse_aux xs (x ∷ ys))

  exists-select_self : (xs : List A) → exists_where p (select p xs) ≡ exists_where p xs
  unfolding exists_where select
  exists-select_self [] = refl
  exists-select_self (x ∷ xs) = ground (arith, exists-select_self xs)

-- A live worker is among those that the query answers with.
live-found :
    (cutoff : Option ℕ) (d : Database)
    → exists_where (live_schedulable cutoff) (get_live_schedulable_workers cutoff d)
      ≡ exists_where (live_schedulable cutoff) d.workers
unfolding get_live_schedulable_workers exists_where
live-found cutoff d =
    let ws = select (live_schedulable cutoff) d.workers in
    exists-reverse_aux (live_schedulable cutoff) (order_by (λ w. w.last_heartbeat) ws) []
    ∙ or_none _
    ∙ exists-order_by (live_schedulable cutoff) _ ws
    ∙ exists-select_self (live_schedulable cutoff) d.workers
  where
    or_none : (b : Bool) → (b || exists_where (live_schedulable cutoff) []) ≡ b
    or_none b = ground arith

judged-live :
    (host : Host) (now limit : ℕ) (p : Worker → Bool) (js : List Job) (ws : List Worker) (s : State)
    → exists_where p ws ≡ true
    → starve_judged host now limit js ws s ≡ s
unfolding exists_where
judged-live host now limit p [] ws s h = refl
judged-live host now limit p (j ∷ js) [] s h = ground arith
judged-live host now limit p (j ∷ js) (w ∷ ws) s h = refl

-- Pending jobs are not failed as starved while one worker is online, not evicted and has a fresh
-- heartbeat: the check then changes nothing and announces nothing.
pub starvation-live :
    (host : Host) (config : Config) (now : ℕ) (s : State)
    → exists_where (live_schedulable (window now config.heartbeat_freshness)) s.db.workers ≡ true
    → check_no_worker_starvation host now config s ≡ s
unfolding check_no_worker_starvation
starvation-live host config now s h = by_limit config.no_worker_job_timeout
  where
    by_limit : (limit : Option ℕ) → starve_unless_live host now config limit s ≡ s
    by_limit none = refl
    by_limit (some limit) =
        judged-live host now limit (live_schedulable (window now config.heartbeat_freshness)) _ _ s
          (live-found (window now config.heartbeat_freshness) s.db ∙ h)

announce_all-notified :
    (vs : List Verdict) (m n : String) (ids : List String) (s : State)
    → (announce_all vs m n ids s).db.notified ≡ s.db.notified ++ ids
unfolding announce_all announce notify
announce_all-notified vs m n [] s = sym (append-nil s.db.notified)
announce_all-notified vs m n (id ∷ ids) s =
    announce_all-notified vs m n ids (announce id (if crashed_of vs id then n else m) s)
    ∙ append_assoc s.db.notified (id ∷ []) ids

-- The terminal notifications of the stuck-job sweep go out for exactly the jobs that its update failed,
-- in that order, where the sweep is enabled.
pub sweep-notified :
    (host : Host) (config : Config) (now limit : ℕ) (s : State)
    → config.stuck_job_timeout ≡ some limit
    → (sweep_stuck_jobs host now config s).db.notified
      ≡ s.db.notified
        ++ (fail_stuck_active_jobs now
            (now - limit)
            (get_stuck_active_jobs (now - limit) s.db)
            (host.stuck_msg limit)
            stuck_crash_msg
            s.db).1
unfolding sweep_stuck_jobs fail_stuck_active_jobs
sweep-notified host config now limit s h = rw h (
    announce_all-notified (get_stuck_active_jobs (now - limit) s.db) (host.stuck_msg limit)
      stuck_crash_msg
      (fail_stuck_active_jobs now (now - limit) (get_stuck_active_jobs (now - limit) s.db)
        (host.stuck_msg limit) stuck_crash_msg s.db).1
      (record s {
        db =
            (fail_stuck_active_jobs now (now - limit) (get_stuck_active_jobs (now - limit) s.db)
              (host.stuck_msg limit) stuck_crash_msg s.db).0;
      }))
