-- ===== src/Scheduler/Fit.antt =====
-- The worker that scheduleJob of pkg/server/scheduler/scheduler.go chooses for a job.
use rffmpeg.Base.{
  ℕ, ◌<◌, String, Bool, true, ◌||◌, ◌≡◌, subst, Option, none, some, List, [], ◌∷◌, ◌==◌, arith, All,
  All-weaken, Bool-cases, inl, inr, and_left, and_right, ltb→lt,
}
use rffmpeg.Base.Tables.{count_where, exists_where}
use rffmpeg.Db.{Database, Job, Worker}
use rffmpeg.Db.Claims.{active_on}
use rffmpeg.Db.Workers.{
  Load, idle_candidate, has_encoder, get_idle_workers_by_encoder_with_job_count,
}
use rffmpeg.Db.Candidates.{IsRow, idle-rows, encoder-rows}
use rffmpeg.Scheduler.{Config}
use rffmpeg.Scheduler.Encoders.{GoLibrary, get_compatible_encoders, extract_encoder_from_args}
use rffmpeg.Scheduler.Selection.{
  max_jobs, has_capacity, select_best_worker, window, try_encoders, try_encoder_fallback,
  chosen_worker, pick_capable, choose_worker,
}
use rffmpeg.Scheduler.Best.{OnSome, scan-OnSome}

-- The worker has one of the encoders.
unfoldable pub has_any : List String → Worker → Bool
unfolding has_encoder
has_any es w = exists_where (λ e. has_encoder e w) es

-- No encoder is asked for, or the worker has it or one that may take its place.
unfoldable pub serves : GoLibrary → String → Worker → Bool
unfolding has_any get_compatible_encoders
serves lib requested w =
    requested == "" || has_any (requested ∷ get_compatible_encoders lib requested) w

abbrev capable_rows : Config → ℕ → String → Database → List Load
capable_rows config now encoder d =
    get_idle_workers_by_encoder_with_job_count encoder (window now config.heartbeat_freshness) d

-- A worker that may take a job: registered, idle and not evicted with a fresh heartbeat, with an encoder
-- for the job, and with fewer active jobs than its limit.
pub record Fits (P : Worker → Type 0) (serving : Worker → Bool) (config : Config) (now : ℕ)
    (d : Database) (l : Load) : Type 0 where
  pub registered : P l.worker
  pub candidate : idle_candidate (window now config.heartbeat_freshness) l.worker ≡ true
  pub capable : serving l.worker ≡ true
  pub room :
      count_where (active_on l.worker.id) d.jobs < max_jobs config.max_jobs_per_worker l.worker

module _ (P : Worker → Type 0) (serving : Worker → Bool) (config : Config) (now : ℕ) (d : Database)
    (test : Worker → Bool)
    (idle : (w : Worker)
      → test w ≡ true
      → idle_candidate (window now config.heartbeat_freshness) w ≡ true)
    (able : (w : Worker) → test w ≡ true → serving w ≡ true) where
  row-Fits :
      (l : Load)
      → IsRow P test d l
      → has_capacity config.max_jobs_per_worker l ≡ true
      → Fits P serving config now d l
  unfolding has_capacity
  row-Fits l r c = record {
    registered = r.registered;
    candidate = idle l.worker r.passes;
    capable = able l.worker r.passes;
    room = subst (λ n. n < max_jobs config.max_jobs_per_worker l.worker) r.counted (ltb→lt _ _ c);
  }

  best-Fits :
      (ls : List Load)
      → All (IsRow P test d) ls
      → OnSome (Fits P serving config now d) (select_best_worker config.max_jobs_per_worker ls)
  unfolding select_best_worker
  best-Fits ls a =
      scan-OnSome (Fits P serving config now d) config.max_jobs_per_worker none ls tt
        (All-weaken (IsRow P test d) _ (λ l r c. row-Fits l r c) ls a)

module _ (P : Worker → Type 0) (config : Config) (now : ℕ) (d : Database)
    (all : All P d.workers) where
  encoder-Fits :
      (serving : Worker → Bool) (encoder : String)
      → ((w : Worker) → has_encoder encoder w ≡ true → serving w ≡ true)
      → OnSome
          (Fits P serving config now d)
          (select_best_worker config.max_jobs_per_worker (capable_rows config now encoder d))
  encoder-Fits serving encoder able =
      best-Fits P serving config now d _
        (λ w h.
          and_left (idle_candidate (window now config.heartbeat_freshness) w)
            (has_encoder encoder w) h)
        (λ w h. able w (
          and_right (idle_candidate (window now config.heartbeat_freshness) w)
            (has_encoder encoder w) h))
        _ (encoder-rows P d all encoder _)

  or_later :
      (Q : Load → Type 0) (e : String) (first : Option Load) (later : Option (Load × String))
      → OnSome Q first
      → OnSome Q (chosen_worker later)
      → OnSome Q (chosen_worker (elim first [ none ↦ later | some w ↦ some (w, e) ]))
  or_later Q e none later h k = k
  or_later Q e (some w) later h k = h

  try_encoders-Fits :
      (serving : Worker → Bool) (requested : String) (es : List String)
      → ((w : Worker) → has_any es w ≡ true → serving w ≡ true)
      → OnSome
          (Fits P serving config now d)
          (chosen_worker (try_encoders config now requested d es))
  unfolding try_encoders has_any exists_where
  try_encoders-Fits serving requested [] able = tt
  try_encoders-Fits serving requested (e ∷ es) able =
      let later = try_encoders-Fits serving requested es (λ w h. able w (ground (arith, h))) in
      elim (Bool-cases (e == requested)) [
        | inl h ↦ rw h later
        | inr h ↦ rw h (
            or_later (Fits P serving config now d) e
              (select_best_worker config.max_jobs_per_worker (capable_rows config now e d))
              (try_encoders config now requested d es)
              (encoder-Fits serving e (λ w h. able w (ground (arith, h)))) later)
      ]

module _ (lib : GoLibrary) (P : Worker → Type 0) (config : Config) (now : ℕ) (d : Database)
    (all : All P d.workers) where
  pick-Fits :
      (requested : String) (ls : List Load)
      → OnSome
          (Fits P (serves lib requested) config now d)
          (select_best_worker config.max_jobs_per_worker ls)
      → OnSome
          (Fits P (serves lib requested) config now d)
          (pick_capable lib config now requested d ls)
  unfolding try_encoder_fallback serves has_any exists_where
  pick-Fits requested [] h =
      try_encoders-Fits P config now d all (serves lib requested) requested
        (get_compatible_encoders lib requested) (λ w h. ground (arith, h))
  pick-Fits requested (l ∷ ls) h = h

  -- The worker that the scheduler chooses for a job is one of the registered workers, idle, not
  -- evicted, with a fresh heartbeat and fewer active jobs than its limit; where the job asks for an
  -- encoder, the worker has it or another encoder of the fallback list. The first is said by any
  -- property that all registered workers have.
  pub choose_worker-Fits :
      (j : Job)
      → OnSome
          (Fits P (serves lib (extract_encoder_from_args lib j.args)) config now d)
          (choose_worker lib config now j d)
  unfolding choose_worker serves has_any exists_where
  choose_worker-Fits j =
      let requested = extract_encoder_from_args lib j.args in
      elim (Bool-cases (requested == "")) [
        | inl e ↦
            rw (e, choose_worker)
              (best-Fits P (serves lib requested) config now d _ (λ w h. h)
                (λ w h. ground (arith, e)) _ (idle-rows P d all _))
        | inr e ↦
            rw (e, choose_worker)
              (pick-Fits requested (capable_rows config now requested d) (
                encoder-Fits P config now d all (serves lib requested) requested
                  (λ w h. ground (arith, h))))
      ]
