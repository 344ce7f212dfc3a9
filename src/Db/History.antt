-- ===== src/Db/History.antt =====
-- What a step of pkg/server/db may do to a row of the table `jobs` and to the whole table.
use rffmpeg.Base.{
  ℕ, ◌≤◌, String, Bool, true, false, ◌≡◌, ◌∙◌, Option, List, [], ◌∷◌, ◌++◌, ◌==◌, arith, All,
  Extends, All-append, subst, eq_iff, Bool-cases, inl, inr,
}
use rffmpeg.Base.Tables.{
  count_where, exists_where, update_where, All-update, Extends-refl, Extends-append, Extends-update,
  Extends-trans, count-update_same, count-append, exists-count,
}
use rffmpeg.Protocol.{JobStatus, FailureType}
use rffmpeg.Db.{Job, is_active, is_open}
use rffmpeg.Db.Statements.{
  Report, owned_active, set_terminal, set_running, not_ahead, set_progress, set_output, assignable,
  set_assigned, open_job, set_cancelled, set_failed, set_requeued, set_reset, starved, set_starved,
  set_stuck, set_crashed,
}
use rffmpeg.Db.Lifecycle.{IsConsistent}

-- The later row of a job: the same submission, no progress lost, and nothing changed once it is over.
pub record Evolves (j j' : Job) : Type 0 where
  pub same_id : j'.id ≡ j.id
  pub same_args : j'.args ≡ j.args
  pub same_inputs : j'.input_files ≡ j.input_files
  pub same_output : j'.output_filename ≡ j.output_filename
  pub same_hardware : j'.auto_hw ≡ j.auto_hw
  pub same_streaming : j'.streaming_output ≡ j.streaming_output
  pub same_budget : j'.budget ≡ j.budget
  pub same_paths : j'.direct_paths ≡ j.direct_paths
  pub no_regress : j.progress_percent ≤ j'.progress_percent
  pub over_kept : is_open j.status ≡ false → j' ≡ j

pub Evolves-refl : (j : Job) → Evolves j j
Evolves-refl j = ground arith

pub Evolves-trans : (a b c : Job) → Evolves a b → Evolves b c → Evolves a c
Evolves-trans a b c p q = record {
  same_id = q.same_id ∙ p.same_id;
  same_args = q.same_args ∙ p.same_args;
  same_inputs = q.same_inputs ∙ p.same_inputs;
  same_output = q.same_output ∙ p.same_output;
  same_hardware = q.same_hardware ∙ p.same_hardware;
  same_streaming = q.same_streaming ∙ p.same_streaming;
  same_budget = q.same_budget ∙ p.same_budget;
  same_paths = q.same_paths ∙ p.same_paths;
  no_regress = omega arith;
  over_kept = λ h. let e = p.over_kept h in q.over_kept (rw e h) ∙ e;
}

-- A statement on rows that are open and that leaves the submission and the progress alone.
pub set_terminal-Evolves :
    (id worker : String) (now : ℕ) (name : Option String) (status : JobStatus) (r : Report)
    (cached : Bool) (j : Job)
    → owned_active id worker j ≡ true
    → Evolves j (set_terminal now worker name status r cached j)
unfolding set_terminal owned_active
set_terminal-Evolves id worker now name status r cached j h = ground arith

pub set_running-Evolves :
    (id worker : String) (now : ℕ) (r : Report) (j : Job)
    → owned_active id worker j ≡ true
    → Evolves j (set_running now r j)
unfolding set_running owned_active
set_running-Evolves id worker now r j h = ground arith

pub set_progress-Evolves :
    (id worker : String) (now progress eta : ℕ) (j : Job)
    → not_ahead id worker progress j ≡ true
    → Evolves j (set_progress now progress eta j)
unfolding set_progress not_ahead
set_progress-Evolves id worker now progress eta j h = ground arith

pub set_output-Evolves :
    (id worker : String) (now : ℕ) (files : String) (j : Job)
    → owned_active id worker j ≡ true
    → Evolves j (set_output now files j)
unfolding set_output owned_active
set_output-Evolves id worker now files j h = ground arith

pub set_assigned-Evolves :
    (id worker : String) (now : ℕ) (name : Option String) (j : Job)
    → assignable id j ≡ true
    → Evolves j (set_assigned now worker name j)
unfolding set_assigned assignable
set_assigned-Evolves id worker now name j h = ground arith

pub set_cancelled-Evolves :
    (id : String) (now : ℕ) (j : Job) → open_job id j ≡ true → Evolves j (set_cancelled now j)
unfolding set_cancelled open_job
set_cancelled-Evolves id now j h = ground arith

pub set_failed-Evolves :
    (id : String) (now : ℕ) (msg : String) (type : FailureType) (j : Job)
    → open_job id j ≡ true
    → Evolves j (set_failed now msg type j)
unfolding set_failed open_job
set_failed-Evolves id now msg type j h = ground arith

pub set_requeued-Evolves :
    (now : ℕ) (j : Job) → is_active j.status ≡ true → Evolves j (set_requeued now j)
unfolding set_requeued
set_requeued-Evolves now j h = ground arith

pub set_reset-Evolves :
    (id worker : String) (now : ℕ) (j : Job)
    → owned_active id worker j ≡ true
    → Evolves j (set_reset now j)
unfolding set_reset owned_active
set_reset-Evolves id worker now j h = ground arith

pub set_starved-Evolves :
    (cutoff now : ℕ) (msg : String) (type : FailureType) (j : Job)
    → starved cutoff j ≡ true
    → Evolves j (set_starved now msg type j)
unfolding set_starved starved
set_starved-Evolves cutoff now msg type j h = ground arith

pub set_stuck-Evolves :
    (now : ℕ) (msg : String) (type : FailureType) (j : Job)
    → is_active j.status ≡ true
    → Evolves j (set_stuck now msg type j)
unfolding set_stuck
set_stuck-Evolves now msg type j h = ground arith

pub set_crashed-Evolves :
    (id worker : String) (now : ℕ) (msg : String) (j : Job)
    → owned_active id worker j ≡ true
    → Evolves j (set_crashed now msg j)
unfolding set_crashed owned_active
set_crashed-Evolves id worker now msg j h = ground arith

-- The primary key: no identifier stands in two rows.
abbrev pub IsKeyed : List Job → Type 0
IsKeyed js = (id : String) → count_where (λ j. j.id == id) js ≤ 1

-- What one step of the database does to the table: it keeps the rows consistent and the key, each
-- row evolves in its place, and new rows stand behind the old ones.
pub record IsStep (js js' : List Job) : Type 0 where
  pub consistent : All IsConsistent js → All IsConsistent js'
  pub keyed : IsKeyed js → IsKeyed js'
  pub evolves : Extends Evolves js js'

pub IsStep-refl : (js : List Job) → IsStep js js
IsStep-refl js = record {
  consistent = λ c. c;
  keyed = λ k. k;
  evolves = Extends-refl Evolves Evolves-refl js;
}

pub IsStep-trans : (a b c : List Job) → IsStep a b → IsStep b c → IsStep a c
IsStep-trans a b c p q = record {
  consistent = λ h. q.consistent (p.consistent h);
  keyed = λ h. q.keyed (p.keyed h);
  evolves = Extends-trans Evolves Evolves-trans a b c p.evolves q.evolves;
}

-- One UPDATE whose SET clause keeps consistent rows consistent and lets a row evolve.
pub update-IsStep :
    (g : Job → Bool) (s : Job → Job)
    → ((j : Job) → g j ≡ true → IsConsistent j → IsConsistent (s j))
    → ((j : Job) → g j ≡ true → Evolves j (s j))
    → (js : List Job) → IsStep js (update_where g s js)
update-IsStep g s c e js = record {
  consistent = All-update IsConsistent g s c js;
  keyed =
      λ k id. rw (count-update_same (λ j. j.id == id) g s (λ j h. rw ((e j h).same_id)) js) (k id);
  evolves = Extends-update Evolves Evolves-refl g s e js;
}

-- The new identifier stood in no row.
keyed_insert :
    (j : Job) (js : List Job) (id : String)
    → exists_where (λ k. k.id == j.id) js ≡ false
    → IsKeyed js
    → count_where (λ k. k.id == id) (js ++ j ∷ []) ≤ 1
unfolding count_where
keyed_insert j js id absent k = elim (Bool-cases (j.id == id)) [
  | inl e ↦
      let absent_id : count_where (λ k. k.id == id) js ≡ 0 =
        subst (λ x. count_where (λ (k : Job). k.id == x) js ≡ 0) ((eq_iff j.id id).0 e)
          (exists-count _ js absent) in
      rw (count-append (λ k. k.id == id) js (j ∷ []), e, absent_id) (omega arith)
  | inr e ↦ rw (count-append (λ k. k.id == id) js (j ∷ []), e) (omega (arith, k id))
]

-- One INSERT of a consistent row under a new identifier.
pub insert-IsStep :
    (j : Job) (js : List Job)
    → IsConsistent j
    → exists_where (λ k. k.id == j.id) js ≡ false
    → IsStep js (js ++ j ∷ [])
insert-IsStep j js c absent = record {
  consistent = λ h. All-append IsConsistent js (j ∷ []) h (c, tt);
  keyed = λ k id. keyed_insert j js id absent k;
  evolves = Extends-append Evolves Evolves-refl js (j ∷ []);
}
