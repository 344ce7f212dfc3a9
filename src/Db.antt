-- ===== src/Db.antt =====
-- pkg/server/db: the tables of the server's database (initTables of db.go, the structs of jobs.go,
-- workers.go and migrations.go). A handle `d *Database` is the record of its tables, and a method
-- returns the tables after it with its result. A time is a number of nanoseconds, an identifier a
-- text; the columns that hold JSON text are opaque, but for a worker's encoders and an event's jobs,
-- which the queries open by json_each.
pub mod Identity
pub mod Statements
pub mod Jobs
pub mod Claims
pub mod Sweeps
pub mod Migrations
pub mod Workers
pub mod Lifecycle
pub mod History
pub mod Steps
pub mod Batches
pub mod Capacity
pub mod Chunks
pub mod Failover
pub mod Reports
pub mod Candidates
pub mod Ranking
pub mod Registry
pub mod Operations
use rffmpeg.Base.{
  ℕ, String, Bool, true, false, ◌&&◌, ◌||◌, not, Option, none, some, List, [], ◌∷◌, ◌++◌, ◌==◌,
}
use rffmpeg.Base.Tables.{find_where}
use rffmpeg.Protocol.{
  JobStatus, WorkerStatus, FailureType, pending, queued, running, completed, failed, cancelled,
  timeout, idle, busy, offline,
}

-- A column of Go type sql.NullInt32 or *int: `negative n` is -(n + 1).
pub data ExitCode : Type 0 where
  exit negative : ℕ → ExitCode

pub record Job : Type 0 where
  pub id : String
  pub status : JobStatus
  pub input_files : String
  pub args : String
  pub output_filename : String
  pub streaming_output : Bool
  pub output_files : String
  pub worker_id : Option String
  pub assigned_worker : Option String
  pub worker_name : Option String
  pub exit_code : Option ExitCode
  pub error : Option String
  pub failure_type : FailureType
  pub failure_details : String
  pub retryable : Bool
  pub auto_hw : Bool
  pub cached : Bool
  pub budget : Option ℕ  -- the column `timeout`
  pub direct_paths : String
  -- A REAL column that the statements only store and compare; a unit small enough that every
  -- reported percentage is a whole number of them.
  pub progress_percent : ℕ
  pub eta_seconds : ℕ
  pub created_at : ℕ
  pub updated_at : ℕ
  pub claimed_at : Option ℕ
  pub started_at : Option ℕ
  pub finished_at : Option ℕ

pub record Worker : Type 0 where
  pub id : String
  pub name : String
  pub status : WorkerStatus
  pub encoders : List String
  pub details : String  -- the other capability columns, never read by a statement here
  pub max_concurrent : ℕ  -- a negative column value is 0 here: both mean "no limit of its own"
  pub evicted : Bool
  pub evicted_at : Option ℕ
  pub last_heartbeat : ℕ
  pub created_at : ℕ

pub record MigrationEvent : Type 0 where
  pub id : String
  pub timestamp : ℕ
  pub worker_id : String
  pub worker_name : Option String
  pub reason : String
  pub retry_count : ℕ
  pub job_ids : List String
  pub jobs_migrated : ℕ

pub record JobRedistribution : Type 0 where
  pub id : String
  pub migration_event_id : String
  pub job_id : String
  pub retry_count : ℕ
  pub target_worker_id : Option String
  pub target_worker_name : Option String
  pub created_at : ℕ

-- currentThroughput and clusterMedian are stored as given and not read here: they are left out.
pub data EvictionEventType : Type 0 where
  evicted recovered : EvictionEventType

pub record EvictionEvent : Type 0 where
  pub timestamp : ℕ
  pub worker_id : String
  pub event_type : EvictionEventType
  pub reason : String

pub record Database : Type 0 where
  pub jobs : List Job
  pub workers : List Worker
  pub migration_events : List MigrationEvent
  pub job_redistributions : List JobRedistribution
  pub eviction_events : List EvictionEvent
  pub notified : List String  -- the arguments of NotifyTerminal so far

-- `status IN (running, queued)`.
abbrev pub is_active : JobStatus → Bool
is_active queued = true
is_active running = true
is_active _ = false

abbrev pub is_pending : JobStatus → Bool
is_pending pending = true
is_pending _ = false

abbrev pub is_queued : JobStatus → Bool
is_queued queued = true
is_queued _ = false

abbrev pub is_running : JobStatus → Bool
is_running running = true
is_running _ = false

abbrev pub is_completed : JobStatus → Bool
is_completed completed = true
is_completed _ = false

-- `status IN (pending, queued, running)`.
abbrev pub is_open : JobStatus → Bool
is_open pending = true
is_open queued = true
is_open running = true
is_open _ = false

abbrev pub is_offline : WorkerStatus → Bool
is_offline offline = true
is_offline _ = false

abbrev pub is_idle : WorkerStatus → Bool
is_idle idle = true
is_idle _ = false

-- `column = x`, which NULL fails.
abbrev pub holds : Option String → String → Bool
holds none x = false
holds (some y) x = y == x

abbrev pub is_null {ℓ} : {A : Type ℓ} → Option A → Bool
is_null none = true
is_null (some _) = false

-- COALESCE(a, b).
abbrev pub coalesce {ℓ} : {A : Type ℓ} → Option A → A → A
coalesce none b = b
coalesce (some a) b = a

-- COALESCE(a, b) where both may be NULL.
abbrev pub or_else {ℓ} : {A : Type ℓ} → Option A → Option A → Option A
or_else none b = b
or_else (some a) b = some a

abbrev name_of : Option Worker → Option String
name_of none = none
name_of (some w) = some w.name

-- (SELECT name FROM workers WHERE id = ?).
unfoldable pub select_name : String → List Worker → Option String
select_name id ws = name_of (find_where (λ w. w.id == id) ws)

-- NotifyTerminal: the hook and the waiters are told of the job.
abbrev pub notify_terminal : String → Database → Database
notify_terminal id d = record d { notified = d.notified ++ id ∷ [] }
