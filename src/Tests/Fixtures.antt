-- ===== src/Tests/Fixtures.antt =====
-- A small cluster: two workers, and jobs in several states.
use rffmpeg.Base.Tables.{count_where}
use rffmpeg.Db.Lifecycle.{IsConsistent}
use rffmpeg.Db.History.{IsKeyed}
use rffmpeg.Base.{String, eq_iff, arith, All, refl, none, some, [], ◌∷◌, false}
use rffmpeg.Protocol.{pending, running, idle, blank, is_retryable}
use rffmpeg.Db.{Database, Job, Worker}
use rffmpeg.Db.Identity.{UuidLibrary, UuidLaws}
use rffmpeg.Db.Statements.{Report}
use rffmpeg.Db.Jobs.{Submission}

-- Identifiers that are no UUIDs and have no space around them.
abbrev pub plain : UuidLibrary
plain = record { trim_space = λ s. s; parse = λ s. none }

pub plain-UuidLaws : UuidLaws plain
plain-UuidLaws = record {
  trim_idem = λ s. refl;
  trim-parse = λ s p e. refl;
  parse_idem = λ s p e. e;
}

abbrev pub transcode : Submission
transcode = record {
  input_files = "[in.mp4]";
  args = "[-c:v libx264]";
  output_filename = "out.mp4";
  auto_hw = false;
  streaming_output = false;
  budget = none;
  direct_paths = "[]";
}

abbrev pub success : Report
success = record {
  exit_code = none;
  error = none;
  failure_type = some blank;
  failure_details = some "";
}

abbrev pub worker_a : Worker
worker_a = record {
  id = "a";
  name = "alpha";
  status = idle;
  encoders = "libx264" ∷ [];
  details = "";
  max_concurrent = 2;
  evicted = false;
  evicted_at = none;
  last_heartbeat = 100;
  created_at = 1;
}

abbrev pub worker_b : Worker
worker_b = record worker_a {
  id = "b";
  name = "beta";
  encoders = "h264_nvenc" ∷ [];
  last_heartbeat = 90;
}

abbrev pub waiting_job : String → Job
waiting_job id = record {
  id = id;
  status = pending;
  input_files = "[in.mp4]";
  args = "[-c:v libx264]";
  output_filename = "out.mp4";
  streaming_output = false;
  output_files = "[]";
  worker_id = none;
  assigned_worker = none;
  worker_name = none;
  exit_code = none;
  error = none;
  failure_type = blank;
  failure_details = "";
  retryable = false;
  auto_hw = false;
  cached = false;
  budget = none;
  direct_paths = "[]";
  progress_percent = 0;
  eta_seconds = 0;
  created_at = 10;
  updated_at = 10;
  claimed_at = none;
  started_at = none;
  finished_at = none;
}

abbrev pub running_job_of : String → String → Job
running_job_of id worker = record (waiting_job id) {
  status = running;
  worker_id = some worker;
  assigned_worker = some worker;
  claimed_at = some 20;
  started_at = some 21;
  progress_percent = 40;
}

abbrev pub cluster : Database
cluster = record {
  jobs = running_job_of "j1" "a" ∷ waiting_job "j2" ∷ waiting_job "j3" ∷ [];
  workers = worker_a ∷ worker_b ∷ [];
  migration_events = [];
  job_redistributions = [];
  eviction_events = [];
  notified = [];
}

waiting-IsConsistent : (id : String) → IsConsistent (waiting_job id)
unfolding is_retryable
waiting-IsConsistent id = ground arith

running-IsConsistent : (id worker : String) → IsConsistent (running_job_of id worker)
unfolding is_retryable
running-IsConsistent id worker = ground arith

pub cluster-IsConsistent : All IsConsistent cluster.jobs
cluster-IsConsistent =
    (running-IsConsistent "j1" "a", (waiting-IsConsistent "j2", (waiting-IsConsistent "j3", tt)))

pub cluster-IsKeyed : IsKeyed cluster.jobs
unfolding count_where
cluster-IsKeyed id = ground (
  arith,
  eq_iff "j1" id,
  eq_iff "j2" id,
  eq_iff "j3" id,
  eq_iff "j1" "j2",
  eq_iff "j1" "j3",
  eq_iff "j2" "j3",
)
