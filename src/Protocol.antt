-- ===== src/Protocol.antt =====
-- pkg/protocol: the states of a job and of a worker, failure types, and the errors that the
-- database layer returns (pkg/protocol/constants.go, types.go, errors.go).
use rffmpeg.Base.{ℕ, Bool, true, false}

pub data JobStatus : Type 0 where
  pending queued running completed failed cancelled timeout : JobStatus

pub data WorkerStatus : Type 0 where
  idle busy offline : WorkerStatus

-- IsTerminalStatus of pkg/protocol/json.go.
unfoldable pub is_terminal_status : JobStatus → Bool
is_terminal_status completed = true
is_terminal_status failed = true
is_terminal_status cancelled = true
is_terminal_status timeout = true
is_terminal_status _ = false

-- `blank` is the empty text, which the column holds by default, and `other` a text that is none of
-- the constants.
pub data FailureType : Type 0 where
  input_unreachable encoder_unsupported encoder_unavailable disk_full exec_timeout worker_crash
        ffmpeg_error no_worker_available infra blank :
      FailureType
  other : ℕ → FailureType

unfoldable pub is_valid : FailureType → Bool
is_valid input_unreachable = true
is_valid encoder_unsupported = true
is_valid encoder_unavailable = true
is_valid disk_full = true
is_valid exec_timeout = true
is_valid worker_crash = true
is_valid ffmpeg_error = true
is_valid no_worker_available = true
is_valid infra = true
is_valid _ = false

unfoldable pub is_retryable : FailureType → Bool
is_retryable exec_timeout = true
is_retryable worker_crash = true
is_retryable _ = false

-- The errors of the database layer. `sql_error` is a statement that the database refuses, such as a
-- second row with one primary key; `wrong_status` carries the status that an error text names.
pub data DbError : Type 0 where
  job_not_owned job_not_found worker_not_found sql_error : DbError
  cannot_cancel job_terminal : JobStatus → DbError

pub data Result {ℓ} (A : Type ℓ) : Type ℓ where
  ok : A → Result A
  err : DbError → Result A
