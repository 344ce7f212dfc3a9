-- ===== src/Lib.antt =====
-- A model of rffmpeg, a distributed ffmpeg transcoding system, and theorems about it.
--
-- The program. Clients submit ffmpeg jobs to a server; workers pull or are assigned these jobs, run
-- ffmpeg, and report progress and results. The server keeps jobs, workers, migrations and evictions
-- in one SQLite database (pkg/server/db); a scheduler (pkg/server/scheduler) assigns pending jobs,
-- requeues or fails jobs that time out, and fails jobs that are stuck or starved; a monitor migrates
-- the jobs of a lost worker; a counter (pkg/server/ratelimit) bounds the active jobs of a client. A worker keeps
-- finished results in a cache (pkg/worker). Where ffmpeg fails, the worker analyses its output, removes
-- parameters or replaces the encoder, and tries again (pkg/worker, pkg/encoder).
-- The parts meet in the database: the handlers, the scheduler and the monitor call its methods, and
-- its terminal notification releases the client's slot in the counter.
--
-- The files.
--   Base, Base/Tests, Base/Lists, Base/Texts, Base/Finding, Base/Integers, Base/Tables: shared names; lists;
--     texts;
--     SELECT, UPDATE, ORDER BY and COUNT on a table that is a list of rows.
--   Protocol: statuses, failure types and errors (pkg/protocol).
--   Db: the tables as records (pkg/server/db/db.go). Below it
--     Identity: NormalizeWorkerID (workers.go). Statements: the WHERE and SET clauses (jobs.go).
--     Jobs: the methods on one job. Claims: AssignPendingJobsToWorker. Sweeps: starved and stuck jobs
--     and RecoverState (all jobs.go). Migrations: MigrateJobsFromWorker and the timeout requeue
--     (migrations.go, jobs.go). Workers: the registry (workers.go).
--     Lifecycle, History, Steps, Batches, Operations: the state machine of the job table. Capacity:
--     the pull. Chunks: the chunked sweeps. Failover, Reports: migrations and late reports.
--     Ranking, Candidates: the candidate lists. Registry: registrations.
--   Scheduler: configuration and state. Below it Encoders (encoder_fallback.go, encoder_parser.go),
--     Selection, Assignment, Ticks, Loop (scheduler.go), and the proofs in Best, Fit, Room, Moves,
--     Retries, Families and Verdicts.
--   RateLimit and RateLimit/Laws: the counter (pkg/server/ratelimit/counter.go).
--   Cache: the tracker of least recently used results (pkg/worker/cache.go); Slots, Index, Upkeep,
--     Agreement, Removal and Usage: its proofs.
--   Upload: sessions and chunks of a chunked upload, and the sizes of the chunks
--     (pkg/server/handlers/chunk_upload.go). Below it Sessions (pkg/server/db/chunk_upload.go) and Completion
--     (completing, cancelling, expiring); Lookup, Claims, Exclusive, Completing, Steps, Repeating, Recording and Chunking: their
--     proofs.
--   Options: the option table and the overwrite policy (pkg/ffmpegopts/ffmpegopts.go).
--   Encoder: what an encoder's name says (pkg/encoder/types.go).
--   Rewrite: the video encoder selections of an argument list and the replacement of the primary one
--     (pkg/encoder/rewrite/videoencoder.go); Tokens, Lookup, Replacing, Primary, Reparsing: its proofs.
--   Worker: the values of an ffmpeg execution (pkg/worker). Below it Errors (error_analyzer.go,
--     error_interceptor.go), Output (executor.go), PruneRules and Pruning (param_prune.go), Fallback
--     (encoder_fallback.go), Retry and Execution (retry_executor.go). Execution/Outcomes and
--     Execution/Attempts carry what every launch and pause keep over a whole call; Audit, Success and
--     Cancelled use them.
--   Tests: a small cluster, runs on it, and each theorem at an input that meets its conditions.
-- A function keeps its name, in snake_case: AssignJobToWorker is assign_job_to_worker.
--
-- How it is modelled. A method is a function from the database to the database with its answer.
-- SQLite serializes writers and a transaction is atomic, so concurrent callers are an order of calls.
-- Where a routine is several statements and others can come between them, what the others do is an argument:
-- Writers (Scheduler/Assignment), OtherWriters (Upload/Completion), Interference and the writers of an attempt
-- (Upload/Sessions). The scheduler's checks of timeouts, stuck and starved jobs, and the other methods, are
-- run without others in between.
-- A statement fails only where the primary key is broken; other faults of the driver are not
-- modelled. Rows stand in rowid order. Times are natural numbers of nanoseconds, and a cutoff is
-- the time less the window, 0 where the window is longer than all of time. A duration that is not
-- positive is none where the source tests for that, and a limit that is not positive is 0. Progress
-- is a scaled whole number. Columns with JSON that the server only stores are texts.
-- ffmpeg, the context of a call and the file system are a host whose state a call passes on; a call is
-- cancelled where the host says so. Regular expressions, file extensions and sorting are parameters, and
-- the order of a Go map has no meaning. Timestamps and log lines of the retries are left out.
-- Parsing of UUIDs, JSON, lower case and formatting are parameters; the laws of the UUID library
-- are named in UuidLaws. A new identifier is an argument of the call that draws it.
--
-- Bounds. The chunk loops run on fuel, the number of identifiers, which is enough since each round
-- takes off at least one; the theorems on the sweeps are about this fuel. The sort runs a round for
-- each row. The retry loop runs on the number of attempts that are left, MaxRetries at first, which is
-- exactly how often the source's loop can run. All other loops are by recursion on a list.
--
-- Not modelled: HTTP handlers but for the dispatch of a report, the upload of a single chunk, the assembly of the chunks' files, file storage, the
-- websocket hub, the health monitor's timing, the worker's job loop, its processes and the files of its cache, the
-- translation of encoder parameters and the engine that rewrites them, detection of hardware, the command line client,
-- TLS and logs. Start and Stop of the scheduler are left out, and its notifier is taken to be set.
mod Base
pub mod Protocol
pub mod Db
pub mod Scheduler
pub mod RateLimit
pub mod Cache
pub mod Options
pub mod Encoder
pub mod Rewrite
pub mod Worker
pub mod Upload
mod Tests
