-- ===== src/Worker/Execution.antt =====
-- pkg/worker/retry_executor.go, ExecuteWithRetry: attempts, each with other arguments, and a last one with
-- a software encoder. ffmpeg, the context and the file system are a host with a state of its own.
pub mod Outcomes
pub mod Attempts
pub mod Audit
pub mod Success
pub mod Cancelled
use rffmpeg.Base.{
  ℕ, zero, suc, String, Bool, true, false, ◌&&◌, ◌||◌, Option, none, some, List, [], ◌∷◌, ◌++◌,
  ◌==◌, not, ltb, eqb, if◌then◌else◌, ◌<>◌, ℤ,
}
use rffmpeg.Worker.{ErrorType, output_empty, GoLibrary, ExecResult, FfmpegError, InterceptedResult}
use rffmpeg.Worker.Errors.Patterns.{error_text}
use rffmpeg.Worker.Errors.Intercepting.{
  analyze, intercept_with_encoder, is_retryable_error, is_hardware_encoder,
}
use rffmpeg.Worker.Pruning.{get_prune_recommendations}
use rffmpeg.Worker.Fallback.{prepare_fallback_args}
use rffmpeg.Worker.Retry.{
  RetryStage, initial, software_fallback, exhausted, RetryExecutor, determine_stage,
  extract_encoder, Strategy, apply_retry_strategy, retry_interval, stage_text,
}

pub record RetryAuditEntry : Type 0 where
  pub stage : RetryStage
  pub attempt_number : ℕ
  pub args : List String
  pub error_kind : String
  pub error_message : String
  pub exit_code : ℤ
  pub pruned_params : List String
  pub encoder : String
  pub success : Bool
  pub exec_result : ExecResult

pub record RetryResult : Type 0 where
  pub final_result : Option ExecResult
  pub intercepted_result : Option InterceptedResult
  pub audit_trail : List RetryAuditEntry
  pub total_attempts : ℕ
  pub final_stage : RetryStage
  pub is_successful : Bool
  pub used_software_encoder : Bool
  pub original_encoder : String
  pub final_encoder : String

-- `cancelled` is ctx.Err() != nil, `announce` the callback onAttemptStart, `execute` the executor with the
-- caller's handlers, `remove` os.Remove, `stat` the size os.Stat finds (none on an error), `wait` the
-- select over ctx.Done and time.After.
pub record Host (World : Type 0) : Type 0 where
  pub cancelled : World → Bool
  pub announce : World → World
  pub execute : List String → World → ExecResult × World
  pub remove : String → World → World
  pub stat : String → World → Option ℕ
  pub wait : ℕ → World → World

-- The variables of ExecuteWithRetry that its loop changes.
pub record Progress (World : Type 0) : Type 0 where
  pub result : RetryResult
  pub current_args : List String
  pub current_encoder : String
  pub is_user_selected : Bool
  pub world : World

-- Where one round of the loop ends: a return, a break, or the next round.
pub data Round (World : Type 0) : Type 0 where
  returned : RetryResult → World → Round World
  broke again : Progress World → Round World

-- The network output, "-" and "" leave no file.
unfoldable pub is_local : String → Bool → Bool
is_local output network = not (network || (output == "" || output == "-"))

module _ (message : String) (r : InterceptedResult) where
  abbrev pub empty_output : InterceptedResult
  empty_output = record r {
    is_success = false;
    ffmpeg_error = some (record {
      error_type = output_empty;
      message = message;
      code = r.exec_result.exit_code;
      log = r.exec_result.stderr;
      matched_patterns = [];
      context_lines = [];
    });
  }

module _ (output : String) (r : InterceptedResult) where
  abbrev pub sized : Option ℕ → InterceptedResult
  sized none = empty_output ("output file not found: " <> output) r
  sized (some zero) = empty_output ("output file is empty (0 bytes): " <> output) r
  sized (some (suc n)) = r

abbrev pub error_name : Option FfmpegError → String
error_name none = ""
error_name (some err) = error_text err.error_type

abbrev pub message_of : Option FfmpegError → String
message_of none = ""
message_of (some err) = err.message

abbrev pub gives_up : Option FfmpegError → Bool
gives_up none = false
gives_up (some err) = not (is_retryable_error err)

-- A new entry at the end of the trail; and PrunedParams of the last entry.
abbrev pub audit_entry : RetryStage → ℕ → List String → String → InterceptedResult → RetryAuditEntry
audit_entry stage attempt args encoder r = record {
  stage = stage;
  attempt_number = attempt;
  args = args;
  error_kind = if r.is_success then "" else error_name r.ffmpeg_error;
  error_message = if r.is_success then "" else message_of r.ffmpeg_error;
  exit_code = r.exec_result.exit_code;
  pruned_params = [];
  encoder = encoder;
  success = r.is_success;
  exec_result = r.exec_result;
}

unfoldable pub set_last_pruned : List String → List RetryAuditEntry → List RetryAuditEntry
set_last_pruned params [] = []
set_last_pruned params (a ∷ []) = record a { pruned_params = params } ∷ []
set_last_pruned params (a ∷ (b ∷ rest)) = a ∷ set_last_pruned params (b ∷ rest)

unfoldable pub last_result : List RetryAuditEntry → Option ExecResult
last_result [] = none
last_result (a ∷ []) = some a.exec_result
last_result (a ∷ (b ∷ rest)) = last_result (b ∷ rest)

module _ (go : GoLibrary) (e : RetryExecutor) where
  unfoldable pub intercept : ExecResult → String → InterceptedResult
  intercept = intercept_with_encoder (analyze go e.analyzer) (get_prune_recommendations e.pruner)

module _ (World : Type 0) (host : Host World) (go : GoLibrary) (e : RetryExecutor) (output : String)
    (network : Bool) where
  unfoldable pub clear_stale_output : World → World
  clear_stale_output w = if is_local output network then host.remove output w else w

  -- One launch of ffmpeg: what both the loop and the final fallback do around it.
  unfoldable pub launch : List String → World → ExecResult × World
  launch args w = host.execute args (clear_stale_output (host.announce w))

  unfoldable pub validated : InterceptedResult → World → InterceptedResult
  validated r w =
      if r.is_success && is_local output network then sized output r (host.stat output w) else r

  unfoldable pub judged : ExecResult × World → String → InterceptedResult
  judged run encoder = validated (intercept go e run.0 encoder) run.1

  -- The return of a success.
  unfoldable pub succeed :
      RetryStage → ℕ → List String → String → InterceptedResult → RetryResult → RetryResult
  succeed stage attempt args encoder r result = record result {
    final_result = some r.exec_result;
    intercepted_result = some r;
    is_successful = true;
    final_stage = stage;
    final_encoder = encoder;
    total_attempts = attempt;
    audit_trail = result.audit_trail ++ (audit_entry stage attempt args encoder r ∷ []);
  }

  unfoldable pub fail :
      RetryStage → ℕ → List String → String → InterceptedResult → RetryResult → RetryResult
  fail stage attempt args encoder r result = record result {
    total_attempts = attempt;
    audit_trail = result.audit_trail ++ (audit_entry stage attempt args encoder r ∷ []);
  }

  -- The next round's variables, once the strategy is known.
  unfoldable pub advance : ℕ → Strategy → Progress World → Progress World
  advance attempt s p =
      let encoder = extract_encoder e s.next_args in
      let changed = not (encoder == p.current_encoder) in
      record {
        result = record p.result {
          audit_trail = set_last_pruned s.pruned_params p.result.audit_trail;
          used_software_encoder =
              (changed && not (is_hardware_encoder encoder)) || p.result.used_software_encoder;
        };
        current_args = s.next_args;
        current_encoder = if changed then encoder else p.current_encoder;
        is_user_selected = not changed && p.is_user_selected;
        world = host.wait (retry_interval e.config attempt) p.world;
      }

  unfoldable pub continue_with : ℕ → Strategy → Progress World → Round World
  continue_with attempt s p =
      if stage_text s.next_stage == stage_text exhausted
      then broke p
      else again (advance attempt s p)

  -- A failed attempt: stop, or prepare the next one if there is one.
  unfoldable pub after_failed_attempt : ℕ → Option FfmpegError → Progress World → Round World
  after_failed_attempt attempt err p =
      if gives_up err
      then broke p
      else if ltb attempt e.config.max_retries
      then continue_with attempt
          (apply_retry_strategy go e p.current_args err attempt output p.is_user_selected network) p
      else again p

  unfoldable pub conclude : ℕ → InterceptedResult → Progress World → Round World
  conclude attempt r p =
      if r.is_success
      then returned
          (succeed (determine_stage attempt) attempt p.current_args p.current_encoder r p.result)
          p.world
      else after_failed_attempt attempt r.ffmpeg_error (record p {
        result = fail (determine_stage attempt) attempt p.current_args p.current_encoder r p.result;
      })

  unfoldable pub run_attempt : ℕ → Progress World → Round World
  run_attempt attempt p =
      let run = launch p.current_args p.world in
      if host.cancelled p.world
      then broke p
      else conclude attempt (judged run p.current_encoder) (record p { world = run.1 })

  -- The loop, with the number of rounds that are left.
  abbrev pub resume : Round World → (Progress World → Round World) → Round World
  resume (returned result w) next = returned result w
  resume (broke p) next = broke p
  resume (again p) next = next p

  unfoldable pub attempts : ℕ → ℕ → Progress World → Round World
  attempts zero attempt p = broke p
  attempts (suc left) attempt p = resume (run_attempt attempt p) (attempts left (suc attempt))

  unfoldable pub settle :
      List String → String → World → InterceptedResult → RetryResult → RetryResult × World
  settle args encoder w r result =
      let attempt = suc result.total_attempts in
      if r.is_success
      then (succeed software_fallback attempt args encoder r result, w)
      else (fail software_fallback attempt args encoder r result, w)

  -- The final fallback, with the arguments that it found.
  unfoldable pub final_attempt : List String → Progress World → RetryResult × World
  final_attempt args p =
      let run = launch args p.world in
      let encoder = extract_encoder e args in
      settle args encoder run.1 (judged run encoder)
        (record p.result { used_software_encoder = true; final_encoder = encoder })

  abbrev pub fallback_attempt : Option (List String) → Progress World → RetryResult × World
  fallback_attempt none p = (p.result, p.world)
  fallback_attempt (some args) p = final_attempt args p

  unfoldable pub final_fallback : Progress World → RetryResult × World
  final_fallback p =
      let args = prepare_fallback_args go e.fallback p.current_args output p.is_user_selected in
      if host.cancelled p.world
      then (p.result, p.world)
      else if e.config.enable_software_fallback && not p.result.used_software_encoder
      then fallback_attempt args p
      else (p.result, p.world)

  abbrev pub with_final : RetryResult → Option ExecResult → RetryResult
  with_final result none = result
  with_final result (some r) = record result {
    final_result = some r;
    intercepted_result = some (intercept go e r "");
  }

  -- The return of a failure reads the last entry; a success is returned as it is.
  unfoldable pub close : RetryResult × World → RetryResult × World
  close (result, w) = (
    if result.is_successful then result else with_final result (last_result result.audit_trail),
    w,
  )

  unfoldable pub finish : Round World → RetryResult × World
  finish (returned result w) = (result, w)
  finish (again p) = (p.result, p.world)
  finish (broke p) = close (
      final_fallback (record p {
        result = record p.result { final_stage = exhausted; final_encoder = p.current_encoder };
      }))

  unfoldable pub start : List String → World → Progress World
  start args w = record {
    result = record {
      final_result = none;
      intercepted_result = none;
      audit_trail = [];
      total_attempts = 0;
      final_stage = initial;
      is_successful = false;
      used_software_encoder = false;
      original_encoder = extract_encoder e args;
      final_encoder = "";
    };
    current_args = args;
    current_encoder = extract_encoder e args;
    is_user_selected = true;
    world = w;
  }

  unfoldable pub execute_with_retry : List String → World → RetryResult × World
  execute_with_retry args w = finish (attempts e.config.max_retries 1 (start args w))
