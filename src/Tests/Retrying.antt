-- ===== src/Tests/Retrying.antt =====
-- A worker whose hardware encoder fails: the retries that lead to the software encoder.
use rffmpeg.Base.{
  ℕ, suc, ◌+◌, ◌≤◌, length, ◌≡◌, refl, pos, String, Bool, true, false, Option, none, some, List, [],
  ◌∷◌, member, has_part, from, if◌then◌else◌,
}
use rffmpeg.Worker.{GoLibrary, ExecResult, InterceptedResult}
use rffmpeg.Worker.Execution.{RetryResult, gives_up}
use rffmpeg.Worker.Execution.Audit.{CountsLaunches, IsAudit, execute_with_retry-IsAudit}
use rffmpeg.Worker.Execution.Success.{IsLastRun, execute_with_retry-success}
use rffmpeg.Worker.Execution.Cancelled.{
  first_run, first_verdict, execute_with_retry-cancelled, execute_with_retry-gives_up,
}
use rffmpeg.Base.Tables.{select, exists_where, find_where}
use rffmpeg.Worker.Retry.{RetryExecutor}
use rffmpeg.Worker.Execution.{Host}
use rffmpeg.Worker.Execution.{
  is_local, set_last_pruned, last_result, intercept, clear_stale_output, launch, validated, judged,
  succeed, fail, advance, continue_with, after_failed_attempt, conclude, run_attempt, attempts,
  settle, final_attempt, final_fallback, close, finish, start, execute_with_retry,
}
use rffmpeg.Worker.Retry.{
  stage_text, default_retry_config, new_retry_executor, set_hardware_capabilities, determine_stage,
  device_params, advanced_retry_params, extract_encoder, hardware_removals, to_software,
  prune_hardware, prune_advanced, progressive, by_error, apply_retry_strategy, doubled,
  retry_interval,
}
use rffmpeg.Worker.Fallback.{
  new_encoder_fallback, extract_encoder_with_caps, is_known_software_encoder, without_hardware,
  build_fallback_args, get_software_encoder, get_alternative_software_encoder,
  is_cross_format_fallback, validate_encoder, chained, inferred, fallback_encoder,
  prepare_fallback_args, add_format_encoder, add_software_fallback_chain, add_encoder_mapping,
}
use rffmpeg.Worker.Fallback.Tables.{
  default_hardware_to_software_map, default_format_encoders_map, default_software_fallback_chain,
  hardware_specific_params, is_hardware_specific_param, entry, put_entry, is_listed, pattern_format,
  get_encoder_format, get_encoder_family, infer_software_encoder, extension_encoder,
  container_encoder, format_flag_encoder, infer_software_encoder_from_context,
}
use rffmpeg.Worker.Pruning.{
  compile_rules, compile_all, new_param_pruner_with_rules, new_param_pruner, add_all, base_params,
  pattern_params, get_prune_recommendations, is_attached, pruned, prune_params, hardware_params,
  prune_hardware_params, profile_level_params, prune_profile_level_params, advanced_params,
  prune_advanced_params,
}
use rffmpeg.Worker.PruneRules.{
  invalid_argument_rule, encoder_not_found_rule, device_not_found_rule, unsupported_codec_rule,
  hwaccel_failed_rule, memory_allocation_rule, input_output_rule, permission_denied_rule,
  default_prune_rules,
}
use rffmpeg.Worker.Errors.Patterns.{
  error_text, error_description, is_retryable_type, default_error_patterns,
}
use rffmpeg.Worker.Errors.Messages.{
  compile_quoted, add_pattern, add_patterns, new_error_analyzer, trimmed_lines,
  extract_first_error_line, extract_error_message, matching_index, extract_context_lines,
}
use rffmpeg.Worker.Errors.Intercepting.{
  signal_name, signal_death_message, crash_error, pattern_error, unknown_error, first_match,
  analyze, is_retryable_error, hardware_suffixes, is_hardware_encoder, reported_encoders,
  detect_software_encoder_in_stderr, fallback_error, intercept_with_encoder,
}
use rffmpeg.Worker.Output.{
  is_flag_with_value, has_output, has_output_arg, find_separator_index, place_inputs, build_args,
  network_prefixes, is_network_url, network_after, is_network_output,
}
use rffmpeg.Options.{
  boolean_flags, flag_at, is_switch, is_boolean, overwrite_flags, overwrite_policy,
}
use rffmpeg.Encoder.{codec_format, hardware_encoders, is_hardware, gpu_vendor}
use rffmpeg.Rewrite.{
  video_encoder_flag_name, known_video_encoder, option_value, selection, parse_from,
  parse_video_encoder_flags, last_explicit, last_flag, primary_video_encoder_flag, rewritten_tokens,
  has_inline_video_encoder_syntax, flag_index, replaced, replace_primary_video_encoder,
}

abbrev pub go_library : GoLibrary
go_library = record {
  to_lower = λ s. s;
  trim_space = λ s. s;
  lines = λ s. s ∷ [];
  quote_meta = λ s. s;
  compile = λ p. some (λ s. has_part s (from 4 p));
  decimal = λ n. "1";
  ext = λ s. ".mp4";
  sort = λ xs. xs;
}

-- The runs of ffmpeg so far, and the size of the output file.
pub record Disk : Type 0 where
  pub runs : ℕ
  pub size : Option ℕ

abbrev pub run_result : Bool → ExecResult
run_result true = record {
  exit_code = pos 0;
  stdout = "";
  stderr = "";
  error = none;
  is_timeout = false;
}
run_result false = record {
  exit_code = pos 1;
  stdout = "";
  stderr = "Unknown encoder";
  error = some "ffmpeg exited with code 1";
  is_timeout = false;
}

-- Only libx264 works here.
abbrev pub machine : Host Disk
machine = record {
  cancelled = λ w. false;
  announce = λ w. w;
  execute = λ args w.
      let ok = member "libx264" args in
      (run_result ok, record { runs = suc w.runs; size = if ok then some 5 else w.size });
  remove = λ path w. record w { size = none };
  stat = λ path w. w.size;
  wait = λ pause w. w;
}

abbrev pub blank_disk : Disk
blank_disk = record { runs = 0; size = none }

abbrev pub hardware_args : List String
hardware_args = "-i" ∷ "in.mp4" ∷ "-c:v" ∷ "h264_nvenc" ∷ "out.mp4" ∷ []

abbrev pub executor : RetryExecutor
executor = new_retry_executor go_library none none

-- One attempt and no fallback, and a machine where ffmpeg may not write.
abbrev pub strict : RetryExecutor
strict =
    new_retry_executor go_library
      (some (record {
        max_retries = 1;
        initial_interval = 1000;
        use_exponential_backoff = true;
        max_interval = 5000;
        enable_software_fallback = false;
      }))
      none

abbrev pub denied : ExecResult
denied = record {
  exit_code = pos 1;
  stdout = "";
  stderr = "Permission denied";
  error = some "ffmpeg exited with code 1";
  is_timeout = false;
}

abbrev pub locked : Host Disk
locked = record machine { execute = λ args w. (denied, record w { runs = suc w.runs }) }

abbrev pub stopped : Host Disk
stopped = record machine { cancelled = λ w. true }

abbrev pub hardware_run : RetryResult × Disk
hardware_run =
    execute_with_retry Disk machine go_library executor "out.mp4" false hardware_args blank_disk

hardware_run-success : hardware_run.0.is_successful ≡ true
unfolding is_local set_last_pruned last_result intercept clear_stale_output launch validated judged
    succeed fail advance continue_with after_failed_attempt conclude run_attempt attempts settle
    final_attempt final_fallback close finish start execute_with_retry stage_text
    default_retry_config new_retry_executor set_hardware_capabilities determine_stage device_params
    advanced_retry_params extract_encoder hardware_removals to_software prune_hardware
    prune_advanced progressive by_error apply_retry_strategy doubled retry_interval
    new_encoder_fallback extract_encoder_with_caps is_known_software_encoder without_hardware
    build_fallback_args get_software_encoder get_alternative_software_encoder
    is_cross_format_fallback validate_encoder chained inferred fallback_encoder
    prepare_fallback_args add_format_encoder add_software_fallback_chain add_encoder_mapping
    default_hardware_to_software_map default_format_encoders_map default_software_fallback_chain
    hardware_specific_params is_hardware_specific_param entry put_entry is_listed pattern_format
    get_encoder_format get_encoder_family infer_software_encoder extension_encoder container_encoder
    format_flag_encoder infer_software_encoder_from_context compile_rules compile_all
    new_param_pruner_with_rules new_param_pruner add_all base_params pattern_params
    get_prune_recommendations is_attached pruned prune_params hardware_params prune_hardware_params
    profile_level_params prune_profile_level_params advanced_params prune_advanced_params
    invalid_argument_rule encoder_not_found_rule device_not_found_rule unsupported_codec_rule
    hwaccel_failed_rule memory_allocation_rule input_output_rule permission_denied_rule
    default_prune_rules error_text error_description is_retryable_type default_error_patterns
    compile_quoted add_pattern add_patterns new_error_analyzer trimmed_lines
    extract_first_error_line extract_error_message matching_index extract_context_lines signal_name
    signal_death_message crash_error pattern_error unknown_error first_match analyze
    is_retryable_error hardware_suffixes is_hardware_encoder reported_encoders
    detect_software_encoder_in_stderr fallback_error intercept_with_encoder is_flag_with_value
    has_output has_output_arg find_separator_index place_inputs build_args network_prefixes
    is_network_url network_after is_network_output boolean_flags flag_at is_switch is_boolean
    overwrite_flags overwrite_policy codec_format hardware_encoders is_hardware gpu_vendor
    video_encoder_flag_name known_video_encoder option_value selection parse_from
    parse_video_encoder_flags last_explicit last_flag primary_video_encoder_flag rewritten_tokens
    has_inline_video_encoder_syntax flag_index replaced replace_primary_video_encoder select
    exists_where find_where
hardware_run-success = refl

local_file : is_local "out.mp4" false ≡ true
unfolding is_local
local_file = refl

runs_counted : CountsLaunches Disk machine (λ w. w.runs)
runs_counted = record {
  announced = λ w. refl;
  executed = λ args w. refl;
  removed = λ path w. refl;
  waited = λ pause w. refl;
}

execute_with_retry-IsAudit_example :
    (hardware_run.1.runs ≡ hardware_run.0.total_attempts + 0)
    × (hardware_run.0.total_attempts ≤ suc executor.config.max_retries)
    × (length hardware_run.0.audit_trail ≡ hardware_run.0.total_attempts)
    × IsAudit 1 hardware_run.0.is_successful hardware_run.0.audit_trail
execute_with_retry-IsAudit_example =
    execute_with_retry-IsAudit Disk machine go_library executor "out.mp4" false (λ w. w.runs)
      runs_counted hardware_args blank_disk

execute_with_retry-success_example :
    IsLastRun Disk machine go_library executor "out.mp4" false hardware_run.0 hardware_run.1
execute_with_retry-success_example =
    execute_with_retry-success Disk machine go_library executor "out.mp4" false hardware_args
      blank_disk local_file hardware_run-success

abbrev stopped_run : RetryResult × Disk
stopped_run =
    execute_with_retry Disk stopped go_library executor "out.mp4" false hardware_args blank_disk

execute_with_retry-cancelled_example :
    (stopped_run.1 ≡ blank_disk)
    × (stopped_run.0.total_attempts ≡ 0)
    × (stopped_run.0.audit_trail ≡ [])
    × (stopped_run.0.is_successful ≡ false)
execute_with_retry-cancelled_example =
    execute_with_retry-cancelled Disk stopped go_library executor "out.mp4" false hardware_args
      blank_disk refl

abbrev strict_run : RetryResult × Disk
strict_run =
    execute_with_retry Disk locked go_library strict "out.mp4" false hardware_args blank_disk

abbrev strict_first : InterceptedResult
strict_first = first_verdict Disk locked go_library strict "out.mp4" false hardware_args blank_disk

strict_retries : strict.config.max_retries ≡ 1
unfolding new_retry_executor
strict_retries = refl

strict_fallback : strict.config.enable_software_fallback ≡ false
unfolding new_retry_executor
strict_fallback = refl

strict_failed : strict_first.is_success ≡ false
unfolding is_local set_last_pruned last_result intercept clear_stale_output launch validated judged
    succeed fail advance continue_with after_failed_attempt conclude run_attempt attempts settle
    final_attempt final_fallback close finish start execute_with_retry stage_text
    default_retry_config new_retry_executor set_hardware_capabilities determine_stage device_params
    advanced_retry_params extract_encoder hardware_removals to_software prune_hardware
    prune_advanced progressive by_error apply_retry_strategy doubled retry_interval
    new_encoder_fallback extract_encoder_with_caps is_known_software_encoder without_hardware
    build_fallback_args get_software_encoder get_alternative_software_encoder
    is_cross_format_fallback validate_encoder chained inferred fallback_encoder
    prepare_fallback_args add_format_encoder add_software_fallback_chain add_encoder_mapping
    default_hardware_to_software_map default_format_encoders_map default_software_fallback_chain
    hardware_specific_params is_hardware_specific_param entry put_entry is_listed pattern_format
    get_encoder_format get_encoder_family infer_software_encoder extension_encoder container_encoder
    format_flag_encoder infer_software_encoder_from_context compile_rules compile_all
    new_param_pruner_with_rules new_param_pruner add_all base_params pattern_params
    get_prune_recommendations is_attached pruned prune_params hardware_params prune_hardware_params
    profile_level_params prune_profile_level_params advanced_params prune_advanced_params
    invalid_argument_rule encoder_not_found_rule device_not_found_rule unsupported_codec_rule
    hwaccel_failed_rule memory_allocation_rule input_output_rule permission_denied_rule
    default_prune_rules error_text error_description is_retryable_type default_error_patterns
    compile_quoted add_pattern add_patterns new_error_analyzer trimmed_lines
    extract_first_error_line extract_error_message matching_index extract_context_lines signal_name
    signal_death_message crash_error pattern_error unknown_error first_match analyze
    is_retryable_error hardware_suffixes is_hardware_encoder reported_encoders
    detect_software_encoder_in_stderr fallback_error intercept_with_encoder is_flag_with_value
    has_output has_output_arg find_separator_index place_inputs build_args network_prefixes
    is_network_url network_after is_network_output boolean_flags flag_at is_switch is_boolean
    overwrite_flags overwrite_policy codec_format hardware_encoders is_hardware gpu_vendor
    video_encoder_flag_name known_video_encoder option_value selection parse_from
    parse_video_encoder_flags last_explicit last_flag primary_video_encoder_flag rewritten_tokens
    has_inline_video_encoder_syntax flag_index replaced replace_primary_video_encoder select
    exists_where find_where
strict_failed = refl

strict_gives_up : gives_up strict_first.ffmpeg_error ≡ true
unfolding is_local set_last_pruned last_result intercept clear_stale_output launch validated judged
    succeed fail advance continue_with after_failed_attempt conclude run_attempt attempts settle
    final_attempt final_fallback close finish start execute_with_retry stage_text
    default_retry_config new_retry_executor set_hardware_capabilities determine_stage device_params
    advanced_retry_params extract_encoder hardware_removals to_software prune_hardware
    prune_advanced progressive by_error apply_retry_strategy doubled retry_interval
    new_encoder_fallback extract_encoder_with_caps is_known_software_encoder without_hardware
    build_fallback_args get_software_encoder get_alternative_software_encoder
    is_cross_format_fallback validate_encoder chained inferred fallback_encoder
    prepare_fallback_args add_format_encoder add_software_fallback_chain add_encoder_mapping
    default_hardware_to_software_map default_format_encoders_map default_software_fallback_chain
    hardware_specific_params is_hardware_specific_param entry put_entry is_listed pattern_format
    get_encoder_format get_encoder_family infer_software_encoder extension_encoder container_encoder
    format_flag_encoder infer_software_encoder_from_context compile_rules compile_all
    new_param_pruner_with_rules new_param_pruner add_all base_params pattern_params
    get_prune_recommendations is_attached pruned prune_params hardware_params prune_hardware_params
    profile_level_params prune_profile_level_params advanced_params prune_advanced_params
    invalid_argument_rule encoder_not_found_rule device_not_found_rule unsupported_codec_rule
    hwaccel_failed_rule memory_allocation_rule input_output_rule permission_denied_rule
    default_prune_rules error_text error_description is_retryable_type default_error_patterns
    compile_quoted add_pattern add_patterns new_error_analyzer trimmed_lines
    extract_first_error_line extract_error_message matching_index extract_context_lines signal_name
    signal_death_message crash_error pattern_error unknown_error first_match analyze
    is_retryable_error hardware_suffixes is_hardware_encoder reported_encoders
    detect_software_encoder_in_stderr fallback_error intercept_with_encoder is_flag_with_value
    has_output has_output_arg find_separator_index place_inputs build_args network_prefixes
    is_network_url network_after is_network_output boolean_flags flag_at is_switch is_boolean
    overwrite_flags overwrite_policy codec_format hardware_encoders is_hardware gpu_vendor
    video_encoder_flag_name known_video_encoder option_value selection parse_from
    parse_video_encoder_flags last_explicit last_flag primary_video_encoder_flag rewritten_tokens
    has_inline_video_encoder_syntax flag_index replaced replace_primary_video_encoder select
    exists_where find_where
strict_gives_up = refl

execute_with_retry-gives_up_example :
    (strict_run.1
      ≡ (first_run Disk locked go_library strict "out.mp4" false hardware_args blank_disk).1)
    × (strict_run.0.total_attempts ≡ 1)
    × (strict_run.0.is_successful ≡ false)
    × (strict_run.0.final_result ≡ some strict_first.exec_result)
execute_with_retry-gives_up_example =
    execute_with_retry-gives_up Disk locked go_library strict "out.mp4" false 0 hardware_args
      blank_disk strict_retries strict_fallback refl strict_failed strict_gives_up
