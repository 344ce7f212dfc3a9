-- ===== src/Worker/Retry.antt =====
-- pkg/worker/retry_executor.go: the stages of a retry, the parameters each removes, the encoder it
-- falls back to, and the pause before it. A duration counts nanoseconds, below 2^62, so that doubling one
-- stays inside an int64.
pub mod Pauses
use rffmpeg.Base.{
  ℕ, zero, suc, ◌-◌, ◌*◌, String, Bool, true, false, ◌&&◌, Option, none, some, List, [], ◌∷◌, ◌++◌,
  ◌==◌, not, ltb, if◌then◌else◌, member, ◌<>◌,
}
use rffmpeg.Base.Tables.{select}
use rffmpeg.Rewrite.{HardwareCapabilities}
use rffmpeg.Worker.{
  ErrorType, hwaccel_failed, output_empty, encoder_not_found, GoLibrary, FfmpegError,
}
use rffmpeg.Worker.Errors.Patterns.{default_error_patterns}
use rffmpeg.Worker.Errors.Messages.{CompiledPattern, new_error_analyzer}
use rffmpeg.Worker.Errors.Intercepting.{is_hardware_encoder}
use rffmpeg.Worker.Pruning.{
  ParamPruner, new_param_pruner, same_type, add_all, get_prune_recommendations, prune_params,
}
use rffmpeg.Worker.Fallback.{
  EncoderFallback, new_encoder_fallback, extract_encoder_with_caps, prepare_fallback_args,
}

pub data RetryStage : Type 0 where
  initial hardware_pruned advanced_pruned software_fallback exhausted : RetryStage

unfoldable pub stage_text : RetryStage → String
stage_text initial = "initial"
stage_text hardware_pruned = "hardware_pruned"
stage_text advanced_pruned = "advanced_pruned"
stage_text software_fallback = "software_fallback"
stage_text exhausted = "exhausted"

-- MaxRetries, an int in Go: a negative one is zero attempts, as zero is.
pub record RetryConfig : Type 0 where
  pub max_retries : ℕ
  pub initial_interval : ℕ
  pub use_exponential_backoff : Bool
  pub max_interval : ℕ
  pub enable_software_fallback : Bool

unfoldable pub default_retry_config : RetryConfig
default_retry_config = record {
  max_retries = 3;
  initial_interval = 1000000000;
  use_exponential_backoff = false;
  max_interval = 30 * 1000000000;
  enable_software_fallback = true;
}

-- The analyzer is the interceptor's.
pub record RetryExecutor : Type 0 where
  pub analyzer : List CompiledPattern
  pub pruner : ParamPruner
  pub config : RetryConfig
  pub fallback : EncoderFallback
  pub hw_caps : Option HardwareCapabilities

abbrev pub config_or : Option RetryConfig → RetryConfig
config_or none = default_retry_config
config_or (some c) = c

abbrev pub fallback_or : Option EncoderFallback → EncoderFallback
fallback_or none = new_encoder_fallback
fallback_or (some f) = f

unfoldable pub new_retry_executor :
    GoLibrary → Option RetryConfig → Option EncoderFallback → RetryExecutor
unfolding default_retry_config new_encoder_fallback
new_retry_executor go config fallback = record {
  analyzer = new_error_analyzer go default_error_patterns;
  pruner = new_param_pruner go;
  config = config_or config;
  fallback = fallback_or fallback;
  hw_caps = none;
}

unfoldable pub set_hardware_capabilities :
    Option HardwareCapabilities → RetryExecutor → RetryExecutor
set_hardware_capabilities caps e = record e {
  hw_caps = caps;
  fallback = record e.fallback { hw_caps = caps };
}

unfoldable pub determine_stage : ℕ → RetryStage
determine_stage (suc zero) = initial
determine_stage (suc (suc zero)) = hardware_pruned
determine_stage (suc (suc (suc zero))) = advanced_pruned
determine_stage _ = software_fallback

unfoldable pub device_params : List String
device_params = "-hwaccel_device" ∷ "-vaapi_device" ∷ "-qsv_device" ∷ "-gpu" ∷ []

unfoldable pub advanced_retry_params : List String
advanced_retry_params =
    "-profile" ∷ "-profile:v" ∷ "-level" ∷ "-level:v" ∷ "-tier" ∷ "-preset" ∷ "-tune" ∷ []

unfoldable pub extract_encoder : RetryExecutor → List String → String
extract_encoder e args = extract_encoder_with_caps args e.hw_caps

-- The arguments, the next stage and the parameters removed.
pub record Strategy : Type 0 where
  pub next_args : List String
  pub next_stage : RetryStage
  pub pruned_params : List String

abbrev pub is_error : ErrorType → Option FfmpegError → Bool
is_error kind none = false
is_error kind (some err) = same_type err.error_type kind

module _ (go : GoLibrary) (e : RetryExecutor) where
  -- The arguments with another encoder, where the fallback really offers one.
  abbrev pub switched :
      List String → List String → String → Option (List String) → List String × List String
  switched args params current none = (args, params)
  switched args params current (some fallback_args) =
      let sw = extract_encoder e fallback_args in
      if not (sw == "") && not (sw == current)
      then (fallback_args, params ++ (("encoder:" <> (current <> ("->" <> sw))) ∷ []))
      else (args, params)

  unfoldable pub hardware_removals : List String
  hardware_removals =
      add_all (get_prune_recommendations e.pruner hwaccel_failed "hwaccel" ++ device_params) []

  unfoldable pub to_software : List String → List String → List String × List String
  to_software args params =
      let current = extract_encoder e args in
      if not (current == "") && is_hardware_encoder current
      then switched args params current (prepare_fallback_args go e.fallback args "" true)
      else (args, params)

  unfoldable pub prune_hardware : List String → List String × List String
  prune_hardware args = to_software (prune_params args hardware_removals) hardware_removals

  unfoldable pub prune_advanced : List String → List String × List String
  prune_advanced args =
      let hw = prune_hardware args in
      let fresh = select (λ p. not (member p hw.1)) advanced_retry_params in
      (prune_params hw.0 fresh, hw.1 ++ fresh)

  abbrev pub pruning_strategy : RetryStage → List String × List String → Strategy
  pruning_strategy stage removed = record {
    next_args = removed.0;
    next_stage = stage;
    pruned_params = removed.1;
  }

  abbrev pub fallback_strategy : List String → RetryStage → Option (List String) → Strategy
  fallback_strategy args otherwise none = record {
    next_args = args;
    next_stage = otherwise;
    pruned_params = [];
  }
  fallback_strategy args otherwise (some fallback_args) = record {
    next_args = fallback_args;
    next_stage = software_fallback;
    pruned_params = "fallback_to_software" ∷ [];
  }

  -- The switch over the attempt.
  unfoldable pub progressive : List String → String → Bool → ℕ → Strategy
  progressive args output is_user_selected (suc zero) =
      pruning_strategy hardware_pruned (prune_hardware args)
  progressive args output is_user_selected (suc (suc zero)) =
      pruning_strategy advanced_pruned (prune_advanced args)
  progressive args output is_user_selected _ =
      fallback_strategy args advanced_pruned
        (prepare_fallback_args go e.fallback args output is_user_selected)

  -- The two steps behind an empty output, for the arguments that the fallback offers.
  abbrev pub empty_strategy : List String → Strategy → Option (List String) → Strategy
  empty_strategy args otherwise none = otherwise
  empty_strategy args otherwise (some fallback_args) =
      let sw = extract_encoder e fallback_args in
      if not (sw == "") && not (sw == extract_encoder e args)
      then record {
        next_args = fallback_args;
        next_stage = software_fallback;
        pruned_params = "fallback_to_software_output_empty" ∷ [];
      }
      else otherwise

  unfoldable pub by_error : List String → Option FfmpegError → ℕ → String → Bool → Strategy
  by_error args err attempt output is_user_selected =
      if is_error encoder_not_found err
      then fallback_strategy args exhausted
          (prepare_fallback_args go e.fallback args output is_user_selected)
      else progressive args output is_user_selected attempt

  unfoldable pub apply_retry_strategy :
      List String → Option FfmpegError → ℕ → String → Bool → Bool → Strategy
  apply_retry_strategy args err attempt output is_user_selected network =
      let otherwise = by_error args err attempt output is_user_selected in
      if not network && is_error output_empty err
      then empty_strategy args otherwise
          (prepare_fallback_args go e.fallback args output is_user_selected)
      else otherwise

-- The doubling loop, with the number of rounds that are left.
unfoldable pub doubled : ℕ → ℕ → ℕ → ℕ
doubled limit zero interval = interval
doubled limit (suc rounds) interval =
    let later = doubled limit rounds (interval * 2) in
    if ltb limit (interval * 2) then limit else later

unfoldable pub retry_interval : RetryConfig → ℕ → ℕ
unfolding doubled
retry_interval c attempt =
    if c.use_exponential_backoff
    then doubled c.max_interval (attempt - 1) c.initial_interval
    else c.initial_interval
