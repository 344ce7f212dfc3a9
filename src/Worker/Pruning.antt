-- ===== src/Worker/Pruning.antt =====
-- pkg/worker/param_prune.go: the parameters to remove after a failure, and their removal from an
-- argument list. A Go map used as a set is a list without repetitions; its order means nothing.
pub mod Removal
pub mod Order
use rffmpeg.Base.{
  ℕ, String, Bool, true, false, ◌&&◌, ◌||◌, Option, none, some, List, [], ◌∷◌, ◌++◌, not,
  if◌then◌else◌, starts_with, find?, up_to, member, ◌<>◌,
}
use rffmpeg.Worker.{ErrorType, unknown, GoLibrary, FfmpegError}
use rffmpeg.Worker.Errors.Patterns.{error_text}
use rffmpeg.Worker.PruneRules.{PruneRule, PatternPruneRule, default_prune_rules}
use rffmpeg.Base.{◌==◌}

pub record CompiledPruneRule : Type 0 where
  pub when : ErrorType
  pub matches : String → Bool
  pub params : List String
  pub reason : String

pub record ParamPruner : Type 0 where
  pub rules : List PruneRule
  pub compiled : List CompiledPruneRule

module _ (go : GoLibrary) where
  abbrev pub compiled_rule :
      ErrorType → PatternPruneRule → Option (String → Bool) → List CompiledPruneRule
  compiled_rule kind p none = []
  compiled_rule kind p (some match) =
      record { when = kind; matches = match; params = p.removed; reason = p.reason } ∷ []

  unfoldable pub compile_rules : ErrorType → List PatternPruneRule → List CompiledPruneRule
  compile_rules kind [] = []
  compile_rules kind (p ∷ ps) =
      compiled_rule kind p (go.compile ("(?i)" <> p.pattern)) ++ compile_rules kind ps

  unfoldable pub compile_all : List PruneRule → List CompiledPruneRule
  compile_all [] = []
  compile_all (r ∷ rs) = compile_rules r.applies_to r.pattern_rules ++ compile_all rs

  unfoldable pub new_param_pruner_with_rules : List PruneRule → ParamPruner
  new_param_pruner_with_rules rules = record { rules = rules; compiled = compile_all rules }

  unfoldable pub new_param_pruner : ParamPruner
  unfolding new_param_pruner_with_rules
  new_param_pruner = new_param_pruner_with_rules default_prune_rules

-- The same kind of failure. The names of the kinds differ.
abbrev pub same_type : ErrorType → ErrorType → Bool
same_type a b = error_text a == error_text b

unfoldable pub add_all : List String → List String → List String
add_all [] set = set
add_all (p ∷ ps) set = add_all ps (if member p set then set else p ∷ set)

unfoldable pub base_params : ErrorType → List PruneRule → List String → List String
base_params kind [] set = set
base_params kind (r ∷ rs) set =
    base_params kind rs (if same_type r.applies_to kind then add_all r.removes set else set)

unfoldable pub pattern_params :
    ErrorType → String → List CompiledPruneRule → List String → List String
pattern_params kind stderr [] set = set
pattern_params kind stderr (c ∷ cs) set = pattern_params kind stderr cs (
    if (same_type c.when kind || same_type c.when unknown) && c.matches stderr
    then add_all c.params set
    else set)

unfoldable pub get_prune_recommendations : ParamPruner → ErrorType → String → List String
get_prune_recommendations p kind stderr =
    pattern_params kind stderr p.compiled (base_params kind p.rules [])

-- The name before the first "=" is to be removed.
abbrev pub named_before : Option ℕ → List String → String → Bool
named_before none remove arg = false
named_before (some i) remove arg = member (up_to i arg) remove

unfoldable pub is_attached : List String → String → Bool
is_attached remove arg = named_before (find? arg "=") remove arg

abbrev pub value_follows : List String → Bool
value_follows [] = false
value_follows (next ∷ rest) = not (starts_with next "-")

-- The loop of PruneParams, with its variable skipNext.
unfoldable pub pruned : List String → Bool → List String → List String
pruned remove skip_next [] = []
pruned remove true (arg ∷ rest) = pruned remove false rest
pruned remove false (arg ∷ rest) =
    let later = pruned remove (member arg remove && value_follows rest) rest in
    if member arg remove then later else if is_attached remove arg then later else arg ∷ later

unfoldable pub prune_params : List String → List String → List String
prune_params args [] = args
prune_params args (p ∷ ps) = pruned (p ∷ ps) false args

abbrev pub prune_after : ParamPruner → List String → Option FfmpegError → List String
prune_after p args none = args
prune_after p args (some e) = prune_params args (get_prune_recommendations p e.error_type e.log)

unfoldable pub hardware_params : List String
hardware_params =
    "-hwaccel" ∷ "-hwaccel_device" ∷ "-hwaccel_output_format" ∷ "-init_hw_device" ∷ "-vaapi_device"
    ∷ "-qsv_device" ∷ "-gpu" ∷ "-surfaces" ∷ "-delay" ∷ "-2pass" ∷ "-multipass" ∷ "-rc"
    ∷ "-rc_lookahead" ∷ "-rc-lookahead" ∷ "-spatial_aq" ∷ "-spatial-aq" ∷ "-temporal_aq"
    ∷ "-temporal-aq" ∷ "-aq_strength" ∷ "-aq-strength" ∷ "-low_power" ∷ "-low-power"
    ∷ "-async_depth" ∷ "-async-depth" ∷ "-load_plugin" ∷ "-load-plugin" ∷ "-enforce_hrd"
    ∷ "-enforce-hrd" ∷ "-filler_data" ∷ "-filler-data" ∷ "-frame_skipping" ∷ "-frame-skipping"
    ∷ "-allow_sw" ∷ "-allow-sw" ∷ "-require_sw" ∷ "-require-sw" ∷ []

unfoldable pub prune_hardware_params : List String → List String
unfolding hardware_params
prune_hardware_params args = prune_params args hardware_params

unfoldable pub profile_level_params : List String
profile_level_params = "-profile" ∷ "-profile:v" ∷ "-level" ∷ "-level:v" ∷ "-tier" ∷ []

unfoldable pub prune_profile_level_params : List String → List String
unfolding profile_level_params
prune_profile_level_params args = prune_params args profile_level_params

unfoldable pub advanced_params : List String
advanced_params =
    "-preset" ∷ "-tune" ∷ "-x264-params" ∷ "-x265-params" ∷ "-crf" ∷ "-cq" ∷ "-qp" ∷ "-q:v" ∷ "-b:v"
    ∷ "-maxrate" ∷ "-bufsize" ∷ "-minrate" ∷ "-g" ∷ "-keyint_min" ∷ "-sc_threshold" ∷ "-bf"
    ∷ "-b_strategy" ∷ "-refs" ∷ []

unfoldable pub prune_advanced_params : List String → List String
unfolding advanced_params
prune_advanced_params args = prune_params args advanced_params
