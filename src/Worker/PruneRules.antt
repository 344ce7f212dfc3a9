-- ===== src/Worker/PruneRules.antt =====
-- pkg/worker/param_prune.go, DefaultPruneRules: the parameters that each kind of failure removes.
use rffmpeg.Base.{String, List, [], ◌∷◌}
use rffmpeg.Worker.{
  ErrorType, invalid_argument, encoder_not_found, device_not_found, unsupported_codec,
  memory_allocation, hwaccel_failed, input_output, permission_denied,
}

pub record PatternPruneRule : Type 0 where
  pub pattern : String
  pub removed : List String
  pub reason : String

pub record PruneRule : Type 0 where
  pub applies_to : ErrorType
  pub removes : List String
  pub pattern_rules : List PatternPruneRule
  pub describes : String

abbrev pub pattern_rule : String → String → List String → PatternPruneRule
pattern_rule pattern reason removed = record {
  pattern = pattern;
  removed = removed;
  reason = reason;
}

unfoldable pub invalid_argument_rule : PruneRule
invalid_argument_rule = record {
  applies_to = invalid_argument;
  removes = [];
  pattern_rules =
      pattern_rule "hwaccel" "Remove hardware acceleration parameters"
        ("-hwaccel" ∷ "-hwaccel_device" ∷ "-hwaccel_output_format" ∷ [])
      ∷ pattern_rule "profile" "Remove profile parameter" ("-profile" ∷ "-profile:v" ∷ [])
      ∷ pattern_rule "level" "Remove level parameter" ("-level" ∷ "-level:v" ∷ [])
      ∷ pattern_rule "tune" "Remove tune parameter" ("-tune" ∷ [])
      ∷ pattern_rule "preset" "Remove preset parameter" ("-preset" ∷ [])
      ∷ pattern_rule "rc" "Remove rate control parameters" ("-rc" ∷ "-rc_lookahead" ∷ [])
      ∷ [];
  describes = "Remove potentially invalid parameters";
}

unfoldable pub encoder_not_found_rule : PruneRule
encoder_not_found_rule = record {
  applies_to = encoder_not_found;
  removes = [];
  pattern_rules =
      pattern_rule "nvenc" "Remove NVENC-specific parameters" (
        "-gpu" ∷ "-surfaces" ∷ "-delay" ∷ "-2pass" ∷ "-_multipass" ∷ "-rc" ∷ "-cq" ∷ "-b:v"
        ∷ "-maxrate" ∷ "-bufsize" ∷ "-profile:v" ∷ "-level:v" ∷ "-tier" ∷ "-preset" ∷ "-tune"
        ∷ "-rc-lookahead" ∷ "-spatial-aq" ∷ "-temporal-aq" ∷ "-aq-strength" ∷ [])
      ∷ pattern_rule "qsv" "Remove QSV-specific parameters" (
          "-qsv_device" ∷ "-load_plugin" ∷ "-async_depth" ∷ "-max_frame_size" ∷ "-max_frame_size_i"
          ∷ "-max_frame_size_p" ∷ "-gpb" ∷ "-low_delay_brc" ∷ "-bb" ∷ "-gmc" ∷ "-idr_interval"
          ∷ "-pic_timing_sei" ∷ "-vcm" ∷ "-profile:v" ∷ "-level:v" ∷ "-tier" ∷ "-preset" ∷ "-tune"
          ∷ [])
      ∷ pattern_rule "vaapi" "Remove VAAPI-specific parameters" (
          "-vaapi_device" ∷ "-low_power" ∷ "-idr_interval" ∷ "-b_depth" ∷ "-async_depth"
          ∷ "-profile:v" ∷ "-level:v" ∷ "-tier" ∷ "-preset" ∷ [])
      ∷ pattern_rule "amf" "Remove AMF-specific parameters" (
          "-gpu" ∷ "-rc" ∷ "-enforce_hrd" ∷ "-filler_data" ∷ "-frame_skipping" ∷ "-max_au_size"
          ∷ "-header_spacing" ∷ "-b_ref_delta" ∷ "-intra_refresh_mb" ∷ "-cq" ∷ "-vbr" ∷ "-profile:v"
          ∷ "-level:v" ∷ "-tier" ∷ "-preset" ∷ "-tune" ∷ [])
      ∷ pattern_rule "videotoolbox" "Remove VideoToolbox-specific parameters" (
          "-profile:v" ∷ "-level:v" ∷ "-tier" ∷ "-preset" ∷ "-allow_sw" ∷ "-require_sw"
          ∷ "-realtime" ∷ "-frames_before" ∷ "-frames_after" ∷ [])
      ∷ [];
  describes = "Remove encoder-specific parameters for fallback";
}

unfoldable pub device_not_found_rule : PruneRule
device_not_found_rule = record {
  applies_to = device_not_found;
  removes = "-hwaccel_device" ∷ "-vaapi_device" ∷ "-qsv_device" ∷ "-gpu" ∷ [];
  pattern_rules =
      pattern_rule "/dev/dri" "Remove DRI device parameters"
        ("-vaapi_device" ∷ "-hwaccel_device" ∷ [])
      ∷ pattern_rule "CUDA" "Remove CUDA device parameters" ("-gpu" ∷ "-hwaccel_device" ∷ [])
      ∷ pattern_rule "QSV" "Remove QSV device parameters" ("-qsv_device" ∷ "-hwaccel_device" ∷ [])
      ∷ [];
  describes = "Remove device-specific parameters";
}

unfoldable pub unsupported_codec_rule : PruneRule
unsupported_codec_rule = record {
  applies_to = unsupported_codec;
  removes = "-profile" ∷ "-profile:v" ∷ "-level" ∷ "-level:v" ∷ "-tier" ∷ [];
  pattern_rules =
      pattern_rule "profile" "Remove profile parameter" ("-profile" ∷ "-profile:v" ∷ [])
      ∷ pattern_rule "level" "Remove level parameter" ("-level" ∷ "-level:v" ∷ [])
      ∷ pattern_rule "tier" "Remove tier parameter" ("-tier" ∷ [])
      ∷ [];
  describes = "Remove codec-specific parameters";
}

unfoldable pub hwaccel_failed_rule : PruneRule
hwaccel_failed_rule = record {
  applies_to = hwaccel_failed;
  removes = "-hwaccel" ∷ "-hwaccel_device" ∷ "-hwaccel_output_format" ∷ "-init_hw_device" ∷ [];
  pattern_rules =
      pattern_rule "hwaccel" "Remove hardware acceleration parameters"
        ("-hwaccel" ∷ "-hwaccel_device" ∷ "-hwaccel_output_format" ∷ [])
      ∷ pattern_rule "init_hw_device" "Remove init hardware device parameter"
          ("-init_hw_device" ∷ [])
      ∷ pattern_rule "nvenc" "Remove NVENC-specific parameters for software fallback" (
          "-gpu" ∷ "-surfaces" ∷ "-delay" ∷ "-2pass" ∷ "-multipass" ∷ "-rc" ∷ "-cq" ∷ "-b:v"
          ∷ "-maxrate" ∷ "-bufsize" ∷ "-profile:v" ∷ "-level:v" ∷ "-tier" ∷ "-preset" ∷ "-tune"
          ∷ "-rc-lookahead" ∷ "-spatial-aq" ∷ "-temporal-aq" ∷ "-aq-strength" ∷ [])
      ∷ pattern_rule "qsv" "Remove QSV-specific parameters for software fallback" (
          "-qsv_device" ∷ "-load_plugin" ∷ "-async_depth" ∷ "-max_frame_size" ∷ "-profile:v"
          ∷ "-level:v" ∷ "-tier" ∷ "-preset" ∷ "-tune" ∷ [])
      ∷ pattern_rule "vaapi" "Remove VAAPI-specific parameters for software fallback" (
          "-vaapi_device" ∷ "-low_power" ∷ "-idr_interval" ∷ "-b_depth" ∷ "-async_depth"
          ∷ "-profile:v" ∷ "-level:v" ∷ "-tier" ∷ "-preset" ∷ [])
      ∷ pattern_rule "amf" "Remove AMF-specific parameters for software fallback" (
          "-gpu" ∷ "-rc" ∷ "-enforce_hrd" ∷ "-filler_data" ∷ "-frame_skipping" ∷ "-profile:v"
          ∷ "-level:v" ∷ "-tier" ∷ "-preset" ∷ "-tune" ∷ [])
      ∷ pattern_rule "videotoolbox" "Remove VideoToolbox-specific parameters for software fallback"
          ("-profile:v" ∷ "-level:v" ∷ "-tier" ∷ "-preset" ∷ "-allow_sw" ∷ "-require_sw" ∷ [])
      ∷ [];
  describes = "Remove hardware acceleration parameters for fallback to software";
}

unfoldable pub memory_allocation_rule : PruneRule
memory_allocation_rule = record {
  applies_to = memory_allocation;
  removes = [];
  pattern_rules = [];
  describes = "Memory errors usually cannot be fixed by parameter pruning";
}

unfoldable pub input_output_rule : PruneRule
input_output_rule = record {
  applies_to = input_output;
  removes = [];
  pattern_rules = [];
  describes = "I/O errors usually cannot be fixed by parameter pruning";
}

unfoldable pub permission_denied_rule : PruneRule
permission_denied_rule = record {
  applies_to = permission_denied;
  removes = [];
  pattern_rules = [];
  describes = "Permission errors usually cannot be fixed by parameter pruning";
}

unfoldable pub default_prune_rules : List PruneRule
default_prune_rules =
    invalid_argument_rule ∷ encoder_not_found_rule ∷ device_not_found_rule ∷ unsupported_codec_rule
    ∷ hwaccel_failed_rule ∷ memory_allocation_rule ∷ input_output_rule ∷ permission_denied_rule ∷ []
