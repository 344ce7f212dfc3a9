-- ===== src/Tests/Arguments.antt =====
-- Argument lists: the encoder replaced, parameters removed, the encoder that takes over, pauses, verdicts.
use rffmpeg.Base.{
  ◌-◌, ◌*◌, ◌^◌, min, ◌≡◌, refl, pos, String, true, false, none, some, List, [], ◌∷◌, ◌==◌, member,
  is_some, arith,
}
use rffmpeg.Base.{not, ◌||◌}
use rffmpeg.Base.Tables.{exists_where}
use rffmpeg.Encoder.{codec_format}
use rffmpeg.Rewrite.{
  VideoEncoderFlag, parse_video_encoder_flags, primary_video_encoder_flag,
  replace_primary_video_encoder, parse_from, selection, option_value, video_encoder_flag_name,
  known_video_encoder, last_explicit, last_flag,
}
use rffmpeg.Rewrite.Replacing.{put_tokens, first_token}
use rffmpeg.Rewrite.Reparsing.{
  replace_primary_video_encoder-put, replace_primary_video_encoder-parse,
}
use rffmpeg.Worker.Errors.Patterns.{default_error_patterns}
use rffmpeg.Worker.Errors.Messages.{new_error_analyzer}
use rffmpeg.Worker.Errors.Intercepting.{analyze}
use rffmpeg.Worker.Errors.Verdicts.{analyze-nonzero}
use rffmpeg.Worker.Pruning.{prune_params}
use rffmpeg.Worker.Pruning.Removal.{prune_params-gone}
use rffmpeg.Worker.Retry.{RetryConfig, retry_interval}
use rffmpeg.Worker.Retry.Pauses.{retry_interval-min}
use rffmpeg.Worker.Fallback.{
  new_encoder_fallback, fallback_encoder, get_alternative_software_encoder,
  is_cross_format_fallback,
}
use rffmpeg.Worker.Fallback.Tables.{
  entry, default_software_fallback_chain, get_encoder_format, get_encoder_family, pattern_format,
}
use rffmpeg.Worker.Fallback.Software.{
  IsSoftware, may_stay, fallback_encoder-IsSoftware, new_encoder_fallback-IsSoftwareOnly,
}
use rffmpeg.Worker.Fallback.Chain.{get_alternative_software_encoder-family}
use rffmpeg.Tests.Retrying.{go_library, hardware_args}

abbrev nvenc : VideoEncoderFlag
nvenc = record { index = 2; name = "c:v"; specifier = ""; value = "h264_nvenc"; generic = false }

nvenc-primary :
    primary_video_encoder_flag (parse_video_encoder_flags none hardware_args) ≡ some nvenc
unfolding primary_video_encoder_flag parse_video_encoder_flags parse_from selection option_value
    video_encoder_flag_name known_video_encoder last_explicit last_flag codec_format exists_where
nvenc-primary = refl

replace_primary_video_encoder-put_example :
    replace_primary_video_encoder hardware_args "libx264" none
    ≡ put_tokens 2 (first_token nvenc) "libx264" hardware_args
replace_primary_video_encoder-put_example =
    replace_primary_video_encoder-put none hardware_args nvenc nvenc-primary "libx264" refl

replace_primary_video_encoder-parse_example :
    (q : VideoEncoderFlag) × (primary_video_encoder_flag (
        parse_video_encoder_flags none (replace_primary_video_encoder hardware_args "libx264" none))
      ≡ some q)
    × (q.generic ≡ false)
    × (q.value ≡ "libx264")
replace_primary_video_encoder-parse_example =
    replace_primary_video_encoder-parse none hardware_args nvenc nvenc-primary "libx264" refl
      (refl, refl, refl)

abbrev gpu_args : List String
gpu_args = "-gpu" ∷ "0" ∷ "-rc=vbr" ∷ "-i" ∷ "in.mp4" ∷ []

prune_params-gone_example :
    (member "-rc" (prune_params gpu_args ("-gpu" ∷ "-rc" ∷ [])) ≡ false)
    × (member "-rc=vbr" (prune_params gpu_args ("-gpu" ∷ "-rc" ∷ [])) ≡ false)
unfolding exists_where
prune_params-gone_example = prune_params-gone gpu_args ("-gpu" ∷ "-rc" ∷ []) "-rc" "vbr" refl refl

-- An encoder that no table has: the output decides.
fallback_encoder-IsSoftware_example :
    IsSoftware new_encoder_fallback (
      fallback_encoder go_library new_encoder_fallback hardware_args "out.mp4" false "h264_v4l2m2m")
    × ((not (
            fallback_encoder go_library new_encoder_fallback hardware_args "out.mp4" false
              "h264_v4l2m2m"
            == "")
          || may_stay new_encoder_fallback "h264_v4l2m2m")
        ≡ true)
fallback_encoder-IsSoftware_example =
    fallback_encoder-IsSoftware go_library new_encoder_fallback new_encoder_fallback-IsSoftwareOnly
      hardware_args "out.mp4" false "h264_v4l2m2m"

aom_chained :
    (get_alternative_software_encoder go_library new_encoder_fallback "libaom-av1" == "") ≡ false
unfolding get_alternative_software_encoder new_encoder_fallback default_software_fallback_chain
    entry get_encoder_format get_encoder_family pattern_format
aom_chained = refl

get_alternative_software_encoder-family_example :
    is_cross_format_fallback go_library new_encoder_fallback "libaom-av1"
      (get_alternative_software_encoder go_library new_encoder_fallback "libaom-av1")
    ≡ false
get_alternative_software_encoder-family_example =
    get_alternative_software_encoder-family go_library new_encoder_fallback "libaom-av1" aom_chained

abbrev backoff : RetryConfig
backoff = record {
  max_retries = 5;
  initial_interval = 1000;
  use_exponential_backoff = true;
  max_interval = 5000;
  enable_software_fallback = true;
}

retry_interval-min_example : retry_interval backoff 4 ≡ min (1000 * 2 ^ (4 - 1)) 5000
retry_interval-min_example = retry_interval-min backoff 4 refl (omega arith)

analyze-nonzero_example :
    is_some (
      analyze go_library (new_error_analyzer go_library default_error_patterns) "odd words" (pos 1))
    ≡ true
analyze-nonzero_example =
    analyze-nonzero go_library (new_error_analyzer go_library default_error_patterns) "odd words"
      (pos 1) refl
