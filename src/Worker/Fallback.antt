-- ===== src/Worker/Fallback.antt =====
-- pkg/worker/encoder_fallback.go: the software encoder that takes over, and the command that asks for it.
-- An encoder is a text, "" where there is none.
pub mod Tables
pub mod Software
pub mod Chain
use rffmpeg.Base.{
  String, Bool, true, false, ◌&&◌, ◌||◌, Option, none, some, List, [], ◌∷◌, ◌++◌, ◌==◌, not,
  if◌then◌else◌, starts_with, member, is_some,
}
use rffmpeg.Base.Tables.{exists_where}
use rffmpeg.Rewrite.{
  HardwareCapabilities, VideoEncoderFlag, parse_video_encoder_flags, primary_video_encoder_flag,
  replace_primary_video_encoder,
}
use rffmpeg.Worker.{GoLibrary}
use rffmpeg.Worker.Errors.Intercepting.{is_hardware_encoder}
use rffmpeg.Worker.Output.{has_output_arg}
use rffmpeg.Worker.Pruning.{value_follows}
use rffmpeg.Worker.Fallback.Tables.{
  default_hardware_to_software_map, default_format_encoders_map, default_software_fallback_chain,
  is_hardware_specific_param, entry, put_entry, is_listed, get_encoder_format, get_encoder_family,
  infer_software_encoder, infer_software_encoder_from_context,
}

pub record EncoderFallback : Type 0 where
  pub hardware_to_software : List (String × String)
  pub format_encoders : List (String × List String)
  pub software_fallback_chain : List (String × String)
  pub hw_caps : Option HardwareCapabilities

unfoldable pub new_encoder_fallback : EncoderFallback
new_encoder_fallback = record {
  hardware_to_software = default_hardware_to_software_map;
  format_encoders = default_format_encoders_map;
  software_fallback_chain = default_software_fallback_chain;
  hw_caps = none;
}

abbrev pub flag_value : Option VideoEncoderFlag → String
flag_value none = ""
flag_value (some flag) = flag.value

unfoldable pub extract_encoder_with_caps : List String → Option HardwareCapabilities → String
extract_encoder_with_caps args caps =
    flag_value (primary_video_encoder_flag (parse_video_encoder_flags caps args))

unfoldable pub is_known_software_encoder : EncoderFallback → String → Bool
is_known_software_encoder f encoder =
    is_listed encoder f.format_encoders
    || exists_where (λ hs. hs.1 == encoder) f.hardware_to_software

-- The loop of buildFallbackArgs that drops hardware parameters and their values.
unfoldable pub without_hardware : Bool → List String → List String
without_hardware skip [] = []
without_hardware true (arg ∷ rest) = without_hardware false rest
without_hardware false (arg ∷ rest) =
    let later = without_hardware (is_hardware_specific_param arg && value_follows rest) rest in
    if is_hardware_specific_param arg then later else arg ∷ later

unfoldable pub build_fallback_args : EncoderFallback → List String → String → String → List String
build_fallback_args f args sw output =
    let primary = primary_video_encoder_flag (parse_video_encoder_flags f.hw_caps args) in
    let kept = without_hardware false (replace_primary_video_encoder args sw f.hw_caps) in
    let selected = if is_some primary then kept else kept ++ ("-c:v" ∷ sw ∷ []) in
    if not (output == "") && not (has_output_arg selected)
    then selected ++ (output ∷ [])
    else selected

module _ (go : GoLibrary) (f : EncoderFallback) where
  abbrev pub software_or : String → Option String → String
  software_or encoder (some sw) = sw
  software_or encoder none =
      if not (is_hardware_encoder encoder) then encoder else infer_software_encoder go encoder

  unfoldable pub get_software_encoder : String → String
  get_software_encoder encoder = software_or encoder (entry encoder f.hardware_to_software)

  abbrev pub same_family : String → Option String → String
  same_family encoder none = ""
  same_family encoder (some next) =
      if next == encoder
      then ""
      else if get_encoder_family go encoder == "" || get_encoder_family go next == ""
      then ""
      else if not (get_encoder_family go encoder == get_encoder_family go next)
      then ""
      else next

  unfoldable pub get_alternative_software_encoder : String → String
  get_alternative_software_encoder encoder =
      same_family encoder (entry encoder f.software_fallback_chain)

  unfoldable pub is_cross_format_fallback : String → String → Bool
  is_cross_format_fallback a b =
      if get_encoder_family go a == "" || get_encoder_family go b == ""
      then true
      else not (get_encoder_family go a == get_encoder_family go b)

  unfoldable pub validate_encoder : String → Bool
  validate_encoder encoder =
      is_some (entry encoder f.hardware_to_software)
      || (is_listed encoder f.format_encoders || not (get_encoder_format go encoder == ""))

  -- What takes over from a known software encoder: the next of the chain, for a fallback only.
  unfoldable pub chained : String → Bool → String
  chained encoder is_fallback =
      let alt = get_alternative_software_encoder encoder in
      if is_fallback && (not (alt == "") && not (alt == encoder)) then alt else ""

  unfoldable pub inferred : List String → String → String
  inferred args output =
      let sw = infer_software_encoder_from_context go args output in
      if sw == "" then "libx264" else sw

  -- The encoder that prepareFallbackArgsWithSource settles on, "" where it returns nil.
  unfoldable pub fallback_encoder : List String → String → Bool → String → String
  fallback_encoder args output is_fallback current =
      let sw = get_software_encoder current in
      if current == "" || current == "copy"
      then ""
      else if sw == "" || sw == current
      then if is_known_software_encoder f current
        then chained current is_fallback
        else inferred args output
      else sw

  abbrev pub args_for : List String → String → String → Option (List String)
  args_for args output sw = if sw == "" then none else some (build_fallback_args f args sw output)

  unfoldable pub prepare_fallback_args : List String → String → Bool → Option (List String)
  prepare_fallback_args args output is_user_selected = args_for args output (
      fallback_encoder args output (not is_user_selected)
        (extract_encoder_with_caps args f.hw_caps))

  -- AddFormatEncoder keeps the encoders of a format sorted.
  abbrev pub with_encoder : String → Option (List String) → List String
  with_encoder encoder none = go.sort (encoder ∷ [])
  with_encoder encoder (some encoders) =
      if member encoder encoders then encoders else go.sort (encoders ++ (encoder ∷ []))

  unfoldable pub add_format_encoder : String → String → EncoderFallback
  add_format_encoder format encoder = record f {
    format_encoders =
        put_entry format (with_encoder encoder (entry format f.format_encoders)) f.format_encoders;
  }

unfoldable pub add_software_fallback_chain : EncoderFallback → String → String → EncoderFallback
add_software_fallback_chain f a b = record f {
  software_fallback_chain = put_entry a b f.software_fallback_chain;
}

unfoldable pub add_encoder_mapping : EncoderFallback → String → String → EncoderFallback
add_encoder_mapping f hardware software = record f {
  hardware_to_software = put_entry hardware software f.hardware_to_software;
}
