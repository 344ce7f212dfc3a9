-- ===== src/Worker/Fallback/Tables.antt =====
-- pkg/worker/encoder_fallback.go: its tables, and what an encoder's name says of its format. A Go map is
-- an association list with one entry for each key.
use rffmpeg.Base.{
  String, Bool, ◌||◌, Option, none, some, List, [], ◌∷◌, ◌==◌, if◌then◌else◌, has_part, member,
}
use rffmpeg.Base.Tables.{exists_where}
use rffmpeg.Worker.{GoLibrary}

unfoldable pub default_hardware_to_software_map : List (String × String)
default_hardware_to_software_map =
    ("h264_nvenc", "libx264")
    ∷ ("h264_qsv", "libx264")
    ∷ ("h264_vaapi", "libx264")
    ∷ ("h264_amf", "libx264")
    ∷ ("h264_videotoolbox", "libx264")
    ∷ ("hevc_nvenc", "libx265")
    ∷ ("hevc_qsv", "libx265")
    ∷ ("hevc_vaapi", "libx265")
    ∷ ("hevc_amf", "libx265")
    ∷ ("hevc_videotoolbox", "libx265")
    ∷ ("vp9_vaapi", "libvpx-vp9")
    ∷ ("vp9_qsv", "libvpx-vp9")
    ∷ ("vp9_videotoolbox", "libvpx-vp9")
    ∷ ("av1_nvenc", "libaom-av1")
    ∷ ("av1_qsv", "libaom-av1")
    ∷ ("av1_vaapi", "libaom-av1")
    ∷ ("av1_amf", "libaom-av1")
    ∷ ("vp8_vaapi", "libvpx")
    ∷ ("mpeg2_vaapi", "mpeg2video")
    ∷ []

unfoldable pub default_format_encoders_map : List (String × List String)
default_format_encoders_map =
    ("h264", "libx264" ∷ "libx264rgb" ∷ [])
    ∷ ("avc", "libx264" ∷ "libx264rgb" ∷ [])
    ∷ ("h264nv", "libx264" ∷ [])
    ∷ ("hevc", "libx265" ∷ [])
    ∷ ("h265", "libx265" ∷ [])
    ∷ ("hevcnv", "libx265" ∷ [])
    ∷ ("vp9", "libvpx-vp9" ∷ [])
    ∷ ("av1", "libaom-av1" ∷ "libsvtav1" ∷ [])
    ∷ ("vp8", "libvpx" ∷ [])
    ∷ ("mpeg2video", "mpeg2video" ∷ [])
    ∷ ("mpeg4", "mpeg4" ∷ [])
    ∷ ("mjpeg", "mjpeg" ∷ [])
    ∷ []

unfoldable pub default_software_fallback_chain : List (String × String)
default_software_fallback_chain = ("libaom-av1", "libsvtav1") ∷ ("libx264rgb", "libx264") ∷ []

unfoldable pub hardware_specific_params : List String
hardware_specific_params =
    "-hwaccel" ∷ "-hwaccel_device" ∷ "-hwaccel_output_format" ∷ "-init_hw_device" ∷ "-vaapi_device"
    ∷ "-qsv_device" ∷ "-gpu" ∷ "-surfaces" ∷ "-delay" ∷ "-2pass" ∷ "-multipass" ∷ "-rc"
    ∷ "-rc_lookahead" ∷ "-rc-lookahead" ∷ "-spatial_aq" ∷ "-spatial-aq" ∷ "-temporal_aq"
    ∷ "-temporal-aq" ∷ "-aq_strength" ∷ "-aq-strength" ∷ "-low_power" ∷ "-low-power"
    ∷ "-async_depth" ∷ "-async-depth" ∷ "-load_plugin" ∷ "-load-plugin" ∷ "-enforce_hrd"
    ∷ "-enforce-hrd" ∷ "-filler_data" ∷ "-filler-data" ∷ "-frame_skipping" ∷ "-frame-skipping"
    ∷ "-allow_sw" ∷ "-allow-sw" ∷ "-require_sw" ∷ "-require-sw" ∷ []

unfoldable pub is_hardware_specific_param : String → Bool
unfolding hardware_specific_params
is_hardware_specific_param param = member param hardware_specific_params

module _ {ℓ} {A : Type ℓ} where
  unfoldable pub entry : String → List (String × A) → Option A
  entry key [] = none
  entry key ((k, value) ∷ rest) = if k == key then some value else entry key rest

  -- m[key] = value.
  unfoldable pub put_entry : String → A → List (String × A) → List (String × A)
  put_entry key value [] = (key, value) ∷ []
  put_entry key value ((k, v) ∷ rest) =
      let later = (k, v) ∷ put_entry key value rest in
      if k == key then (key, value) ∷ rest else later

unfoldable pub is_listed : String → List (String × List String) → Bool
is_listed encoder formats = exists_where (λ f. member encoder f.1) formats

module _ (go : GoLibrary) where
  abbrev pub named_like : String → String → Bool
  named_like encoder part = has_part (go.to_lower encoder) part

  unfoldable pub pattern_format : String → String
  pattern_format e =
      if named_like e "h264" || (named_like e "avc" || named_like e "x264")
      then "h264"
      else if named_like e "hevc" || (named_like e "h265" || named_like e "x265")
      then "hevc"
      else if named_like e "vp9"
      then "vp9"
      else if named_like e "vpx"
      then "vp8"
      else if named_like e "av1"
      then "av1"
      else if named_like e "vp8"
      then "vp8"
      else if named_like e "mpeg2"
      then "mpeg2video"
      else if named_like e "mpeg4"
      then "mpeg4"
      else if named_like e "mjpeg"
      then "mjpeg"
      else if named_like e "opus"
      then "opus"
      else if named_like e "mp3" || named_like e "lame"
      then "mp3"
      else if named_like e "aac"
      then "aac"
      else if named_like e "vorbis"
      then "vorbis"
      else if named_like e "flac"
      then "flac"
      else if named_like e "wav"
      then "wav"
      else if named_like e "pcm"
          || (named_like e "s16le" || (named_like e "s24le" || named_like e "s32le"))
      then "pcm"
      else ""

  unfoldable pub get_encoder_format : String → String
  get_encoder_format e =
      if named_like e "svt"
      then if named_like e "av1"
        then "av1"
        else if named_like e "hevc"
        then "hevc"
        else pattern_format e
      else pattern_format e

  unfoldable pub get_encoder_family : String → String
  get_encoder_family e =
      let format = get_encoder_format e in
      if format == "vp8" || format == "vp9" then "vpx" else format

  unfoldable pub infer_software_encoder : String → String
  infer_software_encoder e =
      if named_like e "h264" || named_like e "avc"
      then "libx264"
      else if named_like e "hevc" || named_like e "h265"
      then "libx265"
      else if named_like e "vp9"
      then "libvpx-vp9"
      else if named_like e "av1"
      then "libaom-av1"
      else if named_like e "vp8"
      then "libvpx"
      else ""

  unfoldable pub extension_encoder : String → Option String
  extension_encoder ext =
      if member ext (".mkv" ∷ ".mp4" ∷ ".mov" ∷ ".avi" ∷ ".flv" ∷ ".ts" ∷ ".m2ts" ∷ [])
      then some "libx264"
      else if ext == ".webm"
      then some "libvpx-vp9"
      else if ext == ".ivf"
      then some "libvpx"
      else none

  unfoldable pub container_encoder : String → Option String
  container_encoder format =
      if member format ("mp4" ∷ "mov" ∷ "matroska" ∷ "flv" ∷ [])
      then some "libx264"
      else if format == "webm"
      then some "libvpx-vp9"
      else none

  abbrev pub or_later : Option String → String → String
  or_later (some found) later = found
  or_later none later = later

  -- The loop over the -f options.
  unfoldable pub format_flag_encoder : List String → String
  format_flag_encoder [] = ""
  format_flag_encoder (arg ∷ []) = ""
  format_flag_encoder (arg ∷ (next ∷ rest)) =
      let later = format_flag_encoder (next ∷ rest) in
      if arg == "-f" then or_later (container_encoder (go.to_lower next)) later else later

  unfoldable pub infer_software_encoder_from_context : List String → String → String
  infer_software_encoder_from_context args output =
      or_later (extension_encoder (go.to_lower (go.ext output))) (format_flag_encoder args)
