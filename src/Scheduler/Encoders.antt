-- ===== src/Scheduler/Encoders.antt =====
-- pkg/server/scheduler/encoder_fallback.go and encoder_parser.go: the encoder that a job asks for, its
-- codec family, and the encoders of that family. Lower case and JSON belong to Go's strings and
-- encoding/json: parameters here.
use rffmpeg.Base.{
  String, Bool, ◌&&◌, ◌||◌, Option, none, some, List, [], ◌∷◌, ◌==◌, if◌then◌else◌, is_some,
}
use rffmpeg.Base.Tables.{exists_where}
use text.Mathlib.Text.{starts_with, find?}

pub data CodecFamily : Type 0 where
  h264 hevc vp9 av1 vp8 mpeg2 mpeg4 : CodecFamily

-- `unmarshal` is json.Unmarshal into a []string, none where it fails; `to_lower` is strings.ToLower.
pub record GoLibrary : Type 0 where
  pub unmarshal : String → Option (List String)
  pub to_lower : String → String

unfoldable pub encoder_family_mapping : List (String × CodecFamily)
encoder_family_mapping =
    ("libx264", h264)
    ∷ ("libx264rgb", h264)
    ∷ ("h264_nvenc", h264)
    ∷ ("h264_qsv", h264)
    ∷ ("h264_vaapi", h264)
    ∷ ("h264_amf", h264)
    ∷ ("h264_videotoolbox", h264)
    ∷ ("h264_v4l2m2m", h264)
    ∷ ("h264_omx", h264)
    ∷ ("libx265", hevc)
    ∷ ("libx265rgb", hevc)
    ∷ ("hevc_nvenc", hevc)
    ∷ ("hevc_qsv", hevc)
    ∷ ("hevc_vaapi", hevc)
    ∷ ("hevc_amf", hevc)
    ∷ ("hevc_videotoolbox", hevc)
    ∷ ("hevc_v4l2m2m", hevc)
    ∷ ("libvpx-vp9", vp9)
    ∷ ("vp9_nvenc", vp9)
    ∷ ("vp9_qsv", vp9)
    ∷ ("vp9_vaapi", vp9)
    ∷ ("vp9_videotoolbox", vp9)
    ∷ ("libaom-av1", av1)
    ∷ ("libsvtav1", av1)
    ∷ ("av1_nvenc", av1)
    ∷ ("av1_qsv", av1)
    ∷ ("av1_vaapi", av1)
    ∷ ("av1_amf", av1)
    ∷ ("libvpx", vp8)
    ∷ ("vp8_vaapi", vp8)
    ∷ ("mpeg2video", mpeg2)
    ∷ ("mpeg2_qsv", mpeg2)
    ∷ ("mpeg2_vaapi", mpeg2)
    ∷ ("mpeg4", mpeg4)
    ∷ []

unfoldable pub encoder_priority : CodecFamily → List String
encoder_priority h264 =
    "h264_nvenc" ∷ "h264_qsv" ∷ "h264_vaapi" ∷ "h264_amf" ∷ "h264_videotoolbox" ∷ "libx264"
    ∷ "libx264rgb" ∷ []
encoder_priority hevc =
    "hevc_nvenc" ∷ "hevc_qsv" ∷ "hevc_vaapi" ∷ "hevc_amf" ∷ "hevc_videotoolbox" ∷ "libx265"
    ∷ "libx265rgb" ∷ []
encoder_priority vp9 =
    "vp9_nvenc" ∷ "vp9_qsv" ∷ "vp9_vaapi" ∷ "vp9_videotoolbox" ∷ "libvpx-vp9" ∷ []
encoder_priority av1 =
    "av1_nvenc" ∷ "av1_qsv" ∷ "av1_vaapi" ∷ "av1_amf" ∷ "libsvtav1" ∷ "libaom-av1" ∷ []
encoder_priority vp8 = "vp8_vaapi" ∷ "libvpx" ∷ []
encoder_priority mpeg2 = "mpeg2_qsv" ∷ "mpeg2_vaapi" ∷ "mpeg2video" ∷ []
encoder_priority mpeg4 = "mpeg4" ∷ []

unfoldable pub lookup : String → List (String × CodecFamily) → Option CodecFamily
lookup encoder [] = none
lookup encoder ((name, family) ∷ rest) =
    if encoder == name then some family else lookup encoder rest

-- strings.Contains.
abbrev has : String → String → Bool
has s part = is_some (find? s part)

unfoldable pub inferred_family : String → Option CodecFamily
inferred_family e =
    if has e "h264" || has e "avc"
    then some h264
    else if has e "hevc" || (has e "h265" || has e "x265")
    then some hevc
    else if has e "vp9"
    then some vp9
    else if has e "av1"
    then some av1
    else if has e "vp8"
    then some vp8
    else if has e "mpeg2"
    then some mpeg2
    else if has e "mpeg4"
    then some mpeg4
    else none

abbrev pub known_or : Option CodecFamily → Option CodecFamily → Option CodecFamily
known_or none inferred = inferred
known_or (some family) inferred = some family

abbrev pub priority_of : Option CodecFamily → List String
priority_of none = []
priority_of (some family) = encoder_priority family

-- passthroughEncoders.
abbrev pub passthrough : String → Bool
passthrough name = name == "copy"

unfoldable pub video_encoders : List String
video_encoders =
    "libx264" ∷ "libx264rgb" ∷ "libx265" ∷ "libx265rgb" ∷ "libvpx" ∷ "libvpx-vp9" ∷ "libaom-av1"
    ∷ "librav1e" ∷ "libsvtav1" ∷ "mpeg2video" ∷ "mpeg4" ∷ "msmpeg4" ∷ "msmpeg4v2" ∷ "wmv1" ∷ "wmv2"
    ∷ "flv" ∷ "h261" ∷ "h263" ∷ "h263p" ∷ "svq1" ∷ "dvvideo" ∷ "h264_nvenc" ∷ "hevc_nvenc" ∷ "nvenc"
    ∷ "nvenc_h264" ∷ "nvenc_hevc" ∷ "av1_nvenc" ∷ "h264_qsv" ∷ "hevc_qsv" ∷ "av1_qsv" ∷ "vp9_qsv"
    ∷ "mpeg2_qsv" ∷ "h264_amf" ∷ "hevc_amf" ∷ "av1_amf" ∷ "h264_vaapi" ∷ "hevc_vaapi" ∷ "av1_vaapi"
    ∷ "vp8_vaapi" ∷ "vp9_vaapi" ∷ "mpeg2_vaapi" ∷ "h264_videotoolbox" ∷ "hevc_videotoolbox"
    ∷ "prores_videotoolbox" ∷ "h264_v4l2m2m" ∷ "hevc_v4l2m2m" ∷ []

unfoldable pub is_video_encoder : String → Bool
unfolding video_encoders
is_video_encoder name = exists_where (λ v. v == name) video_encoders

-- The options that name the video encoder for certain.
unfoldable pub names_video : String → Bool
names_video arg =
    (arg == "-c:v" || arg == "-codec:v")
    || (starts_with arg "-c:v:" || (starts_with arg "-codec:v:" || arg == "-vcodec"))

-- The loop over each argument that has a successor.
unfoldable pub scan_args : List String → String
unfolding names_video is_video_encoder
scan_args [] = ""
scan_args (arg ∷ []) = ""
scan_args (arg ∷ (next ∷ rest)) =
    let later = scan_args (next ∷ rest) in
    if names_video arg
    then (if passthrough next then "" else next)
    else if (arg == "-c" || arg == "-codec") && is_video_encoder next
    then next
    else later

abbrev pub scan_decoded : Option (List String) → String
scan_decoded none = ""
scan_decoded (some args) = scan_args args

module _ (lib : GoLibrary) where
  unfoldable pub get_codec_family : String → Option CodecFamily
  unfolding encoder_family_mapping lookup inferred_family
  get_codec_family encoder =
      known_or (lookup encoder encoder_family_mapping) (inferred_family (lib.to_lower encoder))

  unfoldable pub get_compatible_encoders : String → List String
  unfolding get_codec_family
  get_compatible_encoders encoder = priority_of (get_codec_family encoder)

  unfoldable pub extract_encoder_from_args : String → String
  unfolding scan_args
  extract_encoder_from_args args = scan_decoded (lib.unmarshal args)
