-- ===== src/Encoder.antt =====
-- pkg/encoder/types.go: what is known of an encoder by its name. The Go types are texts.
pub mod Kinds
use rffmpeg.Base.{String, Bool, List, [], ◌∷◌, member, if◌then◌else◌}

unfoldable pub codec_format : String → String
codec_format e =
    if member e
      ("libx264" ∷ "h264_nvenc" ∷ "h264_qsv" ∷ "h264_vaapi" ∷ "h264_amf" ∷ "h264_videotoolbox" ∷ [])
    then "h264"
    else if member e (
        "libx265" ∷ "hevc_nvenc" ∷ "hevc_qsv" ∷ "hevc_vaapi" ∷ "hevc_amf" ∷ "hevc_videotoolbox"
        ∷ [])
    then "hevc"
    else if member e ("libvpx-vp9" ∷ "vp9_nvenc" ∷ "vp9_qsv" ∷ "vp9_vaapi" ∷ [])
    then "vp9"
    else if member e ("libsvtav1" ∷ "libaom-av1" ∷ "av1_nvenc" ∷ "av1_qsv" ∷ "av1_vaapi" ∷ [])
    then "av1"
    else if member e ("libvpx" ∷ "vp8_vaapi" ∷ [])
    then "vp8"
    else if member e ("mpeg2video" ∷ "mpeg2_vaapi" ∷ [])
    then "mpeg2"
    else if member e ("mpeg4" ∷ [])
    then "mpeg4"
    else ""

unfoldable pub hardware_encoders : List String
hardware_encoders =
    "h264_nvenc" ∷ "h264_qsv" ∷ "h264_vaapi" ∷ "h264_amf" ∷ "h264_videotoolbox" ∷ "hevc_nvenc"
    ∷ "hevc_qsv" ∷ "hevc_vaapi" ∷ "hevc_amf" ∷ "hevc_videotoolbox" ∷ "vp9_nvenc" ∷ "vp9_qsv"
    ∷ "vp9_vaapi" ∷ "av1_nvenc" ∷ "av1_qsv" ∷ "av1_vaapi" ∷ "vp8_vaapi" ∷ "mpeg2_vaapi" ∷ []

unfoldable pub is_hardware : String → Bool
unfolding hardware_encoders
is_hardware e = member e hardware_encoders

unfoldable pub gpu_vendor : String → String
gpu_vendor e =
    if member e ("h264_nvenc" ∷ "hevc_nvenc" ∷ "vp9_nvenc" ∷ "av1_nvenc" ∷ [])
    then "nvidia"
    else if member e ("h264_qsv" ∷ "hevc_qsv" ∷ "vp9_qsv" ∷ "av1_qsv" ∷ [])
    then "intel"
    else if member e
        ("h264_vaapi" ∷ "hevc_vaapi" ∷ "vp9_vaapi" ∷ "av1_vaapi" ∷ "vp8_vaapi" ∷ "mpeg2_vaapi" ∷ [])
    then "amd"
    else if member e ("h264_videotoolbox" ∷ "hevc_videotoolbox" ∷ [])
    then "apple"
    else if member e ("h264_amf" ∷ "hevc_amf" ∷ [])
    then "amd"
    else "none"
