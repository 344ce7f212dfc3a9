-- ===== src/Options.antt =====
-- pkg/ffmpegopts/ffmpegopts.go: which ffmpeg options take a value, and what -y and -n ask for.
pub mod Overwriting
use rffmpeg.Base.{
  ℕ, String, Bool, true, false, ◌&&◌, Option, none, some, List, [], ◌∷◌, ◌==◌, not, if◌then◌else◌,
  starts_with, find?, from, up_to, has_part,
}

unfoldable pub boolean_flags : List (String × Bool)
boolean_flags =
    ("filter_threads", false)
    ∷ ("thread_queue_size", false)
    ∷ ("shortest_buf_duration", false)
    ∷ ("copypriorss", false)
    ∷ ("stats_enc_post", false)
    ∷ ("stats_enc_post_fmt", false)
    ∷ ("stats_enc_pre", false)
    ∷ ("stats_enc_pre_fmt", false)
    ∷ ("stats_mux_pre", false)
    ∷ ("stats_mux_pre_fmt", false)
    ∷ ("vstats_version", false)
    ∷ ("apply_cropping", false)
    ∷ ("content_light", false)
    ∷ ("guess_layout_max", false)
    ∷ ("mastering_display", false)
    ∷ ("seek_timestamp", false)
    ∷ ("filter_complex_threads", false)
    ∷ ("filter_buffered_frames", false)
    ∷ ("fps_mode", false)
    ∷ ("discard", false)
    ∷ ("disposition", false)
    ∷ ("frame_drop_threshold", false)
    ∷ ("reinit_filter", false)
    ∷ ("drop_changed", false)
    ∷ ("apad", false)
    ∷ ("re", true)
    ∷ ("xerror", true)
    ∷ ("noautorotate", true)
    ∷ ("hide_banner", true)
    ∷ ("accurate_seek", true)
    ∷ ("an", true)
    ∷ ("auto_conversion_filters", true)
    ∷ ("autorotate", true)
    ∷ ("autoscale", true)
    ∷ ("benchmark", true)
    ∷ ("benchmark_all", true)
    ∷ ("bitexact", true)
    ∷ ("bsfs", true)
    ∷ ("buildconf", true)
    ∷ ("codecs", true)
    ∷ ("colors", true)
    ∷ ("copy_unknown", true)
    ∷ ("copyinkf", true)
    ∷ ("copyts", true)
    ∷ ("debug_ts", true)
    ∷ ("decoders", true)
    ∷ ("demuxers", true)
    ∷ ("devices", true)
    ∷ ("display_hflip", true)
    ∷ ("display_vflip", true)
    ∷ ("dispositions", true)
    ∷ ("dn", true)
    ∷ ("dump", true)
    ∷ ("encoders", true)
    ∷ ("filters", true)
    ∷ ("find_stream_info", true)
    ∷ ("fix_sub_duration", true)
    ∷ ("fix_sub_duration_heartbeat", true)
    ∷ ("force_fps", true)
    ∷ ("formats", true)
    ∷ ("hex", true)
    ∷ ("hwaccels", true)
    ∷ ("ignore_unknown", true)
    ∷ ("layouts", true)
    ∷ ("license", true)
    ∷ ("muxers", true)
    ∷ ("n", true)
    ∷ ("pix_fmts", true)
    ∷ ("print_graphs", true)
    ∷ ("protocols", true)
    ∷ ("recast_media", true)
    ∷ ("report", true)
    ∷ ("sample_fmts", true)
    ∷ ("shortest", true)
    ∷ ("sn", true)
    ∷ ("start_at_zero", true)
    ∷ ("stats", true)
    ∷ ("stdin", true)
    ∷ ("version", true)
    ∷ ("vn", true)
    ∷ ("vstats", true)
    ∷ ("y", true)
    ∷ []

-- A missing key of a Go map reads as false.
unfoldable pub flag_at : String → List (String × Bool) → Bool
flag_at name [] = false
flag_at name ((key, value) ∷ rest) = if key == name then value else flag_at name rest

-- strings.TrimPrefix(flag, "-").
abbrev pub trim_dash : String → String
trim_dash flag = if starts_with flag "-" then from 1 flag else flag

-- The name without its stream specifier.
abbrev pub cut_at : Option ℕ → String → String
cut_at none name = name
cut_at (some i) name = up_to i name

abbrev pub without_specifier : String → String
without_specifier name = cut_at (find? name ":") name

unfoldable pub is_switch : String → Bool
unfolding boolean_flags flag_at
is_switch name =
    if flag_at name boolean_flags
    then true
    else if starts_with name "no"
        && (not (from 2 name == "") && not (starts_with (from 2 name) "no"))
    then flag_at (from 2 name) boolean_flags
    else false

unfoldable pub is_boolean : String → Bool
unfolding is_switch
is_boolean flag =
    if has_part (trim_dash flag) "=" then true else is_switch (without_specifier (trim_dash flag))

pub data OverwriteMode : Type 0 where
  overwrite_ask overwrite_force overwrite_never overwrite_conflict : OverwriteMode

-- The two flags that the loop sets.
abbrev pub mode_of : Bool → Bool → OverwriteMode
mode_of true true = overwrite_conflict
mode_of true false = overwrite_force
mode_of false true = overwrite_never
mode_of false false = overwrite_ask

unfoldable pub overwrite_flags : Bool → Bool → List String → Bool × Bool
overwrite_flags force never [] = (force, never)
overwrite_flags force never (arg ∷ rest) =
    let later =
      overwrite_flags (if arg == "-y" then true else force) (if arg == "-n" then true else never)
        rest in
    if arg == "--" then (force, never) else later

unfoldable pub overwrite_policy : List String → OverwriteMode
unfolding overwrite_flags
overwrite_policy args =
    mode_of (overwrite_flags false false args).0 (overwrite_flags false false args).1
