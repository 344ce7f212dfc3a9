-- ===== src/Worker/Errors/Intercepting.antt =====
-- pkg/worker/error_analyzer.go, Analyze, and error_interceptor.go: the verdict on a run of ffmpeg.
use rffmpeg.Base.{
  ℤ, pos, negsuc, is_zero, String, Bool, true, false, ◌&&◌, Option, none, some, List, [], ◌∷◌, ◌==◌,
  not, eqb, if◌then◌else◌, has_part, has_suffix, ◌<>◌,
}
use rffmpeg.Base.Tables.{exists_where, find_where}
use rffmpeg.Worker.{
  ErrorType, unknown, process_crash, hwaccel_failed, GoLibrary, Regexp, ExecResult, FfmpegError,
  InterceptedResult,
}
use rffmpeg.Worker.Errors.Patterns.{is_retryable_type}
use rffmpeg.Worker.Errors.Messages.{
  CompiledPattern, extract_error_message, extract_first_error_line, extract_context_lines,
}

-- signalExitCodes.
unfoldable pub signal_name : ℤ → Option String
signal_name (negsuc n) = none
signal_name (pos n) =
    if eqb n 134
    then some "SIGABRT"
    else if eqb n 135
    then some "SIGBUS"
    else if eqb n 136
    then some "SIGFPE"
    else if eqb n 137
    then some "SIGKILL"
    else if eqb n 139
    then some "SIGSEGV"
    else none

module _ (go : GoLibrary) where
  unfoldable pub signal_death_message : String → ℤ → String → String
  signal_death_message sig code stderr =
      let line = extract_first_error_line go stderr in
      let msg = "ffmpeg killed by OS signal " <> (sig <> (" (exit " <> (go.decimal code <> ")"))) in
      if line == "" then msg else msg <> (": " <> line)

  unfoldable pub crash_error : String → ℤ → String → FfmpegError
  crash_error sig code stderr = record {
    error_type = process_crash;
    message = signal_death_message sig code stderr;
    code = code;
    log = stderr;
    matched_patterns = [];
    context_lines = [];
  }

  unfoldable pub pattern_error : ErrorType → Regexp → ℤ → String → FfmpegError
  pattern_error kind re code stderr = record {
    error_type = kind;
    message = extract_error_message go stderr re;
    code = code;
    log = stderr;
    matched_patterns = re.expr ∷ [];
    context_lines = extract_context_lines go (go.lines stderr) re;
  }

  unfoldable pub unknown_error : ℤ → String → FfmpegError
  unknown_error code stderr = record {
    error_type = unknown;
    message = extract_first_error_line go stderr;
    code = code;
    log = stderr;
    matched_patterns = [];
    context_lines = go.lines stderr;
  }

  abbrev pub or_match :
      Option Regexp → ErrorType → Option (ErrorType × Regexp) → Option (ErrorType × Regexp)
  or_match none kind rest = rest
  or_match (some re) kind rest = some (kind, re)

  -- The first pattern that matches, in the order of the table.
  unfoldable pub first_match : List CompiledPattern → String → Option (ErrorType × Regexp)
  first_match [] stderr = none
  first_match (p ∷ ps) stderr =
      or_match (find_where (λ re. re.match_string stderr) p.expressions) p.kind
        (first_match ps stderr)

  abbrev pub matched_or : Option (ErrorType × Regexp) → ℤ → String → Option FfmpegError
  matched_or (some (kind, re)) code stderr = some (pattern_error kind re code stderr)
  matched_or none code stderr = if is_zero code then none else some (unknown_error code stderr)

  abbrev pub crash_or : Option String → List CompiledPattern → String → ℤ → Option FfmpegError
  crash_or (some sig) patterns stderr code = some (crash_error sig code stderr)
  crash_or none patterns stderr code = matched_or (first_match patterns stderr) code stderr

  unfoldable pub analyze : List CompiledPattern → String → ℤ → Option FfmpegError
  analyze patterns stderr code =
      if stderr == "" && is_zero code
      then none
      else crash_or (signal_name code) patterns stderr code

unfoldable pub is_retryable_error : FfmpegError → Bool
is_retryable_error e = is_retryable_type e.error_type

unfoldable pub hardware_suffixes : List String
hardware_suffixes =
    "_nvenc" ∷ "_qsv" ∷ "_vaapi" ∷ "_amf" ∷ "_videotoolbox" ∷ "_cuvid" ∷ "_vdpau" ∷ "_nvdec" ∷ []

-- isHardwareEncoderByName, and IsHardwareEncoder of the fallback, which is the same code.
unfoldable pub is_hardware_encoder : String → Bool
unfolding hardware_suffixes
is_hardware_encoder encoder = exists_where (λ s. has_suffix encoder s) hardware_suffixes

unfoldable pub reported_encoders : List String
reported_encoders =
    "libx264" ∷ "libx265" ∷ "libvpx-vp9" ∷ "libvpx" ∷ "libaom-av1" ∷ "libsvtav1" ∷ "mpeg2video"
    ∷ "mjpeg" ∷ []

unfoldable pub detect_software_encoder_in_stderr : String → Option String
unfolding reported_encoders
detect_software_encoder_in_stderr stderr =
    find_where (λ enc. has_part stderr ("[" <> (enc <> " @"))) reported_encoders

unfoldable pub fallback_error : String → String → ExecResult → FfmpegError
fallback_error requested actual result = record {
  error_type = hwaccel_failed;
  message =
      "Hardware encoder " <> (requested <> (" silently fell back to software encoder " <> actual));
  code = result.exit_code;
  log = result.stderr;
  matched_patterns = [];
  context_lines = [];
}

abbrev pub is_none_text : Option String → Bool
is_none_text none = true
is_none_text (some _) = false

-- `analyze` and `recommend` are those of the interceptor's analyzer and pruner.
module _ (analyzed : String → ℤ → Option FfmpegError)
    (recommend : ErrorType → String → List String) where
  abbrev pub with_error : ExecResult → Option FfmpegError → InterceptedResult
  with_error result none = record {
    exec_result = result;
    ffmpeg_error = none;
    is_success = is_zero result.exit_code && is_none_text result.error;
    prune_recommendations = [];
  }
  with_error result (some e) = record {
    exec_result = result;
    ffmpeg_error = some e;
    is_success = false;
    prune_recommendations = recommend e.error_type result.stderr;
  }

  abbrev pub with_fallback : String → InterceptedResult → Option String → InterceptedResult
  with_fallback requested r none = r
  with_fallback requested r (some actual) = if actual == requested then r else record r {
    is_success = false;
    ffmpeg_error = some (fallback_error requested actual r.exec_result);
  }

  unfoldable pub intercept_with_encoder : ExecResult → String → InterceptedResult
  intercept_with_encoder result requested =
      let r = with_error result (analyzed result.stderr result.exit_code) in
      if r.is_success && (not (requested == "") && is_hardware_encoder requested)
      then with_fallback requested r (detect_software_encoder_in_stderr result.stderr)
      else r
