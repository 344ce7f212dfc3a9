-- ===== src/Worker.antt =====
-- pkg/worker: the values that the parts of a worker's ffmpeg execution pass to each other, and Go's
-- library as they call it. Timestamps and log lines are left out.
pub mod Errors
pub mod Output
pub mod PruneRules
pub mod Pruning
pub mod Fallback
pub mod Retry
pub mod Execution
use rffmpeg.Base.{ℤ, String, Bool, Option, List}

-- The kinds of ffmpeg failure, FFmpegErrorType.
pub data ErrorType : Type 0 where
  unknown invalid_argument encoder_not_found device_not_found unsupported_codec : ErrorType
  memory_allocation hwaccel_failed input_output permission_denied output_empty : ErrorType
  output_open process_crash : ErrorType

-- What a run of ffmpeg leaves. `error` is the text of Go's error, none where it is nil.
pub record ExecResult : Type 0 where
  pub exit_code : ℤ
  pub stdout : String
  pub stderr : String
  pub error : Option String
  pub is_timeout : Bool

pub record FfmpegError : Type 0 where
  pub error_type : ErrorType
  pub message : String
  pub code : ℤ
  pub log : String
  pub matched_patterns : List String
  pub context_lines : List String

pub record InterceptedResult : Type 0 where
  pub exec_result : ExecResult
  pub ffmpeg_error : Option FfmpegError
  pub is_success : Bool
  pub prune_recommendations : List String

-- A compiled regular expression: its source and MatchString.
pub record Regexp : Type 0 where
  pub expr : String
  pub match_string : String → Bool

-- Go's library: `lines` is strings.Split at the line feed, `compile` regexp.Compile and none where it
-- fails, `decimal` the %d of fmt, `ext` filepath.Ext, `sort` sort.Strings.
pub record GoLibrary : Type 0 where
  pub to_lower : String → String
  pub trim_space : String → String
  pub lines : String → List String
  pub quote_meta : String → String
  pub compile : String → Option (String → Bool)
  pub decimal : ℤ → String
  pub ext : String → String
  pub sort : List String → List String
