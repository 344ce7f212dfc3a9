-- ===== src/Worker/Errors/Patterns.antt =====
-- pkg/worker/error_interceptor.go: the texts by which an ffmpeg failure is known, its name, and whether
-- another attempt may help.
use rffmpeg.Base.{String, Bool, true, false, List, [], ◌∷◌}
use rffmpeg.Worker.{
  ErrorType, unknown, invalid_argument, encoder_not_found, device_not_found, unsupported_codec,
  memory_allocation, hwaccel_failed, input_output, permission_denied, output_empty, output_open,
  process_crash,
}

unfoldable pub error_text : ErrorType → String
error_text invalid_argument = "invalid_argument"
error_text encoder_not_found = "encoder_not_found"
error_text output_open = "output_open_failure"
error_text device_not_found = "device_not_found"
error_text unsupported_codec = "unsupported_codec"
error_text memory_allocation = "memory_allocation"
error_text hwaccel_failed = "hwaccel_failed"
error_text output_empty = "output_empty"
error_text process_crash = "process_crash"
error_text input_output = "input_output"
error_text permission_denied = "permission_denied"
error_text unknown = "unknown"

unfoldable pub error_description : ErrorType → String
error_description invalid_argument = "Invalid argument or option not found"
error_description encoder_not_found = "Encoder does not exist or is not available"
error_description device_not_found = "Device not found or inaccessible"
error_description unsupported_codec = "Codec not supported"
error_description memory_allocation = "Memory allocation failed"
error_description hwaccel_failed = "Hardware acceleration failed"
error_description input_output = "Input/output error"
error_description permission_denied = "Permission denied"
error_description output_empty = "Output file is empty"
error_description output_open = "ffmpeg could not open or initialize the output file"
error_description process_crash = "FFmpeg process killed by OS signal (crash)"
error_description unknown = "Unknown error"

unfoldable pub is_retryable_type : ErrorType → Bool
is_retryable_type invalid_argument = true
is_retryable_type encoder_not_found = true
is_retryable_type device_not_found = true
is_retryable_type unsupported_codec = true
is_retryable_type hwaccel_failed = true
is_retryable_type output_empty = true
is_retryable_type process_crash = true
is_retryable_type output_open = false
is_retryable_type memory_allocation = false
is_retryable_type input_output = false
is_retryable_type permission_denied = false
is_retryable_type unknown = false

pub record ErrorPattern : Type 0 where
  pub kind : ErrorType
  pub texts : List String
  pub about : String

abbrev pub pattern_of : ErrorType → String → List String → ErrorPattern
pattern_of kind about texts = record { kind = kind; texts = texts; about = about }

unfoldable pub default_error_patterns : List ErrorPattern
default_error_patterns =
    pattern_of output_open "ffmpeg could not open or initialize the output file" (
      "Error opening output file" ∷ "Error opening output files" ∷ "Error initializing the muxer"
      ∷ "Could not open file" ∷ "could not open output" ∷ "Unable to choose an output format" ∷ [])
    ∷ pattern_of invalid_argument "Invalid argument or option error" (
        "Invalid argument" ∷ "Option not found" ∷ "Invalid option" ∷ "Unrecognized option"
        ∷ "error parsing option" ∷ "Invalid value" ∷ "Expected a value for option" ∷ [])
    ∷ pattern_of encoder_not_found "Encoder not found error" (
        "No such encoder" ∷ "Unknown encoder" ∷ "Encoder not found" ∷ "not found in encoder list"
        ∷ "Requested encoder" ∷ "Selected encoder not available" ∷ [])
    ∷ pattern_of device_not_found "Device not found error" (
        "Device not found" ∷ "Cannot open device" ∷ "device not found" ∷ "Failed to open device"
        ∷ "DRM device" ∷ "VA device" ∷ "CUDA device" ∷ "cannot open device" ∷ [])
    ∷ pattern_of unsupported_codec "Unsupported codec error" (
        "Unsupported codec" ∷ "Codec not supported" ∷ "Unsupported feature" ∷ "codec not supported"
        ∷ "not supported by this encoder" ∷ "does not support" ∷ [])
    ∷ pattern_of memory_allocation "Memory allocation error" (
        "Cannot allocate memory" ∷ "Out of memory" ∷ "memory allocation failed"
        ∷ "failed to allocate" ∷ "Allocation failed" ∷ [])
    ∷ pattern_of hwaccel_failed "Hardware acceleration error" (
        "Hardware acceleration error" ∷ "hwaccel" ∷ "hardware device" ∷ "GPU" ∷ "CUDA error"
        ∷ "NVENC error" ∷ "VAAPI error" ∷ "QSV error" ∷ "[QSV" ∷ "Error creating a MFX session"
        ∷ "Device creation failed" ∷ "qsv_device" ∷ "vaapi_device" ∷ "AMF error"
        ∷ "VideoToolbox error" ∷ "failed to init hwdevice" ∷ "failed to init hwaccel"
        ∷ "MFX session" ∷ "Impossible to convert between the formats" ∷ "Failed to process frame"
        ∷ "Encode failed" ∷ [])
    ∷ pattern_of input_output "Input/output error" (
        "Input/output error" ∷ "No such file" ∷ "No such device" ∷ "I/O error" ∷ "read error"
        ∷ "write error" ∷ "end of file" ∷ [])
    ∷ pattern_of permission_denied "Permission denied error"
        ("Permission denied" ∷ "Access denied" ∷ "Access is denied" ∷ "permission denied" ∷ [])
    ∷ pattern_of output_empty "Output file is empty or not found" (
        "Output file is empty" ∷ "output file is empty" ∷ "output file not found"
        ∷ "Output file not found" ∷ "Empty output" ∷ [])
    ∷ pattern_of process_crash "FFmpeg process killed by OS signal (crash)"
        ("Aborted" ∷ "Killed signal 6" ∷ "Killed signal 11" ∷ [])
    ∷ []
