-- ===== src/Worker/Output.antt =====
-- pkg/worker/executor.go: the arguments of an ffmpeg command, its output and whether that is a network
-- address.
use rffmpeg.Base.{
  ℕ, ◌+◌, eqb, length, ◌++◌, Option, none, some, String, Bool, true, false, ◌&&◌, ◌||◌, List, [],
  ◌∷◌, ◌==◌, not, if◌then◌else◌, starts_with, has_part,
}
use rffmpeg.Base.Tables.{exists_where}
use rffmpeg.Options.{is_boolean}

unfoldable pub is_flag_with_value : String → Bool
is_flag_with_value flag = if has_part flag "=" then false else not (is_boolean flag)

-- The loop, with its two Boolean variables.
unfoldable pub has_output : Bool → Bool → List String → Bool
has_output expecting_value seen_input [] = false
has_output true seen_input (arg ∷ rest) = has_output false seen_input rest
has_output false seen_input (arg ∷ rest) =
    let input = arg == "-i" || arg == "--input" in
    let bare = not (starts_with arg "-") in
    let later =
      has_output (if input then true else if bare then false else is_flag_with_value arg)
        (if input then true else seen_input || bare) rest in
    if input then later else if seen_input && (arg == "-" || bare) then true else later

unfoldable pub has_output_arg : List String → Bool
has_output_arg args = has_output false false args

unfoldable pub find_separator_index : ℕ → List String → Option ℕ
find_separator_index i [] = none
find_separator_index i (arg ∷ rest) =
    let later = find_separator_index (i + 1) rest in if arg == "--" then some i else later

-- The placeholders replaced, in order, while there are input paths.
unfoldable pub place_inputs : List String → List String → List String
place_inputs [] paths = []
place_inputs (arg ∷ rest) [] = arg ∷ place_inputs rest []
place_inputs (arg ∷ rest) (path ∷ paths) =
    let later = place_inputs rest (if arg == "<INPUT_FILE>" then paths else path ∷ paths) in
    (if arg == "<INPUT_FILE>" then path else arg) ∷ later

module _ (args : List String) (output : String) where
  abbrev pub with_output : Option ℕ → List String
  with_output (some i) = if eqb (i + 1) (length args) then args ++ (output ∷ []) else args
  with_output none = if has_output_arg args then args else args ++ (output ∷ [])

unfoldable pub build_args : List String → List String → String → List String
build_args job_args input_paths output =
    let args = place_inputs job_args input_paths in
    with_output args output (find_separator_index 0 args)

unfoldable pub network_prefixes : List String
network_prefixes =
    "rtmp://" ∷ "rtmps://" ∷ "rtmpe://" ∷ "rtmpt://" ∷ "rtmpts://" ∷ "rtmpte://" ∷ "rtsp://"
    ∷ "rtsps://" ∷ "udp://" ∷ "tcp://" ∷ "srt://" ∷ "rtp://" ∷ "rist://" ∷ "icecast://" ∷ "http://"
    ∷ "https://" ∷ []

unfoldable pub is_network_url : String → Bool
unfolding network_prefixes
is_network_url text = exists_where (λ prefix. starts_with text prefix) network_prefixes

-- The first loop over the arguments: those behind a separator.
unfoldable pub network_after : Bool → List String → Bool
network_after after [] = false
network_after after (arg ∷ rest) =
    (not (arg == "--") && (after && is_network_url arg))
    || network_after (after || arg == "--") rest

unfoldable pub is_network_output : String → List String → Bool
is_network_output output args =
    is_network_url output || (network_after false args || exists_where is_network_url args)
