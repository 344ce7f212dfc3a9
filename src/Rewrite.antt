-- ===== src/Rewrite.antt =====
-- pkg/encoder/rewrite/videoencoder.go: the video encoder selections of an argument list, and the
-- replacement of the one that ffmpeg obeys. A list index is a number, Go's len(arg) < 2 the test that
-- nothing follows the first byte.
pub mod Tokens
pub mod Lookup
pub mod Replacing
pub mod Primary
pub mod Reparsing
use rffmpeg.Base.{
  ℕ, suc, String, Bool, true, false, ◌&&◌, ◌||◌, Option, none, some, List, [], ◌∷◌, ◌++◌, ◌==◌, not,
  eqb, ltb, len, if◌then◌else◌, starts_with, find?, from, up_to, has_part, member, ◌<>◌,
}
use rffmpeg.Base.Tables.{find_where}
use rffmpeg.Encoder.{codec_format}

pub record VideoEncoderFlag : Type 0 where
  pub index : ℕ
  pub name : String
  pub specifier : String
  pub value : String
  pub generic : Bool

-- The field of HardwareCapabilities that is read here; nil is none.
pub record HardwareCapabilities : Type 0 where
  pub available_encoders : List String

-- (generic, specifier), none where the name is no encoder option.
unfoldable pub video_encoder_flag_name : String → Option (Bool × String)
video_encoder_flag_name name =
    if name == "vcodec"
    then some (false, "")
    else if starts_with name "c:v:"
    then some (false, from (len "c:v:") name)
    else if name == "c:v"
    then some (false, "")
    else if starts_with name "codec:v:"
    then some (false, from (len "codec:v:") name)
    else if name == "codec:v"
    then some (false, "")
    else if name == "c" || name == "codec"
    then some (true, "")
    else none

abbrev pub reported : String → Option HardwareCapabilities → Bool
reported name none = false
reported name (some caps) = member name caps.available_encoders

unfoldable pub known_video_encoder : String → Option HardwareCapabilities → Bool
known_video_encoder name caps = if not (codec_format name == "") then true else reported name caps

-- A token that cannot be an option: it has fewer than two bytes, or no dash in front.
abbrev pub no_option : String → Bool
no_option arg = ltb (len arg) 2 || not (starts_with arg "-")

-- The value that follows, where it can be one.
unfoldable pub option_value : List String → Option String
option_value [] = none
option_value (next ∷ rest) =
    if next == "" || (next == "-" || starts_with next "-") then none else some next

module _ (caps : Option HardwareCapabilities) (index : ℕ) (name : String) where
  abbrev pub classified : Option (Bool × String) → Option String → Option VideoEncoderFlag
  classified none _ = none
  classified (some _) none = none
  classified (some (generic, specifier)) (some value) =
      if generic && (not (value == "copy") && not (known_video_encoder value caps))
      then none
      else some (record {
        index = index;
        name = name;
        specifier = specifier;
        value = value;
        generic = generic;
      })

module _ (caps : Option HardwareCapabilities) where
  -- One round of the loop of ParseVideoEncoderFlags, at the token `arg` with `rest` behind it.
  unfoldable pub selection : ℕ → String → List String → Option VideoEncoderFlag
  selection i arg rest =
      if no_option arg || has_part (from 1 arg) "="
      then none
      else classified caps i (from 1 arg) (video_encoder_flag_name (from 1 arg)) (option_value rest)

  abbrev pub push_flag : Option VideoEncoderFlag → List VideoEncoderFlag → List VideoEncoderFlag
  push_flag none flags = flags
  push_flag (some flag) flags = flag ∷ flags

  unfoldable pub parse_from : ℕ → List String → List VideoEncoderFlag
  parse_from i [] = []
  parse_from i (arg ∷ rest) =
      let later = parse_from (suc i) rest in
      if arg == "--" then [] else push_flag (selection i arg rest) later

  unfoldable pub parse_video_encoder_flags : List String → List VideoEncoderFlag
  parse_video_encoder_flags args = parse_from 0 args

-- The loop from the end of the list.
unfoldable pub last_explicit : List VideoEncoderFlag → Option VideoEncoderFlag
last_explicit [] = none
last_explicit (flag ∷ flags) = later (last_explicit flags)
  where
    later : Option VideoEncoderFlag → Option VideoEncoderFlag
    later (some found) = some found
    later none = if flag.generic then none else some flag

unfoldable pub last_flag : List VideoEncoderFlag → Option VideoEncoderFlag
last_flag [] = none
last_flag (flag ∷ []) = some flag
last_flag (_ ∷ (flag ∷ flags)) = last_flag (flag ∷ flags)

abbrev pub or_flag : Option VideoEncoderFlag → Option VideoEncoderFlag → Option VideoEncoderFlag
or_flag (some flag) _ = some flag
or_flag none other = other

unfoldable pub primary_video_encoder_flag : List VideoEncoderFlag → Option VideoEncoderFlag
unfolding last_explicit last_flag
primary_video_encoder_flag flags = or_flag (last_explicit flags) (last_flag flags)

unfoldable pub rewritten_tokens : VideoEncoderFlag → String → List String
rewritten_tokens f target =
    if f.generic then "-c:v" ∷ target ∷ [] else ("-" <> f.name) ∷ target ∷ []

abbrev pub inline_name : Option ℕ → String → Bool
inline_name none name = false
inline_name (some eq) name = is_classified (video_encoder_flag_name (up_to eq name))
  where
    is_classified : Option (Bool × String) → Bool
    is_classified none = false
    is_classified (some _) = true

unfoldable pub has_inline_video_encoder_syntax : List String → Bool
has_inline_video_encoder_syntax [] = false
has_inline_video_encoder_syntax (arg ∷ rest) =
    let later = has_inline_video_encoder_syntax rest in
    if arg == "--"
    then false
    else if no_option arg
    then later
    else inline_name (find? (from 1 arg) "=") (from 1 arg) || later

-- flagAt: the index of a flag is unique in the list.
unfoldable pub flag_index : List VideoEncoderFlag → ℕ → Option VideoEncoderFlag
flag_index flags i = find_where (λ f. eqb f.index i) flags

-- The loop of ReplacePrimaryVideoEncoder, with its two Boolean variables.
module _ (flags : List VideoEncoderFlag) (primary : VideoEncoderFlag) (enc : String) where
  abbrev pub head_tokens : ℕ → String → Option VideoEncoderFlag → List String → List String
  head_tokens i arg none rest = arg ∷ []
  head_tokens i arg (some flag) [] = arg ∷ []
  head_tokens i arg (some flag) (next ∷ rest) =
      if eqb flag.index primary.index then rewritten_tokens flag enc else arg ∷ next ∷ []

  abbrev pub is_selected : Option VideoEncoderFlag → Bool
  is_selected none = false
  is_selected (some _) = true

  unfoldable pub replaced : Bool → Bool → ℕ → List String → List String
  replaced skip_next passthrough i [] = []
  replaced true passthrough i (arg ∷ rest) = replaced false passthrough (suc i) rest
  replaced false true i (arg ∷ rest) = arg ∷ replaced false true (suc i) rest
  replaced false false i (arg ∷ rest) =
      let later =
        replaced (not (arg == "--") && is_selected (flag_index flags i)) (arg == "--") (suc i)
          rest in
      if arg == "--" then arg ∷ later else head_tokens i arg (flag_index flags i) rest ++ later

module _ (caps : Option HardwareCapabilities) (args : List String) (enc : String) where
  abbrev pub replace_at : Option VideoEncoderFlag → List String
  replace_at none = args
  replace_at (some primary) =
      if primary.value == "copy"
      then args
      else replaced (parse_video_encoder_flags caps args) primary enc false false 0 args

unfoldable pub replace_primary_video_encoder :
    List String → String → Option HardwareCapabilities → List String
replace_primary_video_encoder args enc caps =
    replace_at caps args enc (primary_video_encoder_flag (parse_video_encoder_flags caps args))
