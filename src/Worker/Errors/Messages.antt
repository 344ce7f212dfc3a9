-- ===== src/Worker/Errors/Messages.antt =====
-- pkg/worker/error_analyzer.go: the compiled patterns, the message and the context lines of an error.
use rffmpeg.Base.{
  ℕ, ◌+◌, ◌-◌, String, Bool, ◌&&◌, Option, none, some, List, [], ◌∷◌, ◌++◌, ◌==◌, not,
  if◌then◌else◌, map, take, drop, has_part, ◌<>◌,
}
use rffmpeg.Base.Tables.{exists_where, find_where, select}
use rffmpeg.Worker.{ErrorType, GoLibrary, Regexp}
use rffmpeg.Worker.Errors.Patterns.{ErrorPattern}

pub record CompiledPattern : Type 0 where
  pub kind : ErrorType
  pub expressions : List Regexp
  pub about : String

module _ (go : GoLibrary) where
  -- regexp.Compile of "(?i)" and a pattern; one that does not compile is dropped.
  abbrev pub keep_compiled : String → Option (String → Bool) → List Regexp → List Regexp
  keep_compiled expr none rest = rest
  keep_compiled expr (some match) rest = record { expr = expr; match_string = match } ∷ rest

  unfoldable pub compile_quoted : List String → List Regexp
  compile_quoted [] = []
  compile_quoted (p ∷ ps) =
      keep_compiled ("(?i)" <> go.quote_meta p) (go.compile ("(?i)" <> go.quote_meta p))
        (compile_quoted ps)

  abbrev pub push_compiled : ErrorPattern → List Regexp → List CompiledPattern
  push_compiled pattern [] = []
  push_compiled pattern (re ∷ res) =
      record { kind = pattern.kind; expressions = re ∷ res; about = pattern.about } ∷ []

  -- AddPattern of the analyzer, and NewErrorAnalyzerWithPatterns.
  unfoldable pub add_pattern : List CompiledPattern → ErrorPattern → List CompiledPattern
  add_pattern patterns p = patterns ++ push_compiled p (compile_quoted p.texts)

  unfoldable pub add_patterns : List CompiledPattern → List ErrorPattern → List CompiledPattern
  unfolding add_pattern
  add_patterns patterns [] = patterns
  add_patterns patterns (p ∷ ps) = add_patterns (add_pattern patterns p) ps

  unfoldable pub new_error_analyzer : List ErrorPattern → List CompiledPattern
  new_error_analyzer patterns = add_patterns [] patterns

  -- The lines without the space around them, the empty ones dropped.
  unfoldable pub trimmed_lines : List String → List String
  trimmed_lines lines = select (λ l. not (l == "")) (map go.trim_space lines)

  error_indicators : List String
  error_indicators = "error" ∷ "fail" ∷ "invalid" ∷ "cannot" ∷ "unable" ∷ "not found" ∷ []

  abbrev pub first_of : Option String → List String → String → String
  first_of (some line) _ _ = line
  first_of none (line ∷ _) _ = line
  first_of none [] stderr = stderr

  unfoldable pub extract_first_error_line : String → String
  unfolding error_indicators
  extract_first_error_line stderr =
      first_of
        (find_where (λ l. exists_where (λ i. has_part (go.to_lower l) i) error_indicators)
          (trimmed_lines (go.lines stderr)))
        (trimmed_lines (go.lines stderr)) stderr

  abbrev pub found_line : Option String → String → String
  found_line (some line) _ = line
  found_line none stderr = extract_first_error_line stderr

  unfoldable pub extract_error_message : String → Regexp → String
  extract_error_message stderr re =
      found_line (find_where re.match_string (trimmed_lines (go.lines stderr))) stderr

  -- The index of the first line that matches, spaces around it aside.
  unfoldable pub matching_index : ℕ → Regexp → List String → Option ℕ
  matching_index i re [] = none
  matching_index i re (l ∷ ls) =
      let later = matching_index (i + 1) re ls in
      if not (go.trim_space l == "") && re.match_string (go.trim_space l) then some i else later

  -- Two lines before and two after the match, inside the list.
  abbrev pub context_window : Option ℕ → List String → List String
  context_window none lines = []
  context_window (some i) lines = trimmed_lines (take ((i + 3) - (i - 2)) (drop (i - 2) lines))

  abbrev pub or_first_lines : List String → List String → List String
  or_first_lines [] lines = take 5 (trimmed_lines lines)
  or_first_lines (l ∷ ls) _ = l ∷ ls

  unfoldable pub extract_context_lines : List String → Regexp → List String
  extract_context_lines lines re =
      or_first_lines (context_window (matching_index 0 re lines) lines) lines
